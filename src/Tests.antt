-- ===== src/Tests.antt =====
-- Runs of the theorems on concrete frames, subscriptions and connections of both ends.
pub mod Frames
pub mod Brokers
pub mod Connections
pub mod Clients
pub mod Calls
pub mod Queues
pub mod Systems
pub mod Receipts
pub mod Closed
