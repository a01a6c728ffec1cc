-- ===== src/System.antt =====
-- The client library and the server at the two ends of a connection: what comes of a call of the client.
pub mod Sent
pub mod Received
pub mod Delivery
pub mod Transactions
pub mod Asking
pub mod Receipts
pub mod Unsubscribed
pub mod Acknowledged
pub mod OddMode
pub mod Closed
