-- ===== src/Server.antt =====
-- Package server and the packages below it.
pub mod Negotiation
pub mod Objects
pub mod Storage
pub mod Subscription
pub mod SubscriptionList
pub mod TxStore
pub mod Broker
pub mod Conn
pub mod Listen
