-- ===== src/Client.antt =====
-- Package stomp: the client library.
pub mod Errors
pub mod AckMode
pub mod Versions
pub mod Message
pub mod Subscription
pub mod Calls
pub mod Options
pub mod Conn
pub mod Connect
pub mod Turns
pub mod Loop
pub mod ReadLoop
pub mod Dial
