-- ===== src/Frame.antt =====
-- Package frame.
pub mod Codec
pub mod Command
pub mod Data
pub mod Header
pub mod HeartBeat
pub mod Link
pub mod Names
pub mod Reader
pub mod Writer
