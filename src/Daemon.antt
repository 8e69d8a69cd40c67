-- ===== src/Daemon.antt =====
-- The daemon's file synchronisation, daemon/src.
pub mod Bytes
pub mod Message
pub mod Receiver
pub mod Table
pub mod Catalog
pub mod Transfer
pub mod Folder
