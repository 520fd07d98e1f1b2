-- ===== src/Serialize.antt =====
-- serialize/: the tagged byte stream of messages.
pub mod Bytes
pub mod Stream
pub mod Containers
pub mod Transfer
