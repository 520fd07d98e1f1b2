-- ===== src/Data.antt =====
-- data/: the buffers between the transport and the readers.
pub mod CacheBuffer
pub mod ChannelBuffer
pub mod AllLatest
pub mod Dispatcher
