-- ===== src/Shm.antt =====
-- transport/shm/: the shared-memory segment of a channel.
pub mod Conf
pub mod State
pub mod Block
pub mod ReadableInfo
pub mod ConditionNotifier
pub mod Segment
