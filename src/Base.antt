-- ===== src/Base.antt =====
-- base/: the containers that the other parts share between threads.
pub mod BoundedQueue
pub mod AtomicHashMap
pub mod AtomicRwLock
