-- ===== src/Tests.antt =====
-- The theorems at concrete inputs, and what the operations give there.
pub mod Base
pub mod Blocker
pub mod Common
pub mod Shm
pub mod Time
pub mod Data
pub mod Scheduler
pub mod Serialize
pub mod Transport
pub mod Graph
pub mod Managers
