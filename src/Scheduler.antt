-- ===== src/Scheduler.antt =====
-- scheduler/: which routine a processor runs next, and the tasks of a scheduler.
pub mod ClassicContext
pub mod Processor
pub mod SchedulerClassic
