-- ===== src/Time.antt =====
-- time/: durations, times and the loop rate.
pub mod Rate
