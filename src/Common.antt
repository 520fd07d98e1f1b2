-- ===== src/Common.antt =====
-- common/: the data of the whole process.
pub mod GlobalData
