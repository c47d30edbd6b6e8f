-- ===== src/RegressionCheck.antt =====
-- dv/uvm/core_ibex: how the logs of one test run are judged.
pub mod UvmLog
pub mod Compare
