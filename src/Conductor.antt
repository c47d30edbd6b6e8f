-- ===== src/Conductor.antt =====
-- dv/formal/conductor.py, which schedules proof processes and finds a strategy of proofs: what
-- a process ended with.
pub mod Explore
pub mod Modes
pub mod Process
pub mod Prove
pub mod Runner
pub mod Select
pub mod Split
pub mod Strategy
use ibex.Base.{ℕ, Option}
use ibex.Base.Int.{ℤ}
use ibex.Base.Text.{Text}

-- Memory is counted in bytes and time in milliseconds.
pub record ProcessResult : Type 0 where
  pub code : Option ℤ
  pub reason : Text
  pub max_mem : ℕ
  pub dt : ℕ
  pub stdout : Option Text
  pub stderr : Option Text
