-- ===== src/RerankJobs/Pool.antt =====
-- `run_jobs` of rerank_sbfl_with_llm.py: commands on a pool of threads.
pub mod Sound
pub mod Reach
pub mod Exit
use ibex.Base.{
  ℕ, zero, suc, ◌+◌, ◌-◌, Bool, true, false, ◌&&◌, not, List, [], ◌∷◌, ◌++◌, length, is_empty, ltb,
  nat_eqb, if◌then◌else◌,
}
use ibex.Base.Int.{ℤ, is_zero}

-- The variables of `run_jobs`. A future, and the job that it returns, is the index of its job.
pub record PoolState : Type 0 where
  pub next_job : ℕ
  pub pending : List ℕ
  pub succeeded : ℕ
  pub failures : List (ℕ × ℤ)
  pub stop_scheduling : Bool

-- `min(max_workers, len(jobs)) if jobs else 1`
unfoldable pub worker_count : ℕ → ℕ → ℕ
worker_count max_workers zero = 1
worker_count max_workers (suc n) = if ltb (suc n) max_workers then suc n else max_workers

-- `pending.pop(future)`
unfoldable pub remove : ℕ → List ℕ → List ℕ
remove i [] = []
remove i (j ∷ js) = if nat_eqb i j then js else j ∷ remove i js

abbrev pub initial : PoolState
initial = record {
  next_job = 0;
  pending = [];
  succeeded = 0;
  failures = [];
  stop_scheduling = false;
}

-- `submit_one(next_job)` and the line behind it.
unfoldable pub submit_next : PoolState → PoolState
submit_next s = record s { next_job = suc s.next_job; pending = s.pending ++ (s.next_job ∷ []) }

-- The loop that submits, with its test; no more jobs are left than the fuel.
unfoldable pub fill : (PoolState → Bool) → ℕ → PoolState → PoolState
unfolding submit_next
fill may zero s = s
fill may (suc fuel) s = let rest = fill may fuel (submit_next s) in if may s then rest else s

-- What each job's command returns, and `--stop-on-error`.
module _ (code : ℕ → ℤ) (stop_on_error : Bool) where
  -- The body of the loop over `done`.
  unfoldable pub settle_one : ℕ → PoolState → PoolState
  unfolding remove
  settle_one i s =
      if is_zero (code i)
      then record s { pending = remove i s.pending; succeeded = suc s.succeeded }
      else record s {
        pending = remove i s.pending;
        failures = s.failures ++ ((i, code i) ∷ []);
        stop_scheduling = if stop_on_error then true else s.stop_scheduling;
      }

  unfoldable pub settle : List ℕ → PoolState → PoolState
  unfolding settle_one
  settle [] s = s
  settle (i ∷ finished) s = settle finished (settle_one i s)

module _ (total workers : ℕ) where
  -- The test of the first loop.
  unfoldable pub has_room : PoolState → Bool
  has_room s = ltb s.next_job total && ltb (length s.pending) workers

  unfoldable pub may_submit : PoolState → Bool
  unfolding has_room
  may_submit s = not s.stop_scheduling && has_room s

  unfoldable pub start : PoolState
  unfolding fill has_room
  start = fill has_room total initial

  -- One round of `while pending`, with the futures that `wait` returned.
  unfoldable pub round : (ℕ → ℤ) → Bool → List ℕ → PoolState → PoolState
  unfolding settle fill may_submit
  round code stop_on_error finished s = fill may_submit total (settle code stop_on_error finished s)

unfoldable pub not_run : ℕ → PoolState → ℕ
not_run total s = total - s.succeeded - length s.failures

-- What `run_jobs` returns behind its loop.
unfoldable pub exit_code : PoolState → ℕ
exit_code s = if is_empty s.failures then 0 else 1
