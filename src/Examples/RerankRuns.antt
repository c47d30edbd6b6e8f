-- ===== src/Examples/RerankRuns.antt =====
-- Runs of scripts/rerank_sbfl_with_llm.py.
use ibex.Base.{
  ℕ, zero, suc, ◌+◌, ◌<◌, ◌≤◌, ◌≡◌, ◌≢◌, ◌↔◌, ◌⊎◌, refl, true, false, List, [], ◌∷◌, All, length,
  ltb, nat_eq, arith, if◌then◌else◌,
}
use ibex.Base.Counts.{count}
use ibex.Base.Int.{ℤ, pos}
use ibex.Base.Text.{text_eq}
use ibex.RerankJobs.Pool.{PoolState, worker_count, start, round, exit_code, not_run}
use ibex.RerankJobs.Pool.Sound.{failed_ids}
use ibex.RerankJobs.Pool.Reach.{Reach, begin, next}
use ibex.RerankJobs.Pool.Exit.{run_jobs-once, run_jobs-rounds, run_jobs-all, run_jobs-zero_iff}

-- Three jobs on two threads, of which the second fails.
abbrev codes_of : ℕ → ℤ
codes_of (suc zero) = pos 1
codes_of _ = pos 0

abbrev behind_one : PoolState
behind_one = round 3 (worker_count 2 3) codes_of false (1 ∷ []) (start 3 (worker_count 2 3))

abbrev behind_two : PoolState
behind_two = round 3 (worker_count 2 3) codes_of false (0 ∷ 2 ∷ []) behind_one

first_pending : (start 3 (worker_count 2 3)).pending ≡ 0 ∷ 1 ∷ []
unfolding start worker_count
first_pending = refl

second_pending : behind_one.pending ≡ 0 ∷ 2 ∷ []
unfolding start worker_count round
second_pending = refl

last_pending : behind_two.pending ≡ []
unfolding start worker_count round
last_pending = refl

returns_one : exit_code behind_two ≡ 1
unfolding start worker_count round exit_code
returns_one = refl

some_of_first : (i : ℕ) → count i (1 ∷ []) ≤ count i (start 3 (worker_count 2 3)).pending
unfolding count
some_of_first i = rw first_pending (omega arith)

all_of_second : (i : ℕ) → count i (0 ∷ 2 ∷ []) ≤ count i behind_one.pending
unfolding count
all_of_second i = rw second_pending (omega arith)

reached : Reach 3 (worker_count 2 3) codes_of false 2 behind_two
reached = next (0 ∷ 2 ∷ []) (next (1 ∷ []) begin (λ p. cc) some_of_first) (λ p. cc) all_of_second

run_jobs-once_example :
    (length behind_two.pending ≤ 2)
    × (behind_two.next_job ≤ 3)
    × ((oks : List ℕ) × (length oks ≡ behind_two.succeeded)
        × All (λ i. codes_of i ≡ pos 0) oks
        × All (λ (i, c). (c ≡ codes_of i) × (c ≢ pos 0)) behind_two.failures
        × ((i : ℕ)
            → count i oks + count i (failed_ids behind_two.failures) + count i behind_two.pending
              ≡ (if ltb i behind_two.next_job then 1 else 0)))
run_jobs-once_example = run_jobs-once (omega arith) reached

run_jobs-rounds_example : 2 + length behind_two.pending ≤ 3
run_jobs-rounds_example = run_jobs-rounds (omega arith) reached

run_jobs-all_example : (not_run 3 behind_two ≡ 0) ⊎ ((false ≡ true) × (exit_code behind_two ≡ 1))
run_jobs-all_example = run_jobs-all (omega arith) reached last_pending

run_jobs-zero_iff_example : (exit_code behind_two ≡ 0) ↔ ((i : ℕ) → i < 3 → codes_of i ≡ pos 0)
run_jobs-zero_iff_example = run_jobs-zero_iff (omega arith) reached last_pending
