-- ===== src/RerankJobs/Pool/Exit.antt =====
-- What `run_jobs` of rerank_sbfl_with_llm.py returns.
use ibex.Base.{
  ℕ, zero, suc, ◌+◌, ◌<◌, ◌≤◌, ◌≡◌, ◌≢◌, ◌↔◌, ◌⊎◌, refl, ap, ◌∙◌, inl, inr, Bool, true, false, List,
  [], ◌∷◌, All, length, is_empty, ltb, nat_eq, arith, if◌then◌else◌, Bool-cases,
}
use ibex.Base.Counts.{count}
use ibex.Base.Int.{ℤ, pos}
use ibex.RerankJobs.Pool.{PoolState, worker_count, has_room, may_submit, not_run, exit_code}
use ibex.RerankJobs.Pool.Sound.{IsSound, failed_ids}
use ibex.RerankJobs.Pool.Reach.{Reach, Reach-IsSound, worker_count-positive}

count-All : (P : ℕ → Type 0) (i : ℕ) (xs : List ℕ) → All P xs → 0 < count i xs → P i
unfolding count nat_eq
count-All P i [] h there = absurd (omega arith)
count-All P i (x ∷ xs) (p, ps) there = elim (nat_eq.dec i x) [
  | yes e ↦ rw e p
  | no differ ↦ count-All P i xs ps (ground (arith, there))
]

empty-stop :
    (total workers : ℕ) (s : PoolState)
    → 0 < workers
    → may_submit total workers s ≡ false
    → s.pending ≡ []
    → s.next_job ≤ total
    → (s.next_job ≡ total) ⊎ (s.stop_scheduling ≡ true)
unfolding may_submit has_room
empty-stop total workers s some_worker ends none_left not_past =
    elim (Bool-cases s.stop_scheduling) [
      | inl e ↦ inr e
      | inr e ↦ inl (ground (arith, ends, ap length none_left, e))
    ]

module _ {total workers : ℕ} {code : ℕ → ℤ} {stop_on_error : Bool} where
  none_failed :
      {oks : List ℕ} (s : PoolState)
      → IsSound total workers code stop_on_error oks s
      → s.pending ≡ []
      → s.failures ≡ []
      → s.next_job ≡ total
      → (i : ℕ) → i < total
      → code i ≡ pos 0
  unfolding failed_ids count
  none_failed {oks} s h none_left none all i below =
      count-All (λ j. code j ≡ pos 0) i oks h.zeros (omega (arith, each, submitted))
    where
      submitted : ◌≡◌ {A = ℕ} (if ltb i s.next_job then 1 else 0) 1
      submitted = ground (arith, all, below)

      each : count i oks + 0 + 0 ≡ (if ltb i s.next_job then 1 else 0)
      each = rw (none, none_left) at (h.once i)

  zero_failures :
      {oks : List ℕ} (s : PoolState)
      → IsSound total workers code stop_on_error oks s
      → ((i : ℕ) → i < total → code i ≡ pos 0)
      → s.failures ≡ []
  unfolding failed_ids count nat_eq
  zero_failures {oks} s h zeros =
      none_in s.failures h.others (λ i there. zeros i (below i there (h.once i)))
    where
      below :
          (i : ℕ)
          → 0 < count i (failed_ids s.failures)
          → count i oks + count i (failed_ids s.failures) + count i s.pending
            ≡ (if ltb i s.next_job then 1 else 0)
          → i < total
      below i there each = grind (arith, there, each, h.not_past)

      none_in :
          (xs : List (ℕ × ℤ))
          → All (λ (i, c). (c ≡ code i) × (c ≢ pos 0)) xs
          → ((i : ℕ) → 0 < count i (failed_ids xs) → code i ≡ pos 0)
          → xs ≡ []
      none_in [] others all = refl
      none_in ((i, c) ∷ xs) ((same, differs), _) all =
          absurd (differs (same ∙ all i (ground arith)))

worker_count-le : (max_workers n : ℕ) → 0 < max_workers → worker_count max_workers n ≤ max_workers
unfolding worker_count
worker_count-le max_workers zero h = omega arith
worker_count-le max_workers (suc n) h = ground arith

module _ {total max_workers : ℕ} {code : ℕ → ℤ} {stop_on_error : Bool} (positive : 0 < max_workers)
    {n : ℕ} {s : PoolState}
    (reach : Reach total (worker_count max_workers total) code stop_on_error n s) where
  some_worker : 0 < worker_count max_workers total
  some_worker = worker_count-positive max_workers total positive

  -- No more than `max_workers` jobs are pending. Those that ended with 0, those that failed and
  -- those that are pending are together the jobs below `next_job`, each once, and what is kept of
  -- a failure is what its job returned.
  pub run_jobs-once :
      (length s.pending ≤ max_workers)
      × (s.next_job ≤ total)
      × ((oks : List ℕ) × (length oks ≡ s.succeeded)
          × All (λ i. code i ≡ pos 0) oks
          × All (λ (i, c). (c ≡ code i) × (c ≢ pos 0)) s.failures
          × ((i : ℕ)
              → count i oks + count i (failed_ids s.failures) + count i s.pending
                ≡ (if ltb i s.next_job then 1 else 0)))
  run_jobs-once =
      let (oks, h, _, _) = Reach-IsSound some_worker reach in
      (
        omega (arith, h.bounded, worker_count-le max_workers total positive),
        h.not_past,
        (oks, h.counted, h.zeros, h.others, h.once),
      )

  -- A round ends a job at least, so that the loop is done behind `total` rounds at most.
  pub run_jobs-rounds : n + length s.pending ≤ total
  run_jobs-rounds =
      let (oks, h, few, _) = Reach-IsSound some_worker reach in
      omega (arith, h.counted, h.lengths, h.not_past)

  -- Behind the loop every job was run, or `--stop-on-error` is set, one failed, and 1 is returned.
  pub run_jobs-all :
      s.pending ≡ [] → (not_run total s ≡ 0) ⊎ ((stop_on_error ≡ true) × (exit_code s ≡ 1))
  unfolding not_run exit_code
  run_jobs-all none_left =
      let (oks, h, _, ends) = Reach-IsSound some_worker reach in
      elim (empty-stop total _ s some_worker ends none_left h.not_past) [
        | inl all ↦ inl (omega (arith, h.counted, h.lengths, ap length none_left))
        | inr stop ↦ inr (ground (arith, h.stopping, stop), ground (arith, h.stopping, stop))
      ]

  -- Behind the loop 0 is returned exactly if the command of every job ended with 0.
  pub run_jobs-zero_iff :
      s.pending ≡ [] → (exit_code s ≡ 0) ↔ ((i : ℕ) → i < total → code i ≡ pos 0)
  unfolding exit_code
  run_jobs-zero_iff none_left =
      let (oks, h, _, ends) = Reach-IsSound some_worker reach in
      (
        λ e.
            none_failed s h none_left (none_kept s.failures e)
              (complete oks h ends (none_kept s.failures e)),
        λ zeros. rw (zero_failures s h zeros) refl,
      )
    where
      none_kept : (xs : List (ℕ × ℤ)) → ◌≡◌ {A = ℕ} (if is_empty xs then 0 else 1) 0 → xs ≡ []
      none_kept [] e = refl
      none_kept (x ∷ xs) e = absurd (omega (arith, e))

      complete :
          (oks : List ℕ)
          → IsSound total (worker_count max_workers total) code stop_on_error oks s
          → may_submit total (worker_count max_workers total) s ≡ false
          → s.failures ≡ []
          → s.next_job ≡ total
      complete oks h ends none = elim (empty-stop total _ s some_worker ends none_left h.not_past) [
        | inl all ↦ all
        | inr stop ↦ absurd (ground (arith, h.stopping, stop, ap is_empty none))
      ]
