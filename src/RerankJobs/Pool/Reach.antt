-- ===== src/RerankJobs/Pool/Reach.antt =====
-- How `run_jobs` of rerank_sbfl_with_llm.py ends, in whatever order its commands do.
use ibex.Base.{
  ℕ, zero, suc, ◌+◌, ◌<◌, ◌≤◌, ◌≡◌, ◌≢◌, refl, ◌∙◌, inl, inr, Bool, true, false, List, [], ◌∷◌,
  length, nat_eq, arith, Bool-cases, length-append,
}
use ibex.Base.Counts.{count}
use ibex.Base.Int.{ℤ, is_zero}
use ibex.RerankJobs.Pool.{
  PoolState, worker_count, initial, submit_next, has_room, may_submit, fill, settle_one, settle,
  start, round,
}
use ibex.RerankJobs.Pool.Sound.{IsSound, initial-IsSound, fill-IsSound, settle-IsSound}

pub worker_count-positive : (max_workers n : ℕ) → 0 < max_workers → 0 < worker_count max_workers n
unfolding worker_count
worker_count-positive max_workers zero h = omega arith
worker_count-positive max_workers (suc n) h = ground arith

-- The states of a run behind so many rounds; `wait` returns some of the pending futures, at least
-- one.
pub data Reach (total workers : ℕ) (code : ℕ → ℤ) (stop_on_error : Bool)
    : ℕ → PoolState → Type 0 where
  begin : Reach total workers code stop_on_error 0 (start total workers)
  next :
      {n : ℕ} {s : PoolState} (finished : List ℕ)
      → Reach total workers code stop_on_error n s
      → finished ≢ []
      → ((i : ℕ) → count i finished ≤ count i s.pending)
      → Reach total workers code stop_on_error
          (suc n)
          (round total workers code stop_on_error finished s)

-- The jobs that ended.
abbrev pub ended : PoolState → ℕ
ended s = s.succeeded + length s.failures

ended-settle :
    (code : ℕ → ℤ) (stop_on_error : Bool) (finished : List ℕ) (s : PoolState)
    → ended (settle code stop_on_error finished s) ≡ ended s + length finished
unfolding settle settle_one
ended-settle code stop_on_error [] s = omega arith
ended-settle code stop_on_error (i ∷ finished) s =
    ended-settle code stop_on_error finished (settle_one code stop_on_error i s) ∙ one_more
  where
    one_more :
        ended (settle_one code stop_on_error i s) + length finished
        ≡ ended s + suc (length finished)
    one_more = elim (Bool-cases (is_zero (code i))) [
      | inl e ↦ rw e (omega arith)
      | inr e ↦ rw e (omega (arith, length-append s.failures ((i, code i) ∷ [])))
    ]

ended-fill : (may : PoolState → Bool) (fuel : ℕ) (s : PoolState) → ended (fill may fuel s) ≡ ended s
unfolding fill submit_next
ended-fill may zero s = refl
ended-fill may (suc fuel) s = elim (Bool-cases (may s)) [
  | inl e ↦ rw e (ended-fill may fuel (submit_next s))
  | inr e ↦ rw e refl
]

module _ (total workers : ℕ) where
  room-left : (s : PoolState) → has_room total workers s ≡ true → s.next_job < total
  unfolding has_room
  room-left s h = ground arith

  may-room : (s : PoolState) → may_submit total workers s ≡ true → has_room total workers s ≡ true
  unfolding may_submit
  may-room s h = ground arith

  fill-ends :
      (may : PoolState → Bool)
      → ((s : PoolState) → may s ≡ true → s.next_job < total)
      → (fuel : ℕ) (s : PoolState) → total ≤ fuel + s.next_job
      → may (fill may fuel s) ≡ false
  unfolding fill submit_next
  fill-ends may left zero s enough = elim (Bool-cases (may s)) [
    | inl e ↦ absurd (omega (arith, left s e))
    | inr e ↦ e
  ]
  fill-ends may left (suc fuel) s enough = elim (Bool-cases (may s)) [
    | inl e ↦ rw e (fill-ends may left fuel (submit_next s) (omega arith))
    | inr e ↦ rw e e
  ]

module _ {total workers : ℕ} {code : ℕ → ℤ} {stop_on_error : Bool} (some_worker : 0 < workers) where
  pub Reach-IsSound :
      {n : ℕ} {s : PoolState}
      → Reach total workers code stop_on_error n s
      → (oks : List ℕ) × IsSound total workers code stop_on_error oks s
        × (n ≤ ended s)
        × (may_submit total workers s ≡ false)
  unfolding start round
  Reach-IsSound begin = (
    [],
    fill-IsSound total workers code stop_on_error (has_room total workers) (λ s e. e) [] total
        initial (initial-IsSound total workers code stop_on_error some_worker),
    omega (arith, ended-fill (has_room total workers) total initial),
    no_room (start total workers) (
        fill-ends total workers (has_room total workers) (room-left total workers) total initial
          (omega arith)),
  )
    where
      no_room :
          (s : PoolState) → has_room total workers s ≡ false → may_submit total workers s ≡ false
      no_room s e = unfold may_submit in ground (arith, e)
  Reach-IsSound (next {n = n} {s = s} finished reach some_end some_of) =
      let (oks, h, few, _) = Reach-IsSound reach in
      let (oks', h') = settle-IsSound total workers code stop_on_error finished oks s some_of h in
      let s' = settle code stop_on_error finished s in
      let may = may_submit total workers in
      (
        oks',
        fill-IsSound total workers code stop_on_error may (may-room total workers) oks' total s' h',
        omega (
          arith,
          ended-fill may total s',
          ended-settle code stop_on_error finished s,
          positive finished some_end,
        ),
        fill-ends total workers may (λ t e. room-left total workers t (may-room total workers t e))
            total s' (omega arith),
      )
    where
      positive : (xs : List ℕ) → xs ≢ [] → 0 < length xs
      positive [] no_one = absurd (no_one refl)
      positive (x ∷ xs) _ = omega arith
