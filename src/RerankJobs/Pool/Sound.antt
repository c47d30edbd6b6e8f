-- ===== src/RerankJobs/Pool/Sound.antt =====
-- What holds of `run_jobs` of rerank_sbfl_with_llm.py in whatever order its commands end.
use ibex.Base.{
  ℕ, zero, suc, ◌+◌, ◌<◌, ◌≤◌, ◌≡◌, ◌≢◌, refl, inl, inr, Bool, true, false, ◌&&◌, not, List, [],
  ◌∷◌, ◌++◌, All, length, is_empty, ltb, nat_eqb, nat_eq, arith, if◌then◌else◌, Bool-cases,
  All-append, length-append,
}
use ibex.Base.Counts.{count, count-append}
use ibex.Base.Int.{ℤ, pos, is_zero}
use ibex.RerankJobs.Pool.{
  PoolState, remove, initial, submit_next, has_room, fill, settle_one, settle,
}

unfoldable pub failed_ids : List (ℕ × ℤ) → List ℕ
failed_ids [] = []
failed_ids ((i, _) ∷ failures) = i ∷ failed_ids failures

failed_ids-append :
    (xs : List (ℕ × ℤ)) (i : ℕ) (c : ℤ) (j : ℕ)
    → count j (failed_ids (xs ++ ((i, c) ∷ []))) ≡ count j (failed_ids xs) + count j (i ∷ [])
unfolding failed_ids count nat_eq
failed_ids-append [] i c j = omega arith
failed_ids-append ((k, _) ∷ xs) i c j = omega (arith, failed_ids-append xs i c j)

count-remove :
    (i j : ℕ) (xs : List ℕ) → 0 < count i xs → count j (remove i xs) + count j (i ∷ []) ≡ count j xs
unfolding remove count nat_eq
count-remove i j [] h = absurd (omega arith)
count-remove i j (x ∷ xs) h = elim (Bool-cases (nat_eqb i x)) [
  | inl e ↦ ground (arith, e)
  | inr e ↦ ground (arith, e, count-remove i j xs)
]

length-remove : (i : ℕ) (xs : List ℕ) → 0 < count i xs → suc (length (remove i xs)) ≡ length xs
unfolding remove count nat_eq
length-remove i [] h = absurd (omega arith)
length-remove i (x ∷ xs) h = elim (Bool-cases (nat_eqb i x)) [
  | inl e ↦ ground (arith, e)
  | inr e ↦ ground (arith, e, length-remove i xs)
]

is_zero-eq : (c : ℤ) → is_zero c ≡ true → c ≡ pos 0
is_zero-eq c h = ground arith

module _ (total workers : ℕ) (code : ℕ → ℤ) (stop_on_error : Bool) where
  -- The jobs `oks` succeeded, those of `failures` failed, and the rest of those that were
  -- submitted is pending, each once.
  pub record IsSound (oks : List ℕ) (s : PoolState) : Type 0 where
    pub bounded : length s.pending ≤ workers
    pub counted : length oks ≡ s.succeeded
    pub lengths : length oks + length s.failures + length s.pending ≡ s.next_job
    pub not_past : s.next_job ≤ total
    pub once :
        (i : ℕ)
        → count i oks + count i (failed_ids s.failures) + count i s.pending
          ≡ (if ltb i s.next_job then 1 else 0)
    pub zeros : All (λ i. code i ≡ pos 0) oks
    pub others : All (λ (i, c). (c ≡ code i) × (c ≢ pos 0)) s.failures
    pub stopping : s.stop_scheduling ≡ stop_on_error && not (is_empty s.failures)

  pub initial-IsSound : 0 < workers → IsSound [] initial
  unfolding count failed_ids
  initial-IsSound some_worker = record {
    bounded = omega arith;
    counted = refl;
    lengths = omega arith;
    not_past = omega arith;
    once = λ i. ground arith;
    zeros = tt;
    others = tt;
    stopping = nothing_failed stop_on_error;
  }
    where
      nothing_failed : (b : Bool) → false ≡ (b && not (is_empty {A = ℕ × ℤ} []))
      nothing_failed true = refl
      nothing_failed false = refl

  submit_next-IsSound :
      (oks : List ℕ) (s : PoolState)
      → has_room total workers s ≡ true
      → IsSound oks s
      → IsSound oks (submit_next s)
  unfolding submit_next has_room
  submit_next-IsSound oks s room h = record {
    bounded = ground (arith, length-append s.pending (s.next_job ∷ []));
    counted = h.counted;
    lengths = ground (arith, h.lengths, length-append s.pending (s.next_job ∷ []));
    not_past = ground arith;
    once = λ i. ground (arith, h.once i, count-append i s.pending (s.next_job ∷ []), once_more i);
    zeros = h.zeros;
    others = h.others;
    stopping = h.stopping;
  }
    where
      once_more :
          (i : ℕ)
          → (if ltb i (suc s.next_job) then 1 else 0)
            ≡ (if ltb i s.next_job then 1 else 0) + count i (s.next_job ∷ [])
      once_more i = unfold count nat_eq in ground arith

  settle_one-IsSound :
      (oks : List ℕ) (i : ℕ) (s : PoolState)
      → 0 < count i s.pending
      → IsSound oks s
      → (oks' : List ℕ) × IsSound oks' (settle_one code stop_on_error i s)
  unfolding settle_one count failed_ids
  settle_one-IsSound oks i s there h = elim (Bool-cases (is_zero (code i))) [
    | inl e ↦ rw e (
      i ∷ oks,
      record {
        bounded = omega (arith, h.bounded, length-remove i s.pending there);
        counted = omega (arith, h.counted);
        lengths = omega (arith, h.lengths, length-remove i s.pending there);
        not_past = h.not_past;
        once = λ j. omega (arith, h.once j, count-remove i j s.pending there);
        zeros = (is_zero-eq (code i) e, h.zeros);
        others = h.others;
        stopping = h.stopping;
      },
    )
    | inr e ↦ rw e (
      oks,
      record {
        bounded = omega (arith, h.bounded, length-remove i s.pending there);
        counted = h.counted;
        lengths = omega (
          arith,
          h.lengths,
          length-remove i s.pending there,
          length-append s.failures ((i, code i) ∷ []),
        );
        not_past = h.not_past;
        once = λ j. omega (
          arith,
          h.once j,
          count-remove i j s.pending there,
          failed_ids-append s.failures i (code i) j,
        );
        zeros = h.zeros;
        others =
            All-append _ s.failures ((i, code i) ∷ []) h.others ((refl, nonzero (code i) e), tt);
        stopping = stopped stop_on_error s.stop_scheduling s.failures h.stopping;
      },
    )
  ]
    where
      nonzero : (c : ℤ) → is_zero c ≡ false → c ≢ pos 0
      nonzero c e p = ground arith

      stopped :
          (on before : Bool) (xs : List (ℕ × ℤ))
          → before ≡ (on && not (is_empty xs))
          → (if on then true else before) ≡ (on && not (is_empty (xs ++ ((i, code i) ∷ []))))
      stopped on before [] p = ground (arith, p)
      stopped on before (x ∷ xs) p = ground (arith, p)

  pub fill-IsSound :
      (may : PoolState → Bool)
      → ((s : PoolState) → may s ≡ true → has_room total workers s ≡ true)
      → (oks : List ℕ) (fuel : ℕ) (s : PoolState) → IsSound oks s
      → IsSound oks (fill may fuel s)
  unfolding fill
  fill-IsSound may room oks zero s h = h
  fill-IsSound may room oks (suc fuel) s h = elim (Bool-cases (may s)) [
    | inl e ↦
        rw e
          (fill-IsSound may room oks fuel (submit_next s) (submit_next-IsSound oks s (room s e) h))
    | inr e ↦ rw e h
  ]

  pub settle-IsSound :
      (finished oks : List ℕ) (s : PoolState)
      → ((i : ℕ) → count i finished ≤ count i s.pending)
      → IsSound oks s
      → (oks' : List ℕ) × IsSound oks' (settle code stop_on_error finished s)
  unfolding settle
  settle-IsSound [] oks s some_of h = (oks, h)
  settle-IsSound (i ∷ finished) oks s some_of h =
      let there : 0 < count i s.pending = unfold count nat_eq in ground (arith, some_of i) in
      let (oks1, h1) = settle_one-IsSound oks i s there h in
      settle-IsSound finished oks1 (settle_one code stop_on_error i s)
        (λ j.
          rw (pending-settle_one i s)
            (omega (arith, some_of j, count-remove i j s.pending there, count-cons i j finished)))
        h1
    where
      pending-settle_one :
          (i : ℕ) (s : PoolState) → (settle_one code stop_on_error i s).pending ≡ remove i s.pending
      pending-settle_one i s = unfold settle_one in ground arith

      count-cons : (i j : ℕ) (xs : List ℕ) → count j (i ∷ xs) ≡ count j (i ∷ []) + count j xs
      count-cons i j xs = unfold count in omega arith
