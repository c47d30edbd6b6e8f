-- ===== src/Reranking/Sorted.antt =====
-- The order of the ranking of `rank_candidates`, apart from the tuple that is its sort key.
use Prim.Native.Nat.{Ordering, compare as compare_ℕ}
use Prim.Native.Nat.compare as compare_ℕ
use Prim.Native.Char.{code}
use Prim.Native.String.{[] as empty, ◌∷◌ as ◌‥◌, compare, then}
use Prim.Native.String.compare
use text.Mathlib.Text.{is_le}
use ibex.Base.{
  ℕ, zero, suc, ◌<◌, ◌≡◌, refl, sym, ap, ◌∙◌, ◌⊎◌, true, false, List, [], ◌∷◌, String, All, arith,
}
use ibex.Base.Sorting.{sort, IsSorted, sort-IsSorted_on}
use ibex.Reranking.{Numbers, Scored, le_key}

abbrev flipped : Ordering → Ordering
flipped Ordering.lt = Ordering.gt
flipped Ordering.eq = Ordering.eq
flipped Ordering.gt = Ordering.lt

compare_ℕ-flipped : (m n : ℕ) → compare_ℕ n m ≡ flipped (compare_ℕ m n)
compare_ℕ-flipped zero zero = refl
compare_ℕ-flipped zero (suc n) = compare_ℕ.suc-zero n ∙ ap flipped (sym (compare_ℕ.zero-suc n))
compare_ℕ-flipped (suc m) zero = compare_ℕ.zero-suc m ∙ ap flipped (sym (compare_ℕ.suc-zero m))
compare_ℕ-flipped (suc m) (suc n) =
    compare_ℕ.suc-suc n m ∙ compare_ℕ-flipped m n ∙ ap flipped (sym (compare_ℕ.suc-suc m n))

then-flipped : (o p : Ordering) → then (flipped o) (flipped p) ≡ flipped (then o p)
then-flipped Ordering.lt p = refl
then-flipped Ordering.eq p = refl
then-flipped Ordering.gt p = refl

compare-flipped : (s t : String) → compare t s ≡ flipped (compare s t)
compare-flipped empty empty = compare.nil-nil ∙ ap flipped (sym compare.nil-nil)
compare-flipped empty (d ‥ t) = compare.cons-nil d t ∙ ap flipped (sym (compare.nil-cons d t))
compare-flipped (c ‥ s) empty = compare.nil-cons c s ∙ ap flipped (sym (compare.cons-nil c s))
compare-flipped (c ‥ s) (d ‥ t) =
    compare.cons-cons d c t s
    ∙ ap (λ o. then o (compare t s)) (compare_ℕ-flipped (code c) (code d))
    ∙ ap (then (flipped (compare_ℕ (code c) (code d)))) (compare-flipped s t)
    ∙ then-flipped (compare_ℕ (code c) (code d)) (compare s t)
    ∙ ap flipped (sym (compare.cons-cons c d s t))

is_le-flipped : (o : Ordering) → is_le o ≡ false → is_le (flipped o) ≡ true
is_le-flipped Ordering.lt h = cc
is_le-flipped Ordering.eq h = refl
is_le-flipped Ordering.gt h = refl

-- Texts are ordered.
le_text_total : (s t : String) → is_le (compare s t) ≡ false → is_le (compare t s) ≡ true
le_text_total s t h = rw (compare-flipped s t) (is_le-flipped (compare s t) h)

-- What Python's floats do: `==` is symmetric, of two finite ones that differ one is less, and
-- rounding a finite one, or mixing two with a weight, one of them in the unit interval, gives a
-- finite one.
pub record AreFloats (N : Numbers) : Type 0 where
  pub equal_sym : (x y : N.F) → N.equal x y ≡ N.equal y x
  pub connected :
      (x y : N.F)
      → N.is_finite x ≡ true
      → N.is_finite y ≡ true
      → N.equal x y ≡ false
      → N.less x y ≡ false
      → N.less y x ≡ true
  pub round_finite : (x : N.F) → N.is_finite x ≡ true → N.is_finite (N.round_12 x) ≡ true
  pub mix_finite :
      (w s v : N.F)
      → N.in_unit w ≡ true
      → N.in_unit s ≡ true
      → N.is_finite v ≡ true
      → N.is_finite (N.add (N.mul w s) (N.mul (N.one_minus w) v)) ≡ true

module _ (N : Numbers) where
  abbrev pub IsFinite : Scored N → Type 0
  IsFinite x =
      (N.is_finite x.final_score ≡ true)
      × (N.is_finite x.llm_score ≡ true)
      × (N.is_finite x.sbfl_score ≡ true)

  -- One item may stand in front of another: its final score is greater; or they are equal, and
  -- the same holds of the model's score, then of the suspiciousness; where all are equal, its
  -- original rank is less, or that is equal and its id is not the later one.
  abbrev pub IsBefore : Scored N → Scored N → Type 0
  IsBefore x y =
      (N.less y.final_score x.final_score ≡ true)
      ⊎ (N.equal x.final_score y.final_score ≡ true)
        × ((N.less y.llm_score x.llm_score ≡ true)
            ⊎ (N.equal x.llm_score y.llm_score ≡ true)
              × ((N.less y.sbfl_score x.sbfl_score ≡ true)
                  ⊎ (N.equal x.sbfl_score y.sbfl_score ≡ true)
                    × ((x.candidate.original_rank < y.candidate.original_rank)
                        ⊎ (x.candidate.original_rank ≡ y.candidate.original_rank)
                          × (is_le (compare x.candidate.candidate_id y.candidate.candidate_id)
                              ≡ true))))

  abbrev pub AreInOrder : List (Scored N) → Type 0
  AreInOrder [] = Unit
  AreInOrder (x ∷ []) = Unit
  AreInOrder (x ∷ y ∷ ys) = IsBefore x y × AreInOrder (y ∷ ys)

  le_key-IsBefore : (x y : Scored N) → le_key N x y ≡ true → IsBefore x y
  unfolding le_key
  le_key-IsBefore x y h = ground arith

  IsSorted-AreInOrder : (xs : List (Scored N)) → IsSorted (le_key N) xs → AreInOrder xs
  IsSorted-AreInOrder [] h = tt
  IsSorted-AreInOrder (x ∷ []) h = tt
  IsSorted-AreInOrder (x ∷ y ∷ ys) (h, rest) =
      (le_key-IsBefore x y h, IsSorted-AreInOrder (y ∷ ys) rest)

  le_key_total :
      AreFloats N
      → (x y : Scored N) → IsFinite x
      → IsFinite y
      → le_key N x y ≡ false
      → le_key N y x ≡ true
  unfolding le_key
  le_key_total floats x y (f, l, s) (f', l', s') h = ground (
    arith,
    floats.equal_sym x.final_score y.final_score,
    floats.equal_sym x.llm_score y.llm_score,
    floats.equal_sym x.sbfl_score y.sbfl_score,
    floats.connected y.final_score x.final_score f' f,
    floats.connected y.llm_score x.llm_score l' l,
    floats.connected y.sbfl_score x.sbfl_score s' s,
    le_text_total x.candidate.candidate_id y.candidate.candidate_id,
  )

  pub sort-AreInOrder :
      AreFloats N
      → (scored : List (Scored N)) → All IsFinite scored
      → AreInOrder (sort (le_key N) scored)
  sort-AreInOrder floats scored finite =
      IsSorted-AreInOrder _
        (sort-IsSorted_on (le_key N) IsFinite (le_key_total floats) scored finite)
