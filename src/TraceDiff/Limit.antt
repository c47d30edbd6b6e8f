-- ===== src/TraceDiff/Limit.antt =====
-- What `--max-diffs` leaves of the reported differences.
use ibex.Base.{
  ℕ, zero, suc, ◌+◌, ◌-◌, ◌≤◌, ◌≡◌, refl, sym, ap, ◌∙◌, Option, none, some, List, [], ◌∷◌, ◌++◌,
  append_assoc, arith, length, length-append, take, take-append, get_elem?, leb, Bool-cases, inl,
  inr, tests, false, true, Bool, if◌then◌else◌, append-nil, le→ltb_false, ◌⊎◌,
}
use ibex.TraceDiff.{
  TraceEntry, DiffEntry, compare_entries, limit_reached, diff_loop, compare_len, ℤ, pos, negsuc,
  DiffResult, diffs, skip_negative, skip_exceeds, collect_diffs,
}
use Prim.Native.Nat.{max}
use native.Mathlib.Nat.{add-zero}

compare_entries_short : (i : ℕ) (a b : Option TraceEntry) → length (compare_entries i a b) ≤ 1
unfolding compare_entries
compare_entries_short i (some a) (some b) = ground arith
compare_entries_short i (some a) none = omega arith
compare_entries_short i none (some b) = omega arith
compare_entries_short i none none = omega arith

take_long : (n : ℕ) (xs : List DiffEntry) → length xs ≤ n → take n xs ≡ xs
take_long zero [] h = refl
take_long zero (x ∷ xs) h = absurd (omega arith)
take_long (suc n) [] h = refl
take_long (suc n) (x ∷ xs) h = ap (◌∷◌ x) (take_long n xs (omega arith))

leb_false→le : (k n : ℕ) → leb (suc k) n ≡ false → n ≤ k
leb_false→le k n h = ground arith

module _ (as' bs : List TraceEntry) (sa sb : ℕ) where
  -- The loop only appends.
  diff_loop_extends :
      (rounds i : ℕ) (ds : List DiffEntry)
      → diff_loop as' bs sa sb none rounds i ds ≡ ds ++ diff_loop as' bs sa sb none rounds i []
  unfolding diff_loop
  diff_loop_extends zero i ds = sym (append-nil ds)
  diff_loop_extends (suc rounds) i ds =
      let c = compare_entries i (get_elem? as' (sa + i)) (get_elem? bs (sb + i)) in
      diff_loop_extends rounds (suc i) (ds ++ c)
      ∙ (append_assoc ds c _ ∙ ap (◌++◌ ds) (sym (diff_loop_extends rounds (suc i) c)))

  take-diff_loop :
      (k rounds i : ℕ) (ds : List DiffEntry)
      → length ds ≡ k
      → take k (diff_loop as' bs sa sb none rounds i ds) ≡ ds
  take-diff_loop k rounds i ds h = rw (diff_loop_extends, ← h) (take-append ds _)

  diff_loop_limit :
      (k rounds i : ℕ) (ds : List DiffEntry)
      → length ds ≤ k
      → diff_loop as' bs sa sb (some (pos (suc k))) rounds i ds
        ≡ take (suc k) (diff_loop as' bs sa sb none rounds i ds)
  unfolding diff_loop limit_reached
  diff_loop_limit k zero i ds h = sym (take_long (suc k) ds (omega arith))
  diff_loop_limit k (suc rounds) i ds h =
      let c = compare_entries i (get_elem? as' (sa + i)) (get_elem? bs (sb + i)) in
      let length-c : length c ≤ 1 =
        compare_entries_short i (get_elem? as' (sa + i)) (get_elem? bs (sb + i)) in
      elim (Bool-cases (leb (suc k) (length (ds ++ c)))) [
        | inl full ↦ rw full (
            sym (
              take-diff_loop (suc k) rounds (suc i) (ds ++ c)
                (omega (tests, length-append ds c, length-c, full))))
        | inr more ↦ rw more (diff_loop_limit k rounds (suc i) (ds ++ c) (leb_false→le k _ more))
      ]

-- A result with only its first `k` differences.
abbrev pub first : ℕ → DiffResult → DiffResult
first k (diffs ds) = diffs (take k ds)
first k (skip_negative name) = skip_negative name
first k (skip_exceeds name) = skip_exceeds name

first_if :
    (k : ℕ) (b : Bool) (r s : DiffResult)
    → first k (if b then r else s) ≡ (if b then first k r else first k s)
first_if k true r s = refl
first_if k false r s = refl

-- A positive `--max-diffs` keeps the first that many of the differences reported without a limit,
-- for all logs and skips; bad skips are refused alike.
collect_diffs-first :
    (k : ℕ) (as' bs : List TraceEntry) (sa sb : ℤ)
    → collect_diffs as' sa bs sb (some (pos (suc k)))
      ≡ first (suc k) (collect_diffs as' sa bs sb none)
unfolding collect_diffs
collect_diffs-first k as' bs (negsuc _) sb = refl
collect_diffs-first k as' bs (pos sa) (negsuc _) = refl
collect_diffs-first k as' bs (pos sa) (pos sb) =
    simp (first_if, diff_loop_limit as' bs sa sb k (compare_len as' bs sa sb) 0 [] (omega arith))

get_beyond : (xs : List TraceEntry) (n : ℕ) → length xs ≤ n → get_elem? xs n ≡ none
get_beyond [] n h = refl
get_beyond (x ∷ xs) zero h = absurd (omega arith)
get_beyond (x ∷ xs) (suc n) h = get_beyond xs n (omega arith)

first_round :
    (as' bs : List TraceEntry) (sa sb rounds : ℕ) (k : ℤ)
    → ((n : ℕ) → limit_reached (some k) n ≡ true)
    → rounds ≡ max (length as' - sa) (length bs - sb)
    → diff_loop as' bs sa sb (some k) rounds 0 []
      ≡ compare_entries 0 (get_elem? as' sa) (get_elem? bs sb)
unfolding diff_loop compare_entries
first_round as' bs sa sb zero k stop h =
    rw (get_beyond as' sa (omega arith), get_beyond bs sb (omega arith))
first_round as' bs sa sb (suc rounds) k stop h = rw (add-zero sa, add-zero sb, stop)

-- A limit that is not positive is looked at only after the first round: the first entries behind
-- the skips are still compared, and their difference is reported.
collect_diffs_nonpositive :
    (as' bs : List TraceEntry) (sa sb n : ℕ) (k : ℤ)
    → sa ≤ length as'
    → sb ≤ length bs
    → (k ≡ pos 0) ⊎ (k ≡ negsuc n)
    → collect_diffs as' (pos sa) bs (pos sb) (some k)
      ≡ diffs (compare_entries 0 (get_elem? as' sa) (get_elem? bs sb))
unfolding collect_diffs compare_len limit_reached
collect_diffs_nonpositive as' bs sa sb n k ha hb sign =
    rw (le→ltb_false _ _ ha, le→ltb_false _ _ hb)
      (ap diffs (
        first_round as' bs sa sb (compare_len as' bs sa sb) k
          (λ m. elim sign [ inl e ↦ rw e (ground arith) | inr e ↦ rw e ]) refl))
