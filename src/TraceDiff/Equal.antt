-- ===== src/TraceDiff/Equal.antt =====
-- The index loop of `collect_diffs` against a walk over the two lists, and when it reports nothing.
use Prim.Native.Nat.{max}
use mathlib.Core.List.{map}
use native.Mathlib.Nat.{add-suc, add-zero}
use ibex.Base.{
  ℕ, zero, suc, ◌+◌, ◌-◌, ◌≤◌, ◌≡◌, refl, sym, ap, ◌∙◌, ◌↔◌, ◌⊎◌, inl, inr, none, some, List, [],
  ◌∷◌, ◌++◌, append-nil, append_assoc, arith, length, get_elem?, drop, length-drop, le→ltb_false,
}
use ibex.Base.Text.{Text, text_eq}
use ibex.TraceDiff.{
  TraceEntry, DiffEntry, get_diff_fields, compare_entries, diff_loop, compare_len, pos, diffs,
  collect_diffs,
}

-- What two entries are compared on.
abbrev pub key : TraceEntry → Text × Text × Text × Text
key e = (e.pc, e.insn, e.decoded, e.regmem)

-- The differences of two lists of entries that are walked in step from index `i`.
pub walk : ℕ → List TraceEntry → List TraceEntry → List DiffEntry
walk i [] [] = []
walk i (a ∷ as') [] = compare_entries i (some a) none ++ walk (suc i) as' []
walk i [] (b ∷ bs) = compare_entries i none (some b) ++ walk (suc i) [] bs
walk i (a ∷ as') (b ∷ bs) = compare_entries i (some a) (some b) ++ walk (suc i) as' bs

-- What stands at an index, and what is dropped before it.
drop_uncons :
    (xs : List TraceEntry) (n : ℕ)
    → (get_elem? xs n ≡ none) × (drop n xs ≡ []) × (drop (suc n) xs ≡ [])
      ⊎ ((x : TraceEntry) × (get_elem? xs n ≡ some x) × (drop n xs ≡ x ∷ drop (suc n) xs))
drop_uncons [] zero = inl (refl, refl, refl)
drop_uncons [] (suc n) = inl (refl, refl, refl)
drop_uncons (x ∷ xs) zero = inr (x, refl, refl)
drop_uncons (x ∷ xs) (suc n) = elim (drop_uncons xs n) [ inl r ↦ inl r | inr r ↦ inr r ]

walk_short :
    (as' bs : List TraceEntry) (i : ℕ) → length as' ≡ 0 → length bs ≡ 0 → walk i as' bs ≡ []
unfolding walk
walk_short [] [] i _ _ = refl
walk_short (a ∷ as') bs i h _ = absurd (omega arith)
walk_short [] (b ∷ bs) i _ h = absurd (omega arith)

module _ (as' bs : List TraceEntry) (sa sb : ℕ) where
  -- One round of the loop is one step of the walk.
  walk_step :
      (i : ℕ)
      → walk i (drop (sa + i) as') (drop (sb + i) bs)
        ≡ compare_entries i (get_elem? as' (sa + i)) (get_elem? bs (sb + i))
          ++ walk (suc i) (drop (suc (sa + i)) as') (drop (suc (sb + i)) bs)
  unfolding walk compare_entries
  walk_step i = elim (drop_uncons as' (sa + i)) [
    | inl (e, d, l) ↦ elim (drop_uncons bs (sb + i)) [
      | inl (e', d', l') ↦ rw (e, e', d, d', l, l') refl
      | inr (y, e', d') ↦ rw (e, e', d, d', l) refl
    ]
    | inr (x, e, d) ↦ elim (drop_uncons bs (sb + i)) [
      | inl (e', d', l') ↦ rw (e, e', d, d', l') refl
      | inr (y, e', d') ↦ rw (e, e', d, d') refl
    ]
  ]

  diff_loop-walk :
      (rounds i : ℕ) (ds : List DiffEntry)
      → rounds ≡ max (length as' - (sa + i)) (length bs - (sb + i))
      → diff_loop as' bs sa sb none rounds i ds
        ≡ ds ++ walk i (drop (sa + i) as') (drop (sb + i) bs)
  unfolding diff_loop
  diff_loop-walk zero i ds h =
      rw
        (walk_short (drop (sa + i) as') (drop (sb + i) bs) i
          (omega (arith, length-drop (sa + i) as')) (omega (arith, length-drop (sb + i) bs)))
        (sym (append-nil ds))
  diff_loop-walk (suc rounds) i ds h =
      diff_loop-walk rounds (suc i) _ (omega arith)
      ∙ rw (add-suc sa i, add-suc sb i, append_assoc) (ap (◌++◌ ds) (sym (walk_step i)))

compare_entries-nil :
    (i : ℕ) (a b : TraceEntry) → (compare_entries i (some a) (some b) ≡ []) ↔ (key a ≡ key b)
unfolding compare_entries get_diff_fields
compare_entries-nil i a b = ground arith

walk-nil : (i : ℕ) (as' bs : List TraceEntry) → (walk i as' bs ≡ []) ↔ (map key as' ≡ map key bs)
unfolding walk compare_entries
walk-nil i [] [] = (λ _. refl, λ _. refl)
walk-nil i (a ∷ as') [] = (λ h. cc, λ h. cc)
walk-nil i [] (b ∷ bs) = (λ h. cc, λ h. cc)
walk-nil i (a ∷ as') (b ∷ bs) = ground (arith, compare_entries-nil i a b, walk-nil (suc i) as' bs)

module _ (as' bs : List TraceEntry) (sa sb : ℕ) (ha : sa ≤ length as') (hb : sb ≤ length bs) where
  -- With skips in range and no limit, the reported differences are those of the walk over the
  -- two logs behind their skips, in its order.
  pub collect_diffs-walk :
      collect_diffs as' (pos sa) bs (pos sb) none ≡ diffs (walk 0 (drop sa as') (drop sb bs))
  unfolding collect_diffs compare_len
  collect_diffs-walk =
      rw (le→ltb_false _ _ ha, le→ltb_false _ _ hb)
        (ap diffs (
          diff_loop-walk as' bs sa sb (compare_len as' bs sa sb) 0 []
            (rw (add-zero sa, add-zero sb))
          ∙ rw (add-zero sa, add-zero sb)))

  -- With skips in range and no limit, no difference is reported exactly if the logs behind their
  -- skips agree entry by entry on PC, instruction, decoded text and contents, and end together.
  pub collect_diffs-nil_iff :
      (collect_diffs as' (pos sa) bs (pos sb) none ≡ diffs [])
      ↔ (map key (drop sa as') ≡ map key (drop sb bs))
  collect_diffs-nil_iff =
      rw collect_diffs-walk (λ h. (walk-nil 0 _ _).0 (cc), λ h. ap diffs ((walk-nil 0 _ _).1 h))
