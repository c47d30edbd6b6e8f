-- ===== src/DuplicateBugs/Rows/Same.antt =====
-- Which subgroups of find_duplicate_bug.py become a row of the table of same cases.
use ibex.Base.{
  ◌<◌, ◌≡◌, ◌≢◌, ◌↔◌, ap, inl, inr, true, false, ◌&&◌, List, [], ◌∷◌, length, ltb, Among,
  Bool-cases, arith,
}
use ibex.Base.Grouping.{group_from, matching, group_from_sound, group_from_complete}
use ibex.Base.Sorting.{sort, Among-sort}
use ibex.Base.Text.{Text, text_eq}
use ibex.DuplicateBugs.{BugInfoCase}
use ibex.DuplicateBugs.Groups.{group_by_diff}
use ibex.DuplicateBugs.Rows.{DiffGroup, is_diff_before, all_valid, pass, same_groups}

-- The cases of a group with a digest of their diffs.
abbrev pub same_diff : Text → List BugInfoCase → List BugInfoCase
same_diff digest group = matching (λ case. case.diff_sig.digest) digest group

abbrev IsSame : List BugInfoCase → Type 0
IsSame group = (1 < length group) × (all_valid group ≡ true)

Among-pass :
    (g : DiffGroup) (groups : List DiffGroup)
    → Among g (pass groups) ↔ (Among g groups × IsSame g.1)
unfolding pass
Among-pass g [] = (λ i. absurd i, λ (i, _). absurd i)
Among-pass g ((digest, group) ∷ groups) =
    elim (Bool-cases (ltb 1 (length group) && all_valid group)) [
      | inl e ↦ rw (pass, e) (kept (Among-pass g groups) (both e))
      | inr e ↦ rw (pass, e) (dropped (Among-pass g groups) e)
    ]
  where
    both : (ltb 1 (length group) && all_valid group) ≡ true → IsSame group
    both e = ground arith

    kept :
        Among g (pass groups) ↔ (Among g groups × IsSame g.1)
        → IsSame group
        → Among g ((digest, group) ∷ pass groups)
          ↔ (Among g ((digest, group) ∷ groups) × IsSame g.1)
    kept (to, from) same = (
      λ i. elim i [ inl e ↦ (inl e, rw e same) | inr j ↦ (inr ((to j).0), (to j).1) ],
      λ (i, s). elim i [ inl e ↦ inl e | inr j ↦ inr (from (j, s)) ],
    )

    differs : (ltb 1 (length group) && all_valid group) ≡ false → IsSame group → ⊥
    differs e (many, valid) = ground arith

    dropped :
        Among g (pass groups) ↔ (Among g groups × IsSame g.1)
        → (ltb 1 (length group) && all_valid group) ≡ false
        → Among g (pass groups) ↔ (Among g ((digest, group) ∷ groups) × IsSame g.1)
    dropped (to, from) e = (
      λ i. (inr ((to i).0), (to i).1),
      λ (i, s). elim i [
        | inl p ↦ absurd (differs e (rw (← ap (λ pair. pair.1) p) s))
        | inr j ↦ from (j, s)
      ],
    )

-- A digest of diffs and its cases become a row of same cases exactly if the cases are all those
-- of the group with the digest, at least two, and the diffs of each of them could be read.
pub same_groups_iff :
    (group : List BugInfoCase) (digest : Text) (cases : List BugInfoCase)
    → Among (digest, cases) (same_groups group)
      ↔ ((cases ≡ same_diff digest group) × (1 < length cases) × (all_valid cases ≡ true))
unfolding same_groups group_by_diff
same_groups_iff group digest cases =
    let groups : List DiffGroup = group_from (λ case. case.diff_sig.digest) [] group in
    let (to, from) = Among-pass (digest, cases) (sort is_diff_before groups) in
    let (to_sorted, from_sorted) = Among-sort is_diff_before (digest, cases) groups in
    (
      λ i.
          let (j, (many, valid)) = to i in
          (
            group_from_sound (λ case. case.diff_sig.digest) group digest cases (from_sorted j),
            many,
            valid,
          ),
      λ (e, many, valid). from (
        to_sorted (
            rw e (
              group_from_complete (λ case. case.diff_sig.digest) group digest
                (named (same_diff digest group) (rw e at many)))),
        (many, valid),
      ),
    )
  where
    named : (group : List BugInfoCase) → 1 < length group → group ≢ []
    named group h e = omega (arith, ap length e)
