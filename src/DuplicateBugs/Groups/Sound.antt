-- ===== src/DuplicateBugs/Groups/Sound.antt =====
-- The groups of find_duplicate_bug.py are the cases with the same bug_info.json.
use mathlib.Core.List.{Perm}
use ibex.Base.{
  ◌<◌, ◌≡◌, ◌≢◌, refl, ap, ltb→lt, lt→ltb, inl, inr, List, [], ◌∷◌, length, ltb, Among, Bool-cases,
  arith,
}
use ibex.Base.Dict.{Dict}
use ibex.Base.Grouping.{group_from, matching, group_from_sound, group_from_complete}
use ibex.Base.Sorting.{sort, sort-perm, Among-sort}
use ibex.Base.Text.{Text, text_eq}
use ibex.DuplicateBugs.{BugInfoCase}
use ibex.DuplicateBugs.Groups.{is_before, is_group_before, large_groups, group_by_bug_info}

-- The cases with a digest.
abbrev pub same_info : Text → List BugInfoCase → List BugInfoCase
same_info digest cases = matching (λ case. case.bug_info_digest) digest cases

large_groups_sound :
    (groups : Dict Text (List BugInfoCase)) (g : List BugInfoCase)
    → Among g (large_groups groups)
    → (digest : Text) × (group : List BugInfoCase) × Among (digest, group) groups
      × (g ≡ sort is_before group)
      × (1 < length group)
unfolding large_groups
large_groups_sound [] g i = absurd i
large_groups_sound ((digest, group) ∷ groups) g i = elim (Bool-cases (ltb 1 (length group))) [
  | inl many ↦ elim (rw (large_groups, many) at i) [
    | inl e ↦ (digest, group, inl refl, e, ltb→lt 1 (length group) many)
    | inr j ↦ later (large_groups_sound groups g j)
  ]
  | inr few ↦ later (large_groups_sound groups g (rw (large_groups, few) at i))
]
  where
    later :
        (d : Text) × (group : List BugInfoCase) × Among (d, group) groups
          × (g ≡ sort is_before group)
          × (1 < length group)
        → (d : Text) × (group' : List BugInfoCase) × Among (d, group') ((digest, group) ∷ groups)
          × (g ≡ sort is_before group')
          × (1 < length group')
    later (d, gr, k, e, m) = (d, gr, inr k, e, m)

large_groups_complete :
    (groups : Dict Text (List BugInfoCase)) (digest : Text) (group : List BugInfoCase)
    → Among (digest, group) groups
    → 1 < length group
    → Among (sort is_before group) (large_groups groups)
unfolding large_groups
large_groups_complete [] digest group i many = absurd i
large_groups_complete ((own, other) ∷ groups) digest group (inl e) many =
    let same : group ≡ other = ap (λ pair. pair.1) e in
    rw (← same, large_groups, lt→ltb 1 (length group) many) (inl refl)
large_groups_complete ((own, other) ∷ groups) digest group (inr i) many =
    elim (Bool-cases (ltb 1 (length other))) [
      | inl e ↦ rw (large_groups, e) (inr (large_groups_complete groups digest group i many))
      | inr e ↦ rw (large_groups, e) (large_groups_complete groups digest group i many)
    ]

-- Each group of `group_by_bug_info` is, up to order, all the cases with one digest of their
-- bug_info.json, and there are at least two of them.
pub group_by_bug_info_sound :
    (cases : List BugInfoCase) (g : List BugInfoCase)
    → Among g (group_by_bug_info cases)
    → (digest : Text) × Perm g (same_info digest cases) × (1 < length (same_info digest cases))
unfolding group_by_bug_info
group_by_bug_info_sound cases g i =
    let groups : Dict Text (List BugInfoCase) =
      group_from (λ case. case.bug_info_digest) [] cases in
    let (digest, group, j, e, many) =
      large_groups_sound groups g ((Among-sort is_group_before g (large_groups groups)).1 i) in
    let all : group ≡ same_info digest cases =
      group_from_sound (λ case. case.bug_info_digest) cases digest group j in
    (digest, rw (e, ← all) (sort-perm is_before group), rw (← all) many)

-- Where two cases or more have a digest of their bug_info.json, there is a group that is all of
-- them, up to order.
pub group_by_bug_info_complete :
    (cases : List BugInfoCase) (digest : Text)
    → 1 < length (same_info digest cases)
    → (g : List BugInfoCase) × Among g (group_by_bug_info cases) × Perm g (same_info digest cases)
unfolding group_by_bug_info
group_by_bug_info_complete cases digest many =
    let group : List BugInfoCase = same_info digest cases in
    let groups : Dict Text (List BugInfoCase) =
      group_from (λ case. case.bug_info_digest) [] cases in
    let i : Among (digest, group) groups =
      group_from_complete (λ case. case.bug_info_digest) cases digest (named group many) in
    (
      sort is_before group,
      (Among-sort is_group_before (sort is_before group) (large_groups groups)).0
          (large_groups_complete groups digest group i many),
      sort-perm is_before group,
    )
  where
    named : (group : List BugInfoCase) → 1 < length group → group ≢ []
    named group h e = omega (arith, ap length e)
