-- ===== src/Ranks/Find/Located.antt =====
-- Which block `find_bug_rank` reports on.
use mathlib.Core.List.{flat_map}
use mathlib.Core.Path.{subst}
use mathlib.Core.Option.{some-injective}
use ibex.Base.{
  ℕ, ◌≤◌, Among, All, All-Among, All-implies, nat_eq, ◌≡◌, ◌≢◌, refl, sym, ◌∙◌, ◌⊎◌, inl, inr, Bool,
  Option, none, some, List, [], ◌∷◌, ◌++◌, length, Bool-cases, arith, if◌then◌else◌,
}
use ibex.Base.Sorting.{sort}
use ibex.Sbfl.{RankedBlock, BugInfo}
use ibex.Ranks.Report.{Decimals, SusKey, over}
use ibex.Ranks.Ties.{
  Group, tie_groups-AreGroups, key_of, le_rank, tie_groups, flat, flat-tie_groups,
}
use ibex.Ranks.Find.{
  BlockMap, is_bug_of, boundary_of, report_item, scan_group, reaches, scan_groups, find_bug_rank,
}
use ibex.Ranks.Find.Reported.{
  AreGroups-IsTie, IsReport, boundary_of-IsGreatest, report_item-IsReport,
}

-- The first block that the test accepts.
unfoldable pub first_bug : (RankedBlock → Bool) → List RankedBlock → Option RankedBlock
first_bug is_bug [] = none
first_bug is_bug (item ∷ items) = if is_bug item then some item else first_bug is_bug items

module _ (D : Decimals) (is_bug : RankedBlock → Bool) (top_n : ℕ) (boundary_key : SusKey D) where
  scan_group_lem :
      (g : Group) (r : Bool) (items rest : List RankedBlock)
      → (scan_group D is_bug top_n boundary_key g r items ≡ none)
          × (first_bug is_bug (items ++ rest) ≡ first_bug is_bug rest)
        ⊎ ((item : RankedBlock) × Among item items
            × (scan_group D is_bug top_n boundary_key g r items ≡ some (report_item top_n g r item))
            × (first_bug is_bug (items ++ rest) ≡ some item))
  unfolding scan_group first_bug
  scan_group_lem g r [] rest = inl (refl, refl)
  scan_group_lem g r (x ∷ items) rest = elim (Bool-cases (is_bug x)) [
    | inl e ↦ inr (x, inl refl, rw e refl, rw e refl)
    | inr e ↦ elim (scan_group_lem g r items rest) [
      | inl (a, b) ↦ inl (rw e a, rw e b)
      | inr (item, m, a, b) ↦ inr (item, inr m, rw e a, rw e b)
    ]
  ]

  scan_groups-none :
      (groups : List Group)
      → first_bug is_bug (flat D groups) ≡ none
      → scan_groups D is_bug top_n boundary_key groups ≡ (over top_n, [])
  unfolding scan_groups flat flat_map
  scan_groups-none [] h = refl
  scan_groups-none (g ∷ groups) h =
      elim (scan_group_lem g (reaches D boundary_key g) g.items (flat D groups)) [
        | inl (a, b) ↦ ground (arith, a, scan_groups-none groups (sym b ∙ h))
        | inr (item, _, a, b) ↦ absurd (ground arith)
      ]

  scan_groups-some :
      (groups : List Group) (item : RankedBlock)
      → first_bug is_bug (flat D groups) ≡ some item
      → (g : Group) × Among g groups
        × Among item g.items
        × (scan_groups D is_bug top_n boundary_key groups
            ≡ report_item top_n g (reaches D boundary_key g) item)
  unfolding scan_groups flat flat_map first_bug
  scan_groups-some [] item h = absurd (ground arith)
  scan_groups-some (g ∷ groups) item h =
      elim (scan_group_lem g (reaches D boundary_key g) g.items (flat D groups)) [
        | inl (a, b) ↦
            let (g', mg, mi, e) = scan_groups-some groups item (sym b ∙ h) in
            (g', inr mg, mi, ground (arith, a, e))
        | inr (x, m, a, b) ↦
            let same : x ≡ item = some-injective x item (sym b ∙ h) in
            (g, inl refl, subst (λ y. Among y g.items) same m, ground (arith, a, same))
      ]

-- Without a bug block in the ranking nothing is found, and the report is past its end.
pub find_bug_rank-none :
    (D : Decimals) (bug_info : BugInfo) (ranked_blocks : List RankedBlock) (block_map : BlockMap)
    (line_window : ℕ)
    → first_bug (is_bug_of bug_info block_map line_window) (sort le_rank ranked_blocks) ≡ none
    → find_bug_rank D bug_info ranked_blocks block_map line_window
      ≡ (over (length ranked_blocks), [])
unfolding find_bug_rank
find_bug_rank-none D bug_info [] block_map line_window h = refl
find_bug_rank-none D bug_info (x ∷ xs) block_map line_window h = ground (
  arith,
  scan_groups-none D (is_bug_of bug_info block_map line_window) (length (x ∷ xs))
      (key_of D (boundary_of x xs)) (tie_groups D (x ∷ xs)) (rw (flat-tie_groups D (x ∷ xs)) h),
)

-- Where the ranking has more than one tie, the report is about the first bug block in the order
-- of the ranks, and one block of the greatest rank decides what it says. If the suspiciousness
-- of the bug block is not that block's, the report is the average rank of the blocks of a tie
-- that the bug block belongs to; else it is the end of the ranking where the bug block's rank is
-- the number of blocks, and past the end where it is not.
pub find_bug_rank-some :
    (D : Decimals) (bug_info : BugInfo) (x : RankedBlock) (xs : List RankedBlock)
    (block_map : BlockMap) (line_window : ℕ) (item : RankedBlock)
    → first_bug (is_bug_of bug_info block_map line_window) (sort le_rank (x ∷ xs)) ≡ some item
    → length (tie_groups D (x ∷ xs)) ≢ 1
    → (last : RankedBlock) × Among last (x ∷ xs)
      × All (λ other. other.rank ≤ last.rank) (x ∷ xs)
      × ((g : Group) × Among g (tie_groups D (x ∷ xs))
          × Among item g.items
          × All (λ other. key_of D other ≡ key_of D item) g.items
          × IsReport D
              (length (x ∷ xs))
              (key_of D last)
              g
              item
              (find_bug_rank D bug_info (x ∷ xs) block_map line_window))
unfolding find_bug_rank
find_bug_rank-some D bug_info x xs block_map line_window item h many =
    let last = boundary_of x xs in
    let (g, mg, mi, e) =
      scan_groups-some D (is_bug_of bug_info block_map line_window) (length (x ∷ xs))
        (key_of D last) (tie_groups D (x ∷ xs)) item (rw (flat-tie_groups D (x ∷ xs)) h) in
    let (k, tie) = AreGroups-IsTie D _ g (tie_groups-AreGroups D (x ∷ xs)).0 mg in
    let (among, greatest) = boundary_of-IsGreatest x xs in
    let returned : find_bug_rank D bug_info (x ∷ xs) block_map line_window
        ≡ report_item (length (x ∷ xs)) g (reaches D (key_of D last) g) item =
      ground (arith, e) in
    (
      last,
      among,
      greatest,
      (
        g,
        mg,
        mi,
        All-implies _ _ (λ other same. same ∙ sym (All-Among _ g.items item tie.tied mi)) g.items
            tie.tied,
        rw returned (report_item-IsReport D _ (key_of D last) k g item tie mi),
      ),
    )
