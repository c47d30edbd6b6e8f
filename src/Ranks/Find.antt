-- ===== src/Ranks/Find.antt =====
-- `find_bug_rank`: where the block of an inserted bug stands among the ranked blocks.
pub mod Located
pub mod Reported
use ibex.Base.{
  ℕ, zero, suc, ◌+◌, ◌-◌, Bool, true, false, ◌||◌, ◌&&◌, not, Option, none, some, List, [], ◌∷◌,
  ◌++◌, ltb, nat_eqb, if◌then◌else◌, ◌==◌, contains, string_eq, nat_eq, length, String,
}
use ibex.Base.Dict
use ibex.Base.Dict.{Dict}
use ibex.Base.Sets.{range, update}
use ibex.Base.Text.{Text, codes, text_eq}
use ibex.Sbfl.{RankedBlock, Block, BugInfo}
use ibex.Ranks.Report.{Decimals, SusKey, Report, over, top}
use ibex.Ranks.Ties.{Group, SusKey-discrete, key_of, tie_groups}

-- `line_set_with_window`. A line number below 0, which no block has, is left out.
unfoldable pub line_set_with_window : List ℕ → ℕ → List ℕ
unfolding range update
line_set_with_window [] line_window = []
line_set_with_window (line ∷ lines) line_window =
    update (line_set_with_window lines line_window)
      (range (line - line_window) (line + line_window + 1 - (line - line_window)))

-- `bool(a & b)`
unfoldable pub intersects : List ℕ → List ℕ → Bool
unfolding nat_eq
intersects [] ys = false
intersects (x ∷ xs) ys = contains ys x || intersects xs ys

-- The blocks under their scope and number.
abbrev pub BlockMap : Type 0
BlockMap = Text → ℕ → Option Block

unfoldable pub is_bug_block : RankedBlock → BlockMap → String → Text → List ℕ → Bool
unfolding intersects string_eq text_eq
is_bug_block item block_map module_name scope_name target_lines =
    elim (block_map item.scope item.bid) [
      | none ↦ false
      | some block ↦
          if not (block.scope == scope_name) || not (block.module_name == module_name)
          then false
          else intersects block.lines target_lines
    ]

-- `max(ranked_blocks, key=rank)`: the first block of the greatest rank.
unfoldable pub boundary_of : RankedBlock → List RankedBlock → RankedBlock
boundary_of best [] = best
boundary_of best (item ∷ items) = boundary_of (if ltb best.rank item.rank then item else best) items

-- What is returned for the bug's block in a group.
unfoldable pub report_item : ℕ → Group → Bool → RankedBlock → Report × Text
report_item top_n group reaches_boundary item =
    if reaches_boundary && not (nat_eqb item.rank top_n)
    then (over top_n, [])
    else if reaches_boundary
    then (top top_n 1, item.sus)
    else (top group.total group.count, item.sus)

-- `suspiciousness_key(group[0]["sus"]) == boundary_key`; no group is empty.
unfoldable pub reaches : (D : Decimals) → SusKey D → Group → Bool
unfolding SusKey-discrete
reaches D boundary_key group = elim group.items [
  | [] ↦ false
  | item ∷ _ ↦ elim (SusKey-discrete D (key_of D item) boundary_key) [ yes _ ↦ true | no _ ↦ false ]
]

module _ (D : Decimals) (is_bug : RankedBlock → Bool) (top_n : ℕ) (boundary_key : SusKey D) where
  -- The inner loop; none if it runs to its end.
  unfoldable pub scan_group : Group → Bool → List RankedBlock → Option (Report × Text)
  unfolding report_item
  scan_group group reaches_boundary [] = none
  scan_group group reaches_boundary (item ∷ items) =
      if is_bug item
      then some (report_item top_n group reaches_boundary item)
      else scan_group group reaches_boundary items

  unfoldable pub scan_groups : List Group → Report × Text
  unfolding scan_group reaches
  scan_groups [] = (over top_n, [])
  scan_groups (group ∷ groups) =
      elim (scan_group group (reaches D boundary_key group) group.items) [
        | some found ↦ found
        | none ↦ scan_groups groups
      ]

-- The call of `is_bug_block` in the loop.
unfoldable pub is_bug_of : BugInfo → BlockMap → ℕ → RankedBlock → Bool
unfolding line_set_with_window is_bug_block
is_bug_of bug_info block_map line_window item =
    is_bug_block item block_map bug_info.module_name bug_info.scope_name
      (line_set_with_window bug_info.modify_line line_window)

unfoldable pub find_bug_rank : Decimals → BugInfo → List RankedBlock → BlockMap → ℕ → Report × Text
unfolding tie_groups is_bug_of boundary_of scan_groups
find_bug_rank D bug_info [] block_map line_window = (over 0, [])
find_bug_rank D bug_info (first ∷ rest) block_map line_window =
    let ranked_blocks = first ∷ rest in
    let groups = tie_groups D ranked_blocks in
    let top_n = length ranked_blocks in
    if nat_eqb (length groups) 1
    then (over top_n, [])
    else scan_groups D (is_bug_of bug_info block_map line_window) top_n
        (key_of D (boundary_of first rest)) groups
