-- ===== src/DuplicateBugs/Rows.antt =====
-- `build_rows` of find_duplicate_bug.py: the rows of its two tables.
pub mod Same
use ibex.Base.{
  ℕ, suc, Bool, true, false, ◌&&◌, ◌||◌, List, [], ◌∷◌, ◌++◌, length, map, ltb, nat_eqb,
  if◌then◌else◌,
}
use ibex.Base.Dict.{Dict}
use ibex.Base.Sorting.{sort}
use ibex.Base.Text.{Text, codes, join, str, text_leb}
use ibex.DuplicateBugs.{BugInfoCase, Library}
use ibex.DuplicateBugs.Groups.{is_before, group_by_diff}

-- A row as a dict from the names of its columns.
abbrev pub Row : Type 0
Row = Dict Text Text

abbrev pub DiffGroup : Type 0
DiffGroup = Text × List BugInfoCase

-- The longer group first, then by its digest.
unfoldable pub is_diff_before : DiffGroup → DiffGroup → Bool
unfolding text_leb
is_diff_before (d, a) (e, b) =
    ltb (length b) (length a) || nat_eqb (length a) (length b) && text_leb d e

unfoldable pub all_valid : List BugInfoCase → Bool
all_valid [] = true
all_valid (case ∷ cases) = case.diff_sig.valid && all_valid cases

-- The groups that the two `continue` let through.
unfoldable pub pass : List DiffGroup → List DiffGroup
unfolding all_valid
pass [] = []
pass ((digest, group) ∷ groups) =
    if ltb 1 (length group) && all_valid group then (digest, group) ∷ pass groups else pass groups

unfoldable pub same_groups : List BugInfoCase → List DiffGroup
unfolding pass is_diff_before group_by_diff sort
same_groups group = pass (sort is_diff_before (group_by_diff group))

-- `first = group[0]`; no group is empty, and the texts are for one that is.
unfoldable pub first_text : (BugInfoCase → Text) → List BugInfoCase → Text
first_text field [] = []
first_text field (case ∷ group) = field case

module _ (library : Library) where
  abbrev listed : (BugInfoCase → Text) → List BugInfoCase → Text
  listed field group = library.dumps_list (map field group)

  abbrev joined_names : BugInfoCase → Text
  joined_names case = join (codes ",") case.diff_names

  unfoldable pub same_row : ℕ → List BugInfoCase → DiffGroup → Row
  unfolding sort str first_text join text_leb
  same_row id group (diff_digest, unsorted) =
      let diff_group = sort is_before unsorted in
      (codes "bug_info_group_id", str id)
      ∷ (codes "bug_info_group_count", str (length group))
      ∷ (codes "same_count", str (length diff_group))
      ∷ (codes "bug_info_digest", first_text (λ case. case.bug_info_digest) group)
      ∷ (codes "diff_digest", diff_digest)
      ∷ (codes "diff_note", first_text (λ case. case.diff_sig.note) diff_group)
      ∷ (codes "cases", listed (λ case. case.rel_case) diff_group)
      ∷ (codes "bug_infos", listed (λ case. case.rel_bug_info) diff_group)
      ∷ (codes "diffs", listed joined_names diff_group)
      ∷ (codes "module_name", first_text (λ case. case.module_name) group)
      ∷ (codes "scope_name", first_text (λ case. case.scope_name) group)
      ∷ (codes "modify_line", first_text (λ case. case.modify_line) group)
      ∷ []

  unfoldable pub same_position_row : ℕ → List BugInfoCase → Row
  unfolding sort str first_text join group_by_diff text_leb
  same_position_row id unsorted =
      let group = sort is_before unsorted in
      (codes "bug_info_group_id", str id)
      ∷ (codes "bug_info_group_count", str (length unsorted))
      ∷ (codes "bug_info_digest", first_text (λ case. case.bug_info_digest) unsorted)
      ∷ (codes "diff_group_count", str (length (group_by_diff unsorted)))
      ∷ (codes "cases", listed (λ case. case.rel_case) group)
      ∷ (codes "bug_infos", listed (λ case. case.rel_bug_info) group)
      ∷ (codes "diffs", listed joined_names group)
      ∷ (codes "diff_digests", listed (λ case. case.diff_sig.digest) group)
      ∷ (codes "diff_notes", listed (λ case. case.diff_sig.note) group)
      ∷ (codes "module_name", first_text (λ case. case.module_name) unsorted)
      ∷ (codes "scope_name", first_text (λ case. case.scope_name) unsorted)
      ∷ (codes "modify_line", first_text (λ case. case.modify_line) unsorted)
      ∷ []

  -- The loop over the groups, which are numbered from `id` on.
  unfoldable pub rows_from : ℕ → List (List BugInfoCase) → List Row × List Row
  unfolding same_row same_position_row same_groups
  rows_from id [] = ([], [])
  rows_from id (group ∷ groups) =
      let (same_rows, same_position_rows) = rows_from (suc id) groups in
      (
        map (same_row id group) (same_groups group) ++ same_rows,
        same_position_row id group ∷ same_position_rows,
      )

  unfoldable pub build_rows : List (List BugInfoCase) → List Row × List Row
  unfolding rows_from
  build_rows duplicate_groups = rows_from 1 duplicate_groups
