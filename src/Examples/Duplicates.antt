-- ===== src/Examples/Duplicates.antt =====
-- Three cases for scripts/find_duplicate_bug.py, two with the same bug.
use mathlib.Core.List.{Perm}
use ibex.Base.{ℕ, ◌<◌, ◌≡◌, ◌↔◌, refl, inl, Bool, true, List, [], ◌∷◌, length, Among, arith}
use ibex.Base.Results.{ok}
use ibex.Base.Text.{Text, codes, text_eq}
use ibex.DuplicateBugs.{BugInfoCase, DiffFile}
use ibex.DuplicateBugs.Signature.{hashed}
use ibex.DuplicateBugs.Signature.Framing.{contents, hashed_injective}
use ibex.DuplicateBugs.Groups.{group_by_bug_info}
use ibex.DuplicateBugs.Groups.Sound.{same_info, group_by_bug_info_sound, group_by_bug_info_complete}
use ibex.DuplicateBugs.Rows.{all_valid, same_groups}
use ibex.DuplicateBugs.Rows.Same.{same_diff, same_groups_iff}

abbrev case : Text → Text → BugInfoCase
case name digest = record {
  case_dir = name;
  bug_info_path = name;
  rel_case = name;
  rel_bug_info = name;
  diff_paths = [];
  diff_names = [];
  module_name = codes "ibex_alu";
  scope_name = codes "TOP";
  modify_line = codes "7";
  canonical_bug_info = digest;
  bug_info_digest = digest;
  diff_sig = record { digest = codes "d"; valid = true; note = codes "single diff" };
}

abbrev cases : List BugInfoCase
cases =
    case (codes "b") (codes "x") ∷ case (codes "c") (codes "y") ∷ case (codes "a") (codes "x") ∷ []

abbrev twins : List BugInfoCase
twins = case (codes "a") (codes "x") ∷ case (codes "b") (codes "x") ∷ []

groups_run : group_by_bug_info cases ≡ twins ∷ []
unfolding group_by_bug_info text_eq
groups_run = refl

twins_found : Among twins (group_by_bug_info cases)
twins_found = rw groups_run (inl refl)

group_by_bug_info_sound_example :
    (digest : Text) × Perm twins (same_info digest cases) × (1 < length (same_info digest cases))
group_by_bug_info_sound_example = group_by_bug_info_sound cases twins twins_found

x_twice : 1 < length (same_info (codes "x") cases)
unfolding text_eq ibex.Base.Grouping.matching
x_twice = omega arith

group_by_bug_info_complete_example :
    (g : List BugInfoCase) × Among g (group_by_bug_info cases)
    × Perm g (same_info (codes "x") cases)
group_by_bug_info_complete_example = group_by_bug_info_complete cases (codes "x") x_twice

same_groups_iff_example :
    Among (codes "d", twins) (same_groups twins)
    ↔ ((twins ≡ same_diff (codes "d") twins) × (1 < length twins) × (all_valid twins ≡ true))
same_groups_iff_example = same_groups_iff twins (codes "d") twins

abbrev file : ℕ → ℕ → DiffFile
file name byte = record { path = []; name = []; name_bytes = name ∷ []; read = ok (byte ∷ []) }

abbrev files : List DiffFile
files = file 97 10 ∷ file 98 0 ∷ []

abbrev fed : List ℕ
fed =
    78 ∷ 65 ∷ 77 ∷ 69 ∷ 0 ∷ 49 ∷ 0 ∷ 97 ∷ 0 ∷ 68 ∷ 65 ∷ 84 ∷ 65 ∷ 0 ∷ 49 ∷ 0 ∷ 10 ∷ 0 ∷ 69 ∷ 78 ∷ 68
    ∷ 0 ∷ 78 ∷ 65 ∷ 77 ∷ 69 ∷ 0 ∷ 49 ∷ 0 ∷ 98 ∷ 0 ∷ 68 ∷ 65 ∷ 84 ∷ 65 ∷ 0 ∷ 49 ∷ 0 ∷ 0 ∷ 0 ∷ 69 ∷ 78
    ∷ 68 ∷ 0 ∷ []

hashed_run : hashed files ≡ ok fed
unfolding hashed
hashed_run = refl

hashed_injective_example :
    (both : List (List ℕ × List ℕ)) × (contents files ≡ ok both) × (contents files ≡ ok both)
hashed_injective_example = hashed_injective files files fed hashed_run hashed_run
