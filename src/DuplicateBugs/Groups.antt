-- ===== src/DuplicateBugs/Groups.antt =====
-- `collect_cases`, `group_by_bug_info` and `group_by_diff` of find_duplicate_bug.py.
pub mod Sound
use ibex.Base.{
  ℕ, Bool, true, false, ◌&&◌, ◌||◌, Option, none, some, List, [], ◌∷◌, length, map, ltb, nat_eqb,
  if◌then◌else◌,
}
use ibex.Base.Dict.{Dict, lookup}
use ibex.Base.Grouping.{group_from}
use ibex.Base.Results.{Result, ok, err, ◌>>=◌}
use ibex.Base.Sorting.{sort}
use ibex.Base.Text.{Text, codes, text_eq, text_leb}
use ibex.DuplicateBugs.{BugInfoCase, DiffFile, Library}
use ibex.DuplicateBugs.Signature.{diff_signature}

-- A bug_info.json that was found, with its bytes or why they cannot be read, and the sorted
-- .sv.diff files beside it. The relative paths are those of `relative_to`.
pub record Found : Type 0 where
  pub bug_info_path : Text
  pub case_dir : Text
  pub rel_case : Text
  pub rel_bug_info : Text
  pub read : Result Text (List ℕ)
  pub diffs : List DiffFile

abbrev bytes_of : Result Text (List ℕ) → Option (List ℕ)
bytes_of (err e) = none
bytes_of (ok bytes) = some bytes

abbrev then_some : {A B : Type 0} → Option A → (A → Option B) → Option B
then_some none f = none
then_some (some a) f = f a

module _ (library : Library) where
  -- None where the file cannot be read or parsed, or is no object; the code prints why.
  unfoldable pub canonicalize_json_file :
      Result Text (List ℕ) → Option (Text × Dict Text library.Value)
  canonicalize_json_file read = then_some (bytes_of read) λ bytes.
      then_some (library.decode bytes) λ text. then_some (library.loads text) λ value.
        then_some (library.as_dict value) λ fields. some (library.dumps_canonical value, fields)

  abbrev or_nothing : Option (Dict Text library.Value) → Dict Text library.Value
  or_nothing none = []
  or_nothing (some fields) = fields

  unfoldable pub canonicalize_text_file : List ℕ → Text × Dict Text library.Value
  canonicalize_text_file raw =
      let text = library.decode_replace raw in
      (text, or_nothing (then_some (library.loads text) library.as_dict))

  -- A text stands for itself, another value for its print.
  abbrev shown : library.Value → Option Text → Text
  shown value none = library.dumps value
  shown value (some text) = text

  unfoldable pub json_field : Dict Text library.Value → Text → Text
  unfolding lookup
  json_field fields key = elim (lookup key fields) [
    | none ↦ []
    | some value ↦ shown value (library.as_str value)
  ]

  unfoldable pub make_case : Found → Text × Dict Text library.Value → BugInfoCase
  unfolding json_field diff_signature
  make_case found (canonical, fields) = record {
    case_dir = found.case_dir;
    bug_info_path = found.bug_info_path;
    rel_case = found.rel_case;
    rel_bug_info = found.rel_bug_info;
    diff_paths = map (λ (f : DiffFile). f.path) found.diffs;
    diff_names = map (λ (f : DiffFile). f.name) found.diffs;
    module_name = json_field fields (codes "module_name");
    scope_name = json_field fields (codes "scope_name");
    modify_line = json_field fields (codes "modify_line");
    canonical_bug_info = canonical;
    bug_info_digest = library.sha256 (library.encode canonical);
    diff_sig = diff_signature library found.diffs;
  }

  -- In the exact mode a file that cannot be read ends the program with its exception.
  unfoldable pub collect_cases : Bool → List Found → Result Text (List BugInfoCase)
  unfolding canonicalize_json_file canonicalize_text_file make_case
  collect_cases exact [] = ok []
  collect_cases true (found ∷ paths) = found.read >>= λ raw. collect_cases true paths >>= λ cases.
      ok (make_case found (canonicalize_text_file raw) ∷ cases)
  collect_cases false (found ∷ paths) =
      let rest = collect_cases false paths in
      elim (canonicalize_json_file found.read) [
        | none ↦ rest
        | some parsed ↦ rest >>= λ cases. ok (make_case found parsed ∷ cases)
      ]

abbrev pub is_before : BugInfoCase → BugInfoCase → Bool
is_before a b = text_leb a.rel_case b.rel_case

-- `group[0].rel_case`; no group is empty.
unfoldable pub first_rel_case : List BugInfoCase → Text
first_rel_case [] = []
first_rel_case (case ∷ group) = case.rel_case

-- The longer group first, then by the first case.
unfoldable pub is_group_before : List BugInfoCase → List BugInfoCase → Bool
unfolding first_rel_case text_leb
is_group_before a b =
    ltb (length b) (length a)
    || nat_eqb (length a) (length b) && text_leb (first_rel_case a) (first_rel_case b)

-- `[sorted(group) for group in groups.values() if len(group) > 1]`
unfoldable pub large_groups : Dict Text (List BugInfoCase) → List (List BugInfoCase)
unfolding sort
large_groups [] = []
large_groups ((_, group) ∷ groups) =
    if ltb 1 (length group) then sort is_before group ∷ large_groups groups else large_groups groups

unfoldable pub group_by_bug_info : List BugInfoCase → List (List BugInfoCase)
unfolding group_from large_groups is_group_before sort
group_by_bug_info cases =
    sort is_group_before (large_groups (group_from (λ case. case.bug_info_digest) [] cases))

unfoldable pub group_by_diff : List BugInfoCase → Dict Text (List BugInfoCase)
unfolding group_from
group_by_diff group = group_from (λ case. case.diff_sig.digest) [] group
