-- ===== src/DuplicateBugs.antt =====
-- scripts/find_duplicate_bug.py, which groups the cases of a bug set by their bug_info.json and
-- their diffs.
pub mod Signature
pub mod Groups
pub mod Rows
use ibex.Base.{ℕ, Bool, Option, List}
use ibex.Base.Dict.{Dict}
use ibex.Base.Results.{Result}
use ibex.Base.Text.{Text}

pub record DiffSignature : Type 0 where
  pub digest : Text
  pub valid : Bool
  pub note : Text

-- A path is its text.
pub record BugInfoCase : Type 0 where
  pub case_dir : Text
  pub bug_info_path : Text
  pub rel_case : Text
  pub rel_bug_info : Text
  pub diff_paths : List Text
  pub diff_names : List Text
  pub module_name : Text
  pub scope_name : Text
  pub modify_line : Text
  pub canonical_bug_info : Text
  pub bug_info_digest : Text
  pub diff_sig : DiffSignature

-- A diff file: its path, its name in UTF-8, and its bytes or why they cannot be read.
pub record DiffFile : Type 0 where
  pub path : Text
  pub name : Text
  pub name_bytes : List ℕ
  pub read : Result Text (List ℕ)

-- What hashlib, json and UTF-8 give: `hexdigest`, the parser of bytes, what a value is, and the
-- prints of a value.
pub record Library : Type 1 where
  pub Value : Type 0
  pub sha256 : List ℕ → Text
  pub encode : Text → List ℕ
  pub decode : List ℕ → Option Text
  pub decode_replace : List ℕ → Text
  pub loads : Text → Option Value
  pub as_dict : Value → Option (Dict Text Value)
  pub as_str : Value → Option Text
  pub dumps : Value → Text
  pub dumps_canonical : Value → Text
  pub dumps_list : List Text → Text
