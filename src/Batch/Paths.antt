-- ===== src/Batch/Paths.antt =====
-- `safe_name`, `format_elapsed` (behind its rounding) and `_case_paths` of runner.py,
-- `resolve_workdir_path` of workspace.py, and what they use of pathlib.
use ibex.Base.{
  ℕ, zero, suc, ◌-◌, ◌/◌, ◌%◌, Bool, ◌&&◌, ◌||◌, List, [], ◌∷◌, ◌++◌, is_empty, length, take, ltb,
  leb, nat_eqb, if◌then◌else◌, map, contains,
}
use mathlib.Core.List.{reverse}
use ibex.Base.Text.{Text, codes, split_on, join, starts_with, str, text_eq}
use ibex.Batch.{CaseSpec}

-- `char.isascii() and (char.isalnum() or char in "._-")`
unfoldable pub is_kept : ℕ → Bool
is_kept c =
    leb b'a' c && leb c b'z'
    || leb b'A' c && leb c b'Z'
    || leb b'0' c && leb c b'9'
    || nat_eqb c 46
    || nat_eqb c 95
    || nat_eqb c 45

abbrev or_root : Text → Text
or_root [] = codes "root"
or_root (c ∷ s) = c ∷ s

unfoldable pub safe_name : Text → Text
unfolding is_kept
safe_name value = or_root (map (λ char. if is_kept char then char else 95) value)

-- `f"{n:02d}"` and `f"{n:03d}"`
abbrev pub pad_zeros : ℕ → Text → Text
pad_zeros zero s = s
pad_zeros (suc n) s = if ltb (length s) (suc n) then 48 ∷ pad_zeros n s else s

-- From the rounded number of milliseconds; a negative one counts as 0 in ℕ.
unfoldable pub format_elapsed : ℕ → Text
unfolding str
format_elapsed milliseconds =
    let hours = milliseconds / 3600000 in
    let in_hour = milliseconds % 3600000 in
    let minutes = in_hour / 60000 in
    let in_minute = in_hour % 60000 in
    pad_zeros 2 (str hours)
    ++ (codes ":"
        ++ (pad_zeros 2 (str minutes)
            ++ (codes ":"
                ++ (pad_zeros 2 (str (in_minute / 1000))
                    ++ (codes ":" ++ pad_zeros 3 (str (in_minute % 1000)))))))

-- The anchor and the components of a pathlib path.
abbrev anchor : Text → Text
anchor s =
    if starts_with s (codes "///")
    then codes "/"
    else if starts_with s (codes "//")
    then codes "//"
    else if starts_with s (codes "/")
    then codes "/"
    else []

abbrev pub keep_parts : List Text → List Text
keep_parts [] = []
keep_parts (p ∷ ps) =
    let rest = keep_parts ps in if is_empty p || contains (codes "." ∷ []) p then rest else p ∷ rest

abbrev or_dot : Text → Text
or_dot [] = codes "."
or_dot (c ∷ s) = c ∷ s

-- `Path(s).parts` without the anchor.
unfoldable pub path_parts : Text → List Text
unfolding split_on text_eq
path_parts s = keep_parts (split_on b'/' [] s)

abbrev last_or : Text → List Text → Text
last_or last [] = last
last_or last (part ∷ parts) = last_or part parts

-- `Path(s).name`
unfoldable pub name_of : Text → Text
unfolding path_parts
name_of s = last_or [] (path_parts s)

-- `str(Path(s))`
unfoldable pub normal_path : Text → Text
unfolding split_on join starts_with text_eq
normal_path s = or_dot (anchor s ++ join (codes "/") (keep_parts (split_on b'/' [] s)))

unfoldable pub is_absolute : Text → Bool
unfolding starts_with
is_absolute path = starts_with path (codes "/")

-- `str(base / Path(path))`
unfoldable pub joined : Text → Text → Text
unfolding normal_path is_absolute
joined base path =
    if is_absolute path then normal_path path else normal_path (base ++ (codes "/" ++ path))

unfoldable pub resolve_workdir_path : Text → Text → Text
unfolding normal_path is_absolute joined
resolve_workdir_path workdir path =
    if is_absolute path then normal_path path else joined workdir path

-- `s.removesuffix(suffix)`
unfoldable pub remove_suffix : Text → Text → Text
unfolding starts_with
remove_suffix s suffix =
    if starts_with (reverse s) (reverse suffix) then take (length s - length suffix) s else s

-- `_case_paths`: the log directory and the work directory, below the run's roots.
unfoldable pub case_paths : Text → Text → CaseSpec → Text × Text
unfolding safe_name remove_suffix joined
case_paths run_log_root work_root case =
    let stem = remove_suffix case.diff_name (codes ".sv.diff") in
    let name =
      case.index ++ (codes "_" ++ (safe_name case.rel_dir ++ (codes "_" ++ safe_name stem))) in
    (joined run_log_root name, joined work_root name)
