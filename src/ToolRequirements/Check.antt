-- ===== src/ToolRequirements/Check.antt =====
-- `get_version` and `check` of check_tool_requirements.py.
pub mod Good
use ibex.Base.{
  ℕ, Bool, true, false, ◌&&◌, Option, none, some, List, [], ◌∷◌, ◌++◌, length, drop, leb, nat_eqb,
  if◌then◌else◌,
}
use ibex.Base.Results.{Result, err, ok, ◌>>=◌}
use ibex.Base.Text.{Text, codes, is_space, rstrip, strip, split_words, split_on, starts_with}
use ibex.ToolRequirements.{
  Kind, plain, edalize, vcs, verible, verilator, vivado, ninja, ToolReq, Machine, Versions,
}
use ibex.ToolRequirements.Semver.{to_semver}

-- An exception that nothing catches.
pub data Crash : Type 0 where
  index_error : Crash

-- The messages of `check`, without their texts.
pub data Message : Type 0 where
  bad_requirement bad_required_semver bad_installed bad_installed_semver too_old : Message
  run_failed no_output bad_output not_imported recent : Message

-- `words[-1]`
unfoldable pub last_word : List Text → Option Text
last_word [] = none
last_word (word ∷ []) = some word
last_word (word ∷ next ∷ words) = last_word (next ∷ words)

-- `stdout.split('\n', 1)[0]`
abbrev first_line : List Text → Text
first_line [] = []
first_line (line ∷ lines) = line

-- `(.*)\s`: the text in front of the last white space.
unfoldable pub before_space : Text → Option Text
unfolding is_space
before_space [] = none
before_space (c ∷ s) = elim (before_space s) [
  | none ↦ if is_space c then some [] else none
  | some part ↦ some (c ∷ part)
]

-- `Vivado v(.*)\s`
unfoldable pub vivado_line : Text → Option Text
unfolding starts_with before_space
vivado_line line =
    if starts_with line (codes "Vivado v")
    then before_space (drop (length (codes "Vivado v")) line)
    else none

-- `[A-Z]-(.*)`
abbrev behind_platform : Text → Option Text
behind_platform (c ∷ d ∷ version) =
    if leb b'A' c && leb c b'Z' && nat_eqb d b'-' then some version else none
behind_platform _ = none

-- `Compiler version = VCS [A-Z]-(.*)`
unfoldable pub vcs_line : Text → Option Text
unfolding starts_with
vcs_line line =
    if starts_with line (codes "Compiler version = VCS ")
    then behind_platform (drop (length (codes "Compiler version = VCS ")) line)
    else none

-- The first line that matches.
unfoldable pub first_match : (Text → Option Text) → List Text → Option Text
unfolding rstrip
first_match regex [] = none
first_match regex (line ∷ lines) = elim (regex (rstrip line)) [
  | none ↦ first_match regex lines
  | some version ↦ some version
]

-- `_parse_version_output`, None where it raises ValueError.
unfoldable pub parse_version_output : Kind → Text → Option Text
unfolding last_word split_words split_on first_match vivado_line vcs_line
parse_version_output vivado stdout = first_match vivado_line (split_on 10 [] stdout)
parse_version_output vcs stdout = first_match vcs_line (split_on 10 [] stdout)
parse_version_output _ stdout = last_word (split_words [] (first_line (split_on 10 [] stdout)))

-- A version, or the message of a RuntimeError.
abbrev pub Outcome : Type 0
Outcome = Result Message Text

abbrev or_fail : Message → Option Text → Outcome
or_fail message none = err message
or_fail message (some version) = ok version

unfoldable pub parse_nonempty : Kind → Text → Outcome
unfolding parse_version_output
parse_nonempty kind [] = err no_output
parse_nonempty kind (c ∷ stdout) = or_fail bad_output (parse_version_output kind (c ∷ stdout))

abbrev run_tool : Machine → ToolReq → Outcome
run_tool machine req = elim (machine.run req) [ err e ↦ err run_failed | ok stdout ↦ ok stdout ]

-- `version_str.stdout.split(' ')[1].strip()`
abbrev second_word : List Text → Result Crash Outcome
second_word (_ ∷ word ∷ words) = ok (ok (strip word))
second_word _ = err index_error

unfoldable pub verilator_version : Outcome → Result Crash Outcome
unfolding split_on strip
verilator_version (err message) = ok (err message)
verilator_version (ok stdout) = second_word (split_on 32 [] stdout)

unfoldable pub get_version : Machine → ToolReq → Result Crash Outcome
unfolding parse_nonempty verilator_version
get_version machine req = elim req.kind [
  | verilator ↦ verilator_version (run_tool machine req)
  | edalize ↦ ok (or_fail not_imported (machine.import_version req.tool))
  | kind ↦ ok (run_tool machine req >>= parse_nonempty kind)
]

module _ (versions : Versions) where
  -- A version in the semantic format, or why there is none.
  unfoldable pub semver : Kind → Bool → Message → Message → Text → Result Message versions.Version
  unfolding to_semver
  semver kind from_req no_format no_version version = elim (to_semver kind from_req version) [
    | none ↦ err no_format
    | some text ↦ elim (versions.parse text) [ none ↦ err no_version | some sv ↦ ok sv ]
  ]

  -- What is behind `get_version` in `check`.
  unfoldable pub compare_versions : ToolReq → versions.Version → Outcome → Result Message (Unit {0})
  unfolding semver
  compare_versions req min_sv outcome = outcome >>= λ actual.
      semver req.kind false bad_installed bad_installed_semver actual >>= λ actual_sv.
      if versions.less actual_sv min_sv then err too_old else ok tt

  abbrev verdict : Result Message (Unit {0}) → Bool × Message
  verdict (err message) = (false, message)
  verdict (ok tt) = (true, recent)

  unfoldable pub check : Machine → ToolReq → Result Crash (Bool × Message)
  unfolding semver get_version compare_versions
  check machine req =
      elim (semver req.kind true bad_requirement bad_required_semver req.min_version) [
        | err message ↦ ok (false, message)
        | ok min_sv ↦ get_version machine req >>= λ outcome.
            ok (verdict (compare_versions req min_sv outcome))
      ]
