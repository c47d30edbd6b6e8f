-- ===== src/RerankJobs/Arguments.antt =====
-- The command line of rerank_sbfl_with_llm.py, around the parser of argparse.
pub mod Split
pub mod Model
use ibex.Base.{
  ℕ, Bool, true, false, ◌||◌, not, Option, none, some, List, [], ◌∷◌, ◌++◌, nat_eqb, contains,
  if◌then◌else◌, ◌==◌, nat_eq,
}
use ibex.Base.Results.{Result, ok, err, ◌>>=◌}
use ibex.Base.Text.{Text, codes, text_eq, starts_with, lower, split_on}

-- What ends the program: argparse with an exit code, the others with 2.
pub data ArgError : Type 0 where
  expected_argument : Text → ArgError
  rejected : ℕ → ArgError
  no_target two_targets : ArgError

pub record Args : Type 0 where
  pub target : Option Text
  pub results_root : Option Text
  pub summary : Option Text
  pub rtl_path : Text
  pub patchs_path : Option Text
  pub jobs : ℕ
  pub skip_existing : Bool
  pub stop_on_error : Bool
  pub list_only : Bool

abbrev pub wrapper_value_options : List Text
wrapper_value_options =
    codes "--results-root"
    ∷ codes "--summary"
    ∷ codes "--rtl-path"
    ∷ codes "--rtl_path"
    ∷ codes "--patchs-path"
    ∷ codes "--patchs_path"
    ∷ codes "-j"
    ∷ codes "--jobs"
    ∷ []

abbrev pub wrapper_flags : List Text
wrapper_flags =
    codes "-h"
    ∷ codes "--help"
    ∷ codes "--skip-existing"
    ∷ codes "--stop-on-error"
    ∷ codes "--list-only"
    ∷ []

-- `argument.split("=", 1)[0]`
unfoldable pub before_eq : Text → Text
before_eq [] = []
before_eq (c ∷ s) = if nat_eqb c b'=' then [] else c ∷ before_eq s

-- `argument.split("=", 1)[1]`, where there is one.
unfoldable pub after_eq : Text → Text
after_eq [] = []
after_eq (c ∷ s) = if nat_eqb c b'=' then s else after_eq s

pub data Kind : Type 0 where
  own takes_next forward : Kind

-- The tests of the loop, in their order.
unfoldable pub kind_of : Text → Kind
unfolding before_eq text_eq nat_eq
kind_of argument =
    if contains wrapper_flags (before_eq argument)
    then own
    else if not (contains wrapper_value_options (before_eq argument))
    then forward
    else if contains argument b'='
    then own
    else takes_next

abbrev pub Split : Type 0
Split = List Text × List Text

abbrev pub to_wrapper : Text → Split → Result ArgError Split
to_wrapper argument (wrapper, forwarded) = ok (argument ∷ wrapper, forwarded)

abbrev pub to_forwarded : Text → Split → Result ArgError Split
to_forwarded argument (wrapper, forwarded) = ok (wrapper, argument ∷ forwarded)

-- The loop. The first argument is an option that waits for its value.
unfoldable pub split_loop : Option Text → List Text → Result ArgError Split
unfolding kind_of
split_loop none [] = ok ([], [])
split_loop (some option) [] = err (expected_argument option)
split_loop (some option) (value ∷ values) = split_loop none values >>= to_wrapper value
split_loop none (argument ∷ values) = elim (kind_of argument) [
  | own ↦ split_loop none values >>= to_wrapper argument
  | takes_next ↦ split_loop (some argument) values >>= to_wrapper argument
  | forward ↦ split_loop none values >>= to_forwarded argument
]

-- The values in front of the first `--`, and those behind it.
unfoldable pub at_separator : List Text → Split
unfolding text_eq
at_separator [] = ([], [])
at_separator (argument ∷ argv) =
    let (values, passthrough) = at_separator argv in
    if argument == codes "--" then ([], argv) else (argument ∷ values, passthrough)

-- A first value that is no option is the target.
unfoldable pub split_front : List Text → Result ArgError Split
unfolding split_loop starts_with
split_front [] = split_loop none []
split_front (first ∷ values) =
    if starts_with first (codes "-")
    then split_loop none (first ∷ values)
    else split_loop none values >>= to_wrapper first

-- What argparse is given, and what is forwarded.
unfoldable pub split_args : List Text → Result ArgError Split
unfolding at_separator split_front
split_args argv =
    let (values, passthrough) = at_separator argv in
    split_front values >>= (λ (wrapper, forwarded). ok (wrapper, forwarded ++ passthrough))

-- The tests behind the parser.
unfoldable pub check_args : List Text → Args → Result ArgError (Args × List Text)
check_args forwarded args = elim args.target [
  | none ↦ elim args.results_root [ none ↦ err no_target | some _ ↦ ok (args, forwarded) ]
  | some _ ↦ elim args.results_root [ none ↦ ok (args, forwarded) | some _ ↦ err two_targets ]
]

-- `parse_args`, over `parser.parse_args` of argparse.
unfoldable pub parse_args :
    (List Text → Result ArgError Args) → List Text → Result ArgError (Args × List Text)
unfolding split_args check_args
parse_args parser argv =
    split_args argv >>= (λ (wrapper, forwarded). parser wrapper >>= check_args forwarded)

unfoldable pub has_option : List Text → Text → Bool
unfolding text_eq starts_with
has_option [] name = false
has_option (argument ∷ arguments) name =
    argument == name || starts_with argument (name ++ codes "=") || has_option arguments name

unfoldable pub option_value : List Text → Text → Option Text
unfolding text_eq starts_with after_eq
option_value [] name = none
option_value (argument ∷ []) name =
    if starts_with argument (name ++ codes "=") then some (after_eq argument) else none
option_value (argument ∷ next ∷ arguments) name =
    let rest = option_value (next ∷ arguments) name in
    if starts_with argument (name ++ codes "=")
    then some (after_eq argument)
    else if argument == name
    then some next
    else rest

unfoldable pub with_default_model : List Text → List Text
unfolding has_option
with_default_model arguments =
    if has_option arguments (codes "--model")
    then arguments
    else arguments ++ (codes "--model" ∷ codes "gpt-5.5" ∷ [])

-- `parts[-1]` of parts that are not empty.
abbrev last_part : Text → List Text → Text
last_part part [] = part
last_part part (next ∷ parts) = last_part next parts

-- The protocol of a model's name.
unfoldable pub protocol_of : Text → Option Text
unfolding lower split_on starts_with
protocol_of model =
    let model_name = last_part [] (split_on b'/' [] (lower model)) in
    if starts_with model_name (codes "claude-")
    then some (codes "anthropic")
    else if starts_with model_name (codes "glm-")
    then some (codes "zai")
    else if starts_with model_name (codes "gpt-")
    then some (codes "openai-responses")
    else none

abbrev add_protocol : List Text → Option Text → List Text
add_protocol arguments none = arguments
add_protocol arguments (some protocol) = arguments ++ (codes "--api-protocol" ∷ protocol ∷ [])

unfoldable pub with_model_api_compatibility : List Text → List Text
unfolding option_value has_option protocol_of
with_model_api_compatibility arguments = elim (option_value arguments (codes "--model")) [
  | none ↦ arguments
  | some model ↦
      if has_option arguments (codes "--api-protocol")
      then arguments
      else add_protocol arguments (protocol_of model)
]
