-- ===== src/Conductor/Prove.antt =====
-- `run_strategy` and `prove_mode` of conductor.py, with the exit code of the program.
pub mod Loaded
pub mod Complete
use ibex.Base.{
  ℕ, zero, suc, ◌*◌, ◌/◌, ◌<>◌, Bool, true, false, ◌&&◌, not, Option, none, some, List, [], ◌∷◌,
  ◌++◌, length, contains, drop, ltb, leb, nat_eqb, is_empty, if◌then◌else◌,
}
use ibex.Base.Int.{ℤ, pos, negsuc, show_int}
use ibex.Base.Results.{Result, err, ok, ◌>>=◌, ◌>>◌}
use ibex.Base.Sorting.{sort}
use ibex.Base.Text.{Text, codes, text_eq, starts_with, has_substring, strip}
use ibex.Conductor.{ProcessResult}
use ibex.Conductor.Strategy.{Strategy, done_props, difference}

-- The exceptions: of `int(text)`, and of a proof process that could not be prepared.
pub data ProveError : Type 0 where
  value_error assertion_error : ProveError

-- The arguments of the command line that `prove_mode` reads.
pub record Args : Type 0 where
  pub start : ℕ
  pub by_step : Bool
  pub check_complete : Bool

-- What it calls: Python's `int` of a text, `load_strategy` on the files, and `prove` with its
-- processes, from a configuration, a step, its properties and the expected memory.
pub record Calls : Type 0 where
  pub int_of : Text → Option ℤ
  pub load_strategy : ℕ → Option (List Strategy)
  pub prove : Text → ℕ → List Text → ℕ → Result ProveError ProcessResult

-- `s.split(sep)` for a separator that is not empty. The number counts the code points of a
-- separator that was found and are still to be passed; the next text is the part being read.
unfoldable pub split_text : Text → ℕ → Text → Text → List Text
unfolding starts_with
split_text sep skip part [] = part ∷ []
split_text sep (suc skip) part (c ∷ s) = split_text sep skip part s
split_text sep zero part (c ∷ s) = elim (starts_with (c ∷ s) sep) [
  | true ↦ part ∷ split_text sep (length (drop 1 sep)) [] s
  | false ↦ split_text sep zero (part ++ (c ∷ [])) s
]

abbrev depth_note : Text
depth_note = codes "[INFO ] k-induction proofed in depth "

abbrev with_start : Text → Option ℤ → Result ProveError Text
with_start config none = err value_error
with_start config (some depth) = ok (config ++ (codes " --start " ++ show_int depth))

-- k-induction starts at the depth at which it succeeded before.
abbrev conf_for : Calls → Text → List Text → Result ProveError Text
conf_for calls config (_ ∷ depth ∷ []) = with_start config (calls.int_of (strip depth))
conf_for calls config _ = ok config

unfoldable pub conf_of : Calls → Strategy → Result ProveError Text
unfolding split_text has_substring show_int strip
conf_of calls step = elim step.procres.stderr [
  | none ↦ ok step.config
  | some stderr ↦ elim (has_substring (codes " -e kind ") step.config) [
    | true ↦ conf_for calls step.config (split_text depth_note 0 [] stderr)
    | false ↦ ok step.config
  ]
]

-- The longest first: `strategy.sort(key=..., reverse=True)` is stable.
abbrev pub is_longer : Strategy → Strategy → Bool
is_longer a b = leb b.procres.dt a.procres.dt

-- The loop of `run_strategy`: the configuration of each step.
unfoldable pub conf_all : Calls → List Strategy → Result ProveError (List (Text × Strategy))
unfolding conf_of
conf_all calls [] = ok []
conf_all calls (step ∷ steps) =
    conf_of calls step >>= λ conf. conf_all calls steps >>= λ confs. ok ((conf, step) ∷ confs)

-- `asyncio.gather(*proofs)`, zipped with the steps; the expected memory has a tenth added.
unfoldable pub gather :
    Calls → List (Text × Strategy) → Result ProveError (List (ProcessResult × Strategy))
gather calls [] = ok []
gather calls ((conf, step) ∷ confs) =
    calls.prove conf step.step step.props (step.procres.max_mem * 11 / 10) >>= λ result.
    gather calls confs >>= λ results. ok ((result, step) ∷ results)

unfoldable pub run_strategy :
    Calls → List Strategy → Result ProveError (List (ProcessResult × Strategy))
unfolding sort conf_all gather
run_strategy calls strategy = conf_all calls (sort is_longer strategy) >>= gather calls

-- The loop over the steps. With --by-step each strategy runs at once, and stays sorted.
unfoldable pub all_strategies :
    Args → Calls → ℕ → List (List Text) → Result ProveError (List Strategy)
unfolding run_strategy sort
all_strategies args calls step [] = ok []
all_strategies args calls step (props ∷ by_step) =
    let rest = all_strategies args calls (suc step) by_step in
    if ltb step args.start then rest else elim (calls.load_strategy step) [
      | none ↦ rest
      | some strategy ↦
          if is_empty strategy
          then rest
          else if args.by_step
          then run_strategy calls strategy
            >>= (λ _. rest >>= λ more. ok (sort is_longer strategy ++ more))
          else rest >>= (λ more. ok (strategy ++ more))
    ]

unfoldable pub names_of : List (ℕ × Text) → List Text
names_of [] = []
names_of ((_, name) ∷ props) = name ∷ names_of props

unfoldable pub uncovered : List (ℕ × Text) → List Strategy → List Text
unfolding names_of done_props difference
uncovered all_props strategies = difference (names_of all_props) (done_props strategies)

-- `res.code == 20`
abbrev pub is_unsat : Option ℤ → Bool
is_unsat (some (pos code)) = nat_eqb code 20
is_unsat _ = false

unfoldable pub has_errors : List (ProcessResult × Strategy) → Bool
has_errors [] = false
has_errors ((result, step) ∷ results) = if is_unsat result.code then has_errors results else true

-- `prove_mode` behind its loop: the exit code of the program.
unfoldable pub conclude : Args → Calls → List (ℕ × Text) → List Strategy → Result ProveError ℕ
unfolding uncovered run_strategy has_errors
conclude args calls all_props strategies =
    if args.check_complete && not (is_empty (uncovered all_props strategies))
    then ok 1
    else if args.by_step
    then ok 0
    else run_strategy calls strategies >>= λ results. ok (if has_errors results then 1 else 0)

unfoldable pub prove_mode : Args → Calls → List (ℕ × Text) → List (List Text) → Result ProveError ℕ
unfolding all_strategies conclude
prove_mode args calls all_props by_step =
    all_strategies args calls 0 by_step >>= conclude args calls all_props
