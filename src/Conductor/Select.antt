-- ===== src/Conductor/Select.antt =====
-- What `main` of conductor.py selects: the properties of build/all.ywmap, by step.
pub mod Steps
use Prim.Native.Nat.{max}
use ibex.Base.{
  ℕ, zero, suc, ◌+◌, ◌-◌, Bool, true, false, not, Option, none, some, List, [], ◌∷◌, ◌++◌, length,
  drop, contains, is_empty, ltb, nat_eqb, ◌==◌, if◌then◌else◌,
}
use ibex.Base.Results.{Result, err, ok, ◌>>=◌, ◌>>◌, raise_if}
use ibex.Base.Text.{Text, codes, text_eq, split_on, starts_with}
use mathlib.Core.List.{reverse}
use ibex.Conductor.Strategy.{Strategy, missing_from}

-- The exceptions, and `exit(1)`.
pub data SelectError : Type 0 where
  index_error assertion_error value_error exit_one : SelectError

pub record Args : Type 0 where
  pub properties : List Text
  pub missing : Bool

-- `int` of a text, None where it raises, and `load_strategy`. Steps have no sign.
pub record Calls : Type 0 where
  pub int_of : Text → Option ℕ
  pub load_strategy : ℕ → Option (List Strategy)

abbrev pub skipped_props : List Text
skipped_props =
    codes "MType_Div_Data"
    ∷ codes "MType_Rem_Data"
    ∷ codes "MType_Mul_Data"
    ∷ codes "MType_RemU_Data"
    ∷ codes "MType_MulH_Data"
    ∷ codes "MType_DivU_Data"
    ∷ codes "MType_MulHU_Data"
    ∷ codes "MType_MulHSH_Data"
    ∷ []

-- `s.split("_", maxsplit=1)` where it has two parts.
unfoldable pub split_once : Text → Option (Text × Text)
split_once [] = none
split_once (c ∷ s) = elim (nat_eqb c b'_') [
  | true ↦ some ([], s)
  | false ↦ elim (split_once s) [ none ↦ none | some (front, back) ↦ some (c ∷ front, back) ]
]

abbrev pub or_raise : {A : Type 0} → SelectError → Option A → Result SelectError A
or_raise e none = err e
or_raise e (some a) = ok a

-- `name.split("$")[1]`
abbrev second : List Text → Result SelectError Text
second (_ ∷ part ∷ parts) = ok part
second _ = err index_error

-- `preproc_name` behind its assertion.
unfoldable pub read_step : Calls → Text → Result SelectError (ℕ × Text)
unfolding split_once
read_step calls first = or_raise value_error (split_once first) >>= λ (step, rest).
    or_raise value_error (calls.int_of (drop 4 step)) >>= λ n. ok (n, rest)

unfoldable pub preproc_name : Calls → Text → Result SelectError (ℕ × Text)
unfolding split_on starts_with read_step
preproc_name calls name = second (split_on b'$' [] name) >>= λ part.
    raise_if (not (starts_with (drop 5 part) (codes "Step"))) assertion_error
    >> read_step calls (drop 5 part)

unfoldable pub preproc_all : Calls → List Text → Result SelectError (List (ℕ × Text))
unfolding preproc_name
preproc_all calls [] = ok []
preproc_all calls (name ∷ names) =
    preproc_name calls name >>= λ prop. preproc_all calls names >>= λ props. ok (prop ∷ props)

-- `by_step.append([])` as often as given.
unfoldable pub extend : ℕ → List (List Text) → List (List Text)
extend zero by_step = by_step
extend (suc count) by_step = extend count (by_step ++ ([] ∷ []))

-- `while step >= len(by_step): by_step.append([])`
abbrev pub grow : ℕ → List (List Text) → List (List Text)
grow step by_step = extend (suc step - length by_step) by_step

-- `by_step[step].append(name)`, for a step in range.
unfoldable pub append_at : ℕ → Text → List (List Text) → List (List Text)
append_at step name [] = []
append_at zero name (names ∷ by_step) = (names ++ (name ∷ [])) ∷ by_step
append_at (suc step) name (names ∷ by_step) = names ∷ append_at step name by_step

unfoldable pub group_names : List (ℕ × Text) → List (List Text) → List (List Text)
unfolding extend append_at
group_names [] by_step = by_step
group_names ((step, name) ∷ names) by_step =
    group_names names (append_at step name (grow step by_step))

unfoldable pub group_by_step : List (ℕ × Text) → Option ℕ → List (List Text)
unfolding group_names
group_by_step names none = group_names names []
group_by_step names (some last) = grow last (group_names names [])

-- The first name that is the property, or `exit(1)`.
unfoldable pub find_prop : Text → List (ℕ × Text) → Result SelectError (ℕ × Text)
find_prop prop [] = err exit_one
find_prop prop ((step, name) ∷ names) =
    if prop == name then ok (step, prop) else find_prop prop names

unfoldable pub find_props : List (ℕ × Text) → List Text → Result SelectError (List (ℕ × Text))
unfolding find_prop
find_props names [] = ok []
find_props names (prop ∷ props) =
    find_prop prop names >>= λ found. find_props names props >>= λ rest. ok (found ∷ rest)

unfoldable pub at_step : ℕ → List Text → List (ℕ × Text)
at_step step [] = []
at_step step (p ∷ props) = (step, p) ∷ at_step step props

-- The loop under --missing.
unfoldable pub missing_props : Calls → ℕ → List (List Text) → List (ℕ × Text)
unfolding at_step missing_from
missing_props calls step [] = []
missing_props calls step (sprops ∷ by_step) = elim (calls.load_strategy step) [
  | none ↦ missing_props calls (suc step) by_step
  | some strategy ↦
      at_step step (missing_from strategy sprops) ++ missing_props calls (suc step) by_step
]

unfoldable pub keep_props : (Text → Bool) → List (ℕ × Text) → List (ℕ × Text)
keep_props test [] = []
keep_props test ((step, p) ∷ props) =
    if test p then (step, p) ∷ keep_props test props else keep_props test props

-- `max(step for step, _ in names)`, None of no names.
unfoldable pub max_step : List (ℕ × Text) → Option ℕ
max_step [] = none
max_step ((step, _) ∷ names) = elim (max_step names) [
  | none ↦ some step
  | some top ↦ some (max step top)
]

-- What the modes are called with.
pub record Selection : Type 0 where
  pub props : List (ℕ × Text)
  pub by_step : List (List Text)
  pub skipped_by_step : List (List Text)

abbrev pub is_cover : Text → Bool
is_cover name = starts_with (reverse name) (reverse (codes "_Cover"))

-- The properties behind the loops over -p and --missing.
unfoldable pub choose : Args → Calls → List (ℕ × Text) → List (ℕ × Text) → List (ℕ × Text)
unfolding missing_props group_by_step
choose args calls names found =
    if args.missing
    then found ++ missing_props calls 0 (group_by_step names none)
    else if is_empty found
    then names
    else found

-- The skipped ones are split off.
unfoldable pub split_skipped : ℕ → List (ℕ × Text) → Selection
unfolding keep_props group_by_step
split_skipped top props =
    let kept = keep_props (λ p. not (contains skipped_props p)) props in
    record {
      props = kept;
      by_step = group_by_step kept (some top);
      skipped_by_step = group_by_step (keep_props (contains skipped_props) props) (some top);
    }

abbrev pub without_covers : List (ℕ × Text) → List (ℕ × Text)
without_covers = keep_props (λ name. not (is_cover name))

unfoldable pub select : Args → Calls → List Text → Result SelectError Selection
unfolding preproc_all max_step find_props choose split_skipped
select args calls asserts = preproc_all calls asserts >>= λ all_names.
    or_raise value_error (max_step all_names) >>= λ top.
    find_props (without_covers all_names) args.properties >>= λ found.
    ok (split_skipped top (choose args calls (without_covers all_names) found))
