-- ===== src/Conductor/Strategy.antt =====
-- `Strategy` of conductor.py, its file format, and what a strategy lacks.
pub mod File
use ibex.Base.{
  ℕ, ◌+◌, Bool, true, false, ◌||◌, not, Option, none, some, List, [], ◌∷◌, ◌++◌, get_elem?,
  contains, if◌then◌else◌,
}
use ibex.Base.Int.{ℤ}
use ibex.Base.Text.{Text, text_eq}
use ibex.Conductor.{ProcessResult}

pub record Strategy : Type 0 where
  pub step : ℕ
  pub props : List Text
  pub config : Text
  pub procres : ProcessResult

-- A value in the list that stands for a ProcessResult.
pub data Json : Type 0 where
  null : Json
  code : ℤ → Json
  amount : ℕ → Json
  str : Text → Json

-- One element of the list in a strategy file.
abbrev pub Encoded : Type 0
Encoded = ℕ × List Text × Text × List Json

abbrev pub or_null : {A : Type 0} → (A → Json) → Option A → Json
or_null write none = null
or_null write (some x) = write x

-- What `store_strategy` writes.
unfoldable pub encode_strategy : Strategy → Encoded
encode_strategy s = (
  s.step,
  s.props,
  s.config,
  or_null code s.procres.code
      ∷ amount s.procres.max_mem
      ∷ amount s.procres.dt
      ∷ str s.procres.reason
      ∷ or_null str s.procres.stdout
      ∷ or_null str s.procres.stderr
      ∷ [],
)

-- How the value at an index is read; None where the index is out of range or the value of another
-- kind, which the code does not expect.
abbrev pub as_code : Option Json → Option (Option ℤ)
as_code (some null) = some none
as_code (some (code n)) = some (some n)
as_code _ = none

abbrev pub as_amount : Option Json → Option ℕ
as_amount (some (amount n)) = some n
as_amount _ = none

abbrev pub as_str : Option Json → Option Text
as_str (some (str s)) = some s
as_str _ = none

-- `encoded[3][i] if len(encoded[3]) > i else None`
abbrev pub as_pipe : Option Json → Option (Option Text)
as_pipe none = some none
as_pipe (some null) = some none
as_pipe (some (str s)) = some (some s)
as_pipe _ = none

abbrev both : {A B : Type 0} → Option A → (A → Option B) → Option B
both none rest = none
both (some x) rest = rest x

unfoldable pub decode_strategy : Encoded → Option Strategy
decode_strategy (step, props, config, fields) = both (as_code (get_elem? fields 0)) λ code.
    both (as_str (get_elem? fields 3)) λ reason. both (as_amount (get_elem? fields 1)) λ max_mem.
      both (as_amount (get_elem? fields 2)) λ dt. both (as_pipe (get_elem? fields 4)) λ stdout.
        both (as_pipe (get_elem? fields 5)) λ stderr. some (record {
          step = step;
          props = props;
          config = config;
          procres = record {
            code = code;
            reason = reason;
            max_mem = max_mem;
            dt = dt;
            stdout = stdout;
            stderr = stderr;
          };
        })

unfoldable pub done_props : List Strategy → List Text
done_props [] = []
done_props (s ∷ strategy) = s.props ++ done_props strategy

-- `set(props).difference(done)`, as the last occurrences in the order of the list.
unfoldable pub difference : List Text → List Text → List Text
difference [] done = []
difference (p ∷ props) done =
    let rest = difference props done in
    if contains done p || contains rest p then rest else p ∷ rest

unfoldable pub missing_from : List Strategy → List Text → List Text
unfolding done_props difference
missing_from strategy props = difference props (done_props strategy)
