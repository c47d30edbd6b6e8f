-- ===== src/Batch/Statistics.antt =====
-- `compute_sbfl_stats` and `compute_llm_stats` of ibex_sbfl_batch/statistics.py, with `parse_rank`
-- and `parse_time` of ibex_sbfl_common/artifacts.py.
pub mod Llm
pub mod Counts
use mathlib.Core.List.{reverse}
use ibex.Base.{
  ℕ, zero, suc, ◌+◌, Bool, true, false, not, Option, none, some, List, [], ◌∷◌, length, drop,
  is_empty, if◌then◌else◌, ◌==◌,
}
use ibex.Base.Counts.{count}
use ibex.Base.Dict.{Dict, lookup, insert}
use ibex.Base.Results.{Result, err, ok, ◌>>=◌}
use ibex.Base.Text.{Text, codes, text_eq, lower, strip, starts_with}

-- Python's float and int, as far as the statistics use them. `of_text` and `int_of` are None where
-- they raise ValueError, `inverse` is None where it divides by zero.
pub record Number : Type 1 where
  pub F : Type 0
  pub of_text : Text → Option F
  pub int_of : Text → Option ℕ
  pub zero_sum : F
  pub of_nat : ℕ → F
  pub add : F → F → F
  pub divide : F → ℕ → F
  pub inverse : F → Option F
  pub at_most : F → ℕ → Bool
  pub min_11 : F → F
  pub less : F → F → Bool
  pub equal : F → F → Bool

pub data StatsError : Type 0 where
  value_error zero_division : StatsError

abbrev pub Row : Type 0
Row = Dict Text Text

abbrev pub or_raise {ℓ} : {A : Type ℓ} → StatsError → Option A → Result StatsError A
or_raise e none = err e
or_raise e (some a) = ok a

abbrev ends_with : Text → Text → Bool
ends_with s suffix = starts_with (reverse s) (reverse suffix)

-- `s[:-n]`
abbrev drop_last : ℕ → Text → Text
drop_last n s = reverse (drop n (reverse s))

-- `row.get(field, "")`
unfoldable pub field_of : Text → Row → Text
unfolding lookup text_eq
field_of field row = elim (lookup field row) [ none ↦ [] | some value ↦ value ]

abbrev pub flag : Bool → ℕ
flag true = 1
flag false = 0

abbrev micro_seconds : Text
micro_seconds = 181 ∷ codes "s"

abbrev pub is_ok : Row → Bool
is_ok row = field_of (codes "status") row == codes "OK"

module _ (N : Number) where
  unfoldable pub parse_rank : Text → Option N.F
  unfolding strip lower starts_with
  parse_rank rank_str =
      let value = lower (strip rank_str) in
      if starts_with value (codes "over")
      then none
      else if starts_with value (codes "top-")
      then N.of_text (drop 4 value)
      else N.of_text value

  abbrev scaled : ℕ → ℕ → Text → Result StatsError N.F
  scaled suffix divisor value =
      or_raise value_error (N.of_text (drop_last suffix value)) >>= λ time.
      ok (N.divide time divisor)

  unfoldable pub parse_time : Text → Result StatsError N.F
  unfolding strip starts_with
  parse_time text =
      let value = strip text in
      if is_empty value
      then ok N.zero_sum
      else if ends_with value (codes "ms")
      then scaled 2 1000 value
      else if ends_with value micro_seconds
      then scaled 2 1000000 value
      else if ends_with value (codes "us")
      then scaled 2 1000000 value
      else if ends_with value (codes "ns")
      then scaled 2 1000000000 value
      else if ends_with value (codes "s")
      then or_raise value_error (N.of_text (drop_last 1 value))
      else or_raise value_error (N.of_text value)

  -- A rank counts under a limit.
  abbrev pub within : Option N.F → ℕ → ℕ
  within none limit = 0
  within (some rank) limit = flag (N.at_most rank limit)

  -- `min(rank, 11) if rank is not None else 11`
  abbrev pub capped : Option N.F → N.F
  capped none = N.of_nat 11
  capped (some rank) = N.min_11 rank

  -- The sum and the number of the times of a field that are not empty, with one more row.
  unfoldable pub add_time : Text → N.F × ℕ → Result StatsError (N.F × ℕ)
  unfolding parse_time
  add_time text (sum, number) =
      if is_empty text
      then ok (sum, number)
      else parse_time text >>= λ time. ok (N.add sum time, suc number)

  pub record SbflStats : Type 0 where
    pub ok_rows : ℕ
    pub top1 : ℕ
    pub top5 : ℕ
    pub top10 : ℕ
    pub top20 : ℕ
    pub mar_sum : N.F
    pub gen : N.F × ℕ
    pub sbfl : N.F × ℕ

  abbrev pub no_rows : SbflStats
  no_rows = record {
    ok_rows = 0;
    top1 = 0;
    top5 = 0;
    top10 = 0;
    top20 = 0;
    mar_sum = N.zero_sum;
    gen = (N.zero_sum, 0);
    sbfl = (N.zero_sum, 0);
  }

  -- The body of the loop for a row with status OK; the times are read last.
  unfoldable pub count_row : Row → SbflStats → Result StatsError SbflStats
  unfolding parse_rank field_of add_time
  count_row row stats =
      let rank = parse_rank (field_of (codes "top-k") row) in
      add_time (field_of (codes "gen_time") row) stats.gen >>= λ gen.
      add_time (field_of (codes "sbfl_time") row) stats.sbfl >>= λ sbfl. ok (record {
        ok_rows = suc stats.ok_rows;
        top1 = stats.top1 + within rank 1;
        top5 = stats.top5 + within rank 5;
        top10 = stats.top10 + within rank 10;
        top20 = stats.top20 + within rank 20;
        mar_sum = N.add stats.mar_sum (capped rank);
        gen = gen;
        sbfl = sbfl;
      })

  unfoldable pub count_rows : List Row → SbflStats → Result StatsError SbflStats
  unfolding count_row field_of
  count_rows [] stats = ok stats
  count_rows (row ∷ rows) stats = elim (is_ok row) [
    | true ↦ count_row row stats >>= count_rows rows
    | false ↦ count_rows rows stats
  ]

  unfoldable pub compute_sbfl_stats : List Row → Result StatsError SbflStats
  unfolding count_rows
  compute_sbfl_stats rows = count_rows rows no_rows
