-- ===== src/Batch/Sweep/Summary.antt =====
-- What the combined summary of a sweep holds.
use ibex.Base.{◌≡◌, refl, true, Option, none, some, List, [], ◌∷◌, ◌++◌, map, arith}
use ibex.Base.Text.{Text}
use ibex.Batch.Sweep.Point.{
  StatusLine, combine, combined_summary, empty_summary_fields, prefix_fields,
}

-- The rows behind the first of a table, each behind its prefix.
abbrev pub table_rows : List Text → Option (List (List Text)) → List (List Text)
table_rows prefix (some (header ∷ rows)) = map (λ row. prefix ++ row) rows
table_rows prefix _ = []

-- Those of all tables, in the order of the status file.
abbrev pub data_rows : List StatusLine → List (List Text)
data_rows [] = []
data_rows (line ∷ lines) = table_rows line.prefix line.summary ++ data_rows lines

-- The header of the first table that has one, behind the point's columns, or else the fixed one.
abbrev pub heading : List StatusLine → List Text
heading [] = empty_summary_fields
heading (line ∷ lines) = elim line.summary [
  | none ↦ heading lines
  | some [] ↦ heading lines
  | some (header ∷ rows) ↦ prefix_fields ++ header
]

combine_written : (lines : List StatusLine) → combine true lines ≡ data_rows lines
unfolding combine
combine_written [] = refl
combine_written (line ∷ lines) = ground (arith, combine_written lines)

-- The combined summary is one header, the first that a table has, and behind it the rows of all
-- tables in the order of the status file, each behind the columns of its point.
pub combined_summary_lem :
    (lines : List StatusLine) → combined_summary lines ≡ heading lines ∷ data_rows lines
unfolding combined_summary combine
combined_summary_lem [] = refl
combined_summary_lem (line ∷ lines) =
    ground (arith, combined_summary_lem lines, combine_written lines)
