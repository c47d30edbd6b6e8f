-- ===== src/TraceDiff/Table.antt =====
-- `write_tsv`: the rows of the difference table.
use Prim.Native.Nat.{max}
use ibex.Base.{
  ℕ, suc, ◌≡◌, refl, ap, Option, none, some, List, [], ◌∷◌, ◌++◌, arith, length, length-append,
  String, ◌<>◌, All,
}
use ibex.Base.Text.{Text}
use ibex.TraceDiff.{TraceEntry, DiffEntry}

-- What `csv.writer` is given: texts and numbers.
pub data Cell : Type 0 where
  lit : String → Cell
  text : Text → Cell
  num : ℕ → Cell

abbrev tsv_header : List Cell
tsv_header =
    lit "DiffIndex"
    ∷ lit "Result"
    ∷ lit "Reason"
    ∷ lit "CompareIndexAfterSkip"
    ∷ lit "DiffFields"
    ∷ lit "A_File"
    ∷ lit "A_LineNo"
    ∷ lit "A_TraceIndex"
    ∷ lit "A_PC"
    ∷ lit "A_Insn"
    ∷ lit "A_Decoded instruction"
    ∷ lit "A_Register and memory contents"
    ∷ lit "A_RawLine"
    ∷ lit "B_File"
    ∷ lit "B_LineNo"
    ∷ lit "B_TraceIndex"
    ∷ lit "B_PC"
    ∷ lit "B_Insn"
    ∷ lit "B_Decoded instruction"
    ∷ lit "B_Register and memory contents"
    ∷ lit "B_RawLine"
    ∷ []

abbrev blank : Cell
blank = lit ""

abbrev ok_row : List Cell
ok_row =
    blank
    ∷ lit "OK"
    ∷ lit "no difference found after skips"
    ∷ blank
    ∷ blank
    ∷ blank
    ∷ blank
    ∷ blank
    ∷ blank
    ∷ blank
    ∷ blank
    ∷ blank
    ∷ blank
    ∷ blank
    ∷ blank
    ∷ blank
    ∷ blank
    ∷ blank
    ∷ blank
    ∷ blank
    ∷ blank
    ∷ []

-- `",".join(diff.diff_fields)`
join_fields : List String → String
join_fields [] = ""
join_fields (f ∷ []) = f
join_fields (f ∷ g ∷ fs) = f <> ("," <> join_fields (g ∷ fs))

-- The eight cells of one side, blank where its log had ended.
entry_cells : Option TraceEntry → List Cell
entry_cells none = blank ∷ blank ∷ blank ∷ blank ∷ blank ∷ blank ∷ blank ∷ blank ∷ []
entry_cells (some e) =
    lit e.file
    ∷ num e.line_no
    ∷ num e.trace_idx
    ∷ text e.pc
    ∷ text e.insn
    ∷ text e.decoded
    ∷ text e.regmem
    ∷ text e.raw_line
    ∷ []

unfoldable pub diff_row : ℕ → DiffEntry → List Cell
unfolding entry_cells join_fields
diff_row diff_index diff =
    num diff_index
    ∷ lit "DIFF"
    ∷ lit diff.reason
    ∷ num diff.compare_idx_after_skip
    ∷ lit (join_fields diff.diff_fields)
    ∷ (entry_cells diff.a ++ entry_cells diff.b)

-- `enumerate(diffs, start=n)`
unfoldable pub diff_rows : ℕ → List DiffEntry → List (List Cell)
diff_rows n [] = []
diff_rows n (d ∷ ds) = diff_row n d ∷ diff_rows (suc n) ds

unfoldable pub write_tsv : List DiffEntry → List (List Cell)
unfolding diff_rows
write_tsv [] = tsv_header ∷ ok_row ∷ []
write_tsv (d ∷ ds) = tsv_header ∷ diff_rows 1 (d ∷ ds)

entry_cells-length : (e : Option TraceEntry) → length (entry_cells e) ≡ 8
unfolding entry_cells
entry_cells-length none = refl
entry_cells-length (some e) = refl

diff_row-length : (n : ℕ) (d : DiffEntry) → length (diff_row n d) ≡ 21
unfolding diff_row
diff_row-length n d = omega (
  arith,
  length-append (entry_cells d.a) (entry_cells d.b),
  entry_cells-length d.a,
  entry_cells-length d.b,
)

diff_rows-length :
    (n : ℕ) (ds : List DiffEntry)
    → All (λ r. length r ≡ 21) (diff_rows n ds) × (length (diff_rows n ds) ≡ length ds)
unfolding diff_rows
diff_rows-length n [] = (tt, refl)
diff_rows-length n (d ∷ ds) =
    let (h, l) = diff_rows-length (suc n) ds in ((diff_row-length n d, h), ap suc l)

-- Every row of the table has one cell for each of the 21 columns, and the header is followed by
-- one row for each difference, or by one row where there is none.
pub write_tsv-length :
    (ds : List DiffEntry)
    → All (λ r. length r ≡ 21) (write_tsv ds) × (length (write_tsv ds) ≡ suc (max 1 (length ds)))
unfolding write_tsv
write_tsv-length [] = ((refl, (refl, tt)), omega arith)
write_tsv-length (d ∷ ds) =
    let (h, l) = diff_rows-length 1 (d ∷ ds) in ((refl, h), omega (arith, l))
