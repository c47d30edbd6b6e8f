-- ===== src/TraceDiff.antt =====
-- scripts/trace_pc_diff.py: two trace logs compared entry by entry behind given skips.
pub mod Equal
pub mod Entries
pub mod Limit
pub mod Table
use ibex.Base.{
  ℕ, zero, suc, ◌+◌, ◌-◌, Bool, true, false, Option, none, some, List, [], ◌∷◌, ◌++◌, String, ◌==◌,
  ltb, leb, if◌then◌else◌, length, get_elem?, is_empty,
}
use ibex.Base.Text.{Text, codes, text_eq, lower, strip, split_words, split_on, join}
use Prim.Native.Nat.{max}

pub record TraceEntry : Type 0 where
  pub file : String
  pub line_no : ℕ
  pub trace_idx : ℕ
  pub pc : Text
  pub insn : Text
  pub decoded : Text
  pub regmem : Text
  pub raw_line : Text

pub record DiffEntry : Type 0 where
  pub compare_idx_after_skip : ℕ
  pub diff_fields : List String
  pub a : Option TraceEntry
  pub b : Option TraceEntry
  pub reason : String

unfoldable pub normalize_ws : Text → Text
unfolding strip split_words join
normalize_ws s = join (codes " ") (split_words [] (strip s))

-- `parts[4:-1]` and `parts[-1]` of at least one part.
unfoldable pub init : List Text → List Text
init [] = []
init (p ∷ []) = []
init (p ∷ q ∷ ps) = p ∷ init (q ∷ ps)

unfoldable pub last : List Text → Text
last [] = []
last (p ∷ []) = p
last (p ∷ q ∷ ps) = last (q ∷ ps)

unfoldable pub clean : Bool → Text → Text
unfolding strip normalize_ws
clean exact_space s = if exact_space then strip s else normalize_ws s

-- One line of the log: none for a blank or a malformed one.
unfoldable pub parse_line : String → Bool → ℕ → ℕ → Text → Option TraceEntry
unfolding split_on lower clean init last
parse_line path exact_space line_no trace_idx raw_line =
    if is_empty (strip raw_line) then none else elim (split_on b'\t' [] raw_line) [
      | p0 ∷ p1 ∷ p2 ∷ p3 ∷ p4 ∷ p5 ∷ rest ↦ some (record {
        file = path;
        line_no = line_no;
        trace_idx = trace_idx;
        pc = lower (strip p2);
        insn = lower (strip p3);
        decoded = clean exact_space (join (codes "\t") (init (p4 ∷ p5 ∷ rest)));
        regmem = clean exact_space (last (p4 ∷ p5 ∷ rest));
        raw_line = raw_line;
      })
      | _ ↦ none
    ]

-- The loop over the lines behind the header. `entries` are those read so far.
unfoldable pub parse_lines : String → Bool → ℕ → List TraceEntry → List Text → List TraceEntry
unfolding parse_line
parse_lines path exact_space line_no entries [] = entries
parse_lines path exact_space line_no entries (raw_line ∷ lines) =
    parse_lines path exact_space (suc line_no)
      (elim (parse_line path exact_space line_no (length entries) raw_line) [
        | none ↦ entries
        | some e ↦ entries ++ e ∷ []
      ])
      lines

-- The file is its list of lines, without their newlines. An empty file has no header.
unfoldable pub parse_trace_log : String → Bool → List Text → List TraceEntry
unfolding parse_lines
parse_trace_log path exact_space [] = []
parse_trace_log path exact_space (header ∷ lines) = parse_lines path exact_space 2 [] lines

abbrev differs : Bool → String → List String
differs same name = if same then [] else name ∷ []

unfoldable pub get_diff_fields : TraceEntry → TraceEntry → List String
get_diff_fields a b =
    differs (a.pc == b.pc) "PC"
    ++ (differs (a.insn == b.insn) "Insn"
        ++ (differs (a.decoded == b.decoded) "Decoded instruction"
            ++ differs (a.regmem == b.regmem) "Register and memory contents"))

-- What one round of the loop appends: nothing, or one entry.
unfoldable pub compare_entries : ℕ → Option TraceEntry → Option TraceEntry → List DiffEntry
unfolding get_diff_fields
compare_entries i (some a) (some b) =
    let fields = get_diff_fields a b in
    if is_empty fields
    then []
    else record {
      compare_idx_after_skip = i;
      diff_fields = fields;
      a = some a;
      b = some b;
      reason = "entry mismatch";
    }
      ∷ []
compare_entries i (some a) none =
    record {
      compare_idx_after_skip = i;
      diff_fields = "EOF" ∷ [];
      a = some a;
      b = none;
      reason = "file B reached EOF first";
    }
    ∷ []
compare_entries i none (some b) =
    record {
      compare_idx_after_skip = i;
      diff_fields = "EOF" ∷ [];
      a = none;
      b = some b;
      reason = "file A reached EOF first";
    }
    ∷ []
compare_entries i none none = []

-- A command-line `int`: `negsuc n` is -(n + 1).
pub data ℤ : Type 0 where
  pos : ℕ → ℤ
  negsuc : ℕ → ℤ

-- `max_diffs is not None and len(diffs) >= max_diffs`
unfoldable pub limit_reached : Option ℤ → ℕ → Bool
limit_reached none n = false
limit_reached (some (pos k)) n = leb k n
limit_reached (some (negsuc k)) n = true

module _ (entries_a entries_b : List TraceEntry) (skip_a skip_b : ℕ) where
  -- The rounds `i`, `i + 1`, ... of the loop; the first argument is how many are left.
  unfoldable pub diff_loop : Option ℤ → ℕ → ℕ → List DiffEntry → List DiffEntry
  unfolding compare_entries limit_reached
  diff_loop max_diffs zero i diffs = diffs
  diff_loop max_diffs (suc rounds) i diffs =
      let diffs' =
        diffs
        ++ compare_entries i (get_elem? entries_a (skip_a + i))
            (get_elem? entries_b (skip_b + i)) in
      let rest = diff_loop max_diffs rounds (suc i) diffs' in
      if limit_reached max_diffs (length diffs') then diffs' else rest

  unfoldable pub compare_len : ℕ
  compare_len = max (length entries_a - skip_a) (length entries_b - skip_b)

pub data DiffResult : Type 0 where
  diffs : List DiffEntry → DiffResult
  skip_negative : String → DiffResult
  skip_exceeds : String → DiffResult

unfoldable pub collect_diffs : List TraceEntry → ℤ → List TraceEntry → ℤ → Option ℤ → DiffResult
unfolding diff_loop compare_len
collect_diffs entries_a (negsuc _) entries_b skip_b max_diffs = skip_negative "skip_a"
collect_diffs entries_a (pos skip_a) entries_b (negsuc _) max_diffs = skip_negative "skip_b"
collect_diffs entries_a (pos skip_a) entries_b (pos skip_b) max_diffs =
    if ltb (length entries_a) skip_a
    then skip_exceeds "skip_a"
    else if ltb (length entries_b) skip_b
    then skip_exceeds "skip_b"
    else diffs (
        diff_loop entries_a entries_b skip_a skip_b max_diffs
          (compare_len entries_a entries_b skip_a skip_b) 0 [])
