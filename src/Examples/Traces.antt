-- ===== src/Examples/Traces.antt =====
-- Two short traces of scripts/trace_pc_diff.py.
use ibex.Base.{ℕ, ◌≡◌, none, List, [], ◌∷◌, drop, arith, String}
use ibex.Base.Text.{Text, codes}
use ibex.TraceDiff.{TraceEntry, DiffEntry, pos, diffs, collect_diffs}
use ibex.TraceDiff.Equal.{walk, collect_diffs-walk}

abbrev entry : ℕ → String → TraceEntry
entry n insn = record {
  file = "a.log";
  line_no = 2;
  trace_idx = n;
  pc = codes "80000080";
  insn = codes insn;
  decoded = codes "addi x1, x0, 1";
  regmem = codes "x1=0x1";
  raw_line = [];
}

abbrev log_a : List TraceEntry
log_a = entry 0 "00100093" ∷ entry 1 "00200093" ∷ []

abbrev log_b : List TraceEntry
log_b = entry 0 "00200093" ∷ []

collect_diffs-walk_example :
    collect_diffs log_a (pos 1) log_b (pos 0) none ≡ diffs (walk 0 (drop 1 log_a) (drop 0 log_b))
collect_diffs-walk_example = collect_diffs-walk log_a log_b 1 0 (omega arith) (omega arith)

abbrev walked : List DiffEntry
walked = walk 0 (drop 0 log_a) (drop 0 log_b)

walked_all : collect_diffs log_a (pos 0) log_b (pos 0) none ≡ diffs walked
walked_all = collect_diffs-walk log_a log_b 0 0 (omega arith) (omega arith)

abbrev file : List Text
file =
    codes "Time\tCycle\tPC\tInsn\tDecoded instruction\tRegister and memory contents"
    ∷ codes "1\t2\t80\t13\tnop\tx0"
    ∷ []
