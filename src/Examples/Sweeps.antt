-- ===== src/Examples/Sweeps.antt =====
-- A sweep of two points for tools/ibex_sbfl_batch sweep.py.
use ibex.Base.{◌≡◌, refl, none, some, List, [], ◌∷◌, nat_eq}
use ibex.Base.Int.{pos}
use ibex.Base.Results.{ok}
use ibex.Base.Text.{Text, codes}
use ibex.Batch.Sweep.{SweepConfig, SweepPoint, positive_ints}
use ibex.Batch.Sweep.Point.{StatusLine}

abbrev config : SweepConfig
config = record {
  mode = codes "all";
  target = codes "/bugs";
  top_passes = 20 ∷ 120 ∷ [];
  window_sizes = 5 ∷ [];
  weight_strategies = codes "uniform" ∷ [];
  sweep_jobs = pos 1;
  inner_jobs = none;
  tmp_root = codes "/tmp";
  logs_root = codes "/logs";
  workdir = none;
  line_window = pos 0;
  summary_bugset_root = codes "/bugs";
  run_script = codes "/run.py";
  summarize_script = codes "/summarize.py";
  forwarded_args = [];
}

abbrev point : SweepPoint
point = record { top_pass = 120; weight_strategy = codes "uniform"; window_size = 5 }

abbrev values : List Text
values = codes "20" ∷ codes "120" ∷ []

values_read : positive_ints (codes "top pass") values ≡ ok (20 ∷ 120 ∷ [])
unfolding positive_ints nat_eq
values_read = refl

abbrev lines : List StatusLine
lines =
    record { prefix = codes "20" ∷ []; summary = none }
    ∷ record {
      prefix = codes "120" ∷ [];
      summary = some ((codes "bugset" ∷ []) ∷ (codes "alu" ∷ []) ∷ []);
    }
    ∷ []
