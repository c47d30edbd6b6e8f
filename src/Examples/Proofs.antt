-- ===== src/Examples/Proofs.antt =====
-- Proof processes and strategies for dv/formal/conductor.py.
use ibex.Base.{
  ℕ, zero, suc, ◌*◌, ◌<◌, ◌≤◌, ◌≡◌, refl, true, false, ◌==◌, if◌then◌else◌, Option, none, some,
  List, [], ◌∷◌, length, contains, All, nat_eq, arith,
}
use ibex.Base.Counts.{count}
use ibex.Base.Int.{pos}
use ibex.Base.Results.{ok}
use ibex.Base.Text.{Text, codes, text_eq}
use ibex.Conductor.{ProcessResult}
use ibex.Conductor.Process
use ibex.Conductor.Process.{Process, Seen, poll, cancel, kill_restart}
use ibex.Conductor.Process.Outcome.{IsLive, poll-kill_restart}
use ibex.Conductor.Runner
use ibex.Conductor.Runner.{
  GB, ProcessRunner, Cycle, append, poll_runner, kill_loop, start_loop, must_kill, may_start,
  mem_avail,
}
use ibex.Conductor.Runner.Plan.{Moves, total}
use ibex.Conductor.Runner.Sound.{IsSound, state}
use ibex.Conductor.Runner.Reach.{Reach, begin, submit, polled, Reach-IsSound, poll_runner-refines}
use ibex.Conductor.Runner.Progress.{poll_runner-progress}
use ibex.Conductor.Select
use ibex.Conductor.Select.{Selection, select, group_by_step}
use ibex.Conductor.Select.Steps.{IsSplit, select-IsSplit}
use ibex.Conductor.Split.{PropTree, split_by_prefixes, find_all}
use ibex.Conductor.Split.Leaves.{split_by_prefixes-leaves}
use ibex.Conductor.Strategy.{Strategy}
use ibex.Conductor.Prove
use ibex.Conductor.Prove.{prove_mode}
use ibex.Conductor.Prove.Loaded.{IsLoaded}
use ibex.Conductor.Prove.Complete.{IsProven, prove_mode-zero}

abbrev engine : ℕ → Process
engine id = Process.init id (codes "rIC3 a.aig") GB 0 none

-- Each process holds 1 GB and goes on.
abbrev busy : Seen
busy = record { rss = GB; now = 1000; code = none; stdout = []; stderr = [] }

abbrev cycle : Cycle
cycle = record {
  max_running = 2;
  no_kill = false;
  max_mem = 0;
  global_memory_free = 20 * GB;
  now = 1000;
  see = λ _. busy;
}

abbrev queued : ProcessRunner
queued = append (engine 2) (append (engine 1) (Runner.init 500))

abbrev queued-Reach : Reach 2 (2 ∷ 1 ∷ []) queued
queued-Reach =
    submit 2 (codes "rIC3 a.aig") GB 0 none (submit 1 (codes "rIC3 a.aig") GB 0 none (begin 500))

abbrev running : Process → Process
running p = record (Process.start 1000 p) { max_memory = GB }

-- Both run behind the first poll.
abbrev started : ProcessRunner
started = record (Runner.init 500) { running = running (engine 1) ∷ running (engine 2) ∷ [] }

queued_poll : poll_runner cycle queued ≡ ok started
unfolding poll_runner poll
queued_poll = refl

Reach-IsSound_example :
    (length started.running ≤ 2)
    × ((id : ℕ) → total id (state started) ≡ count id (2 ∷ 1 ∷ []))
    × IsSound started
Reach-IsSound_example = Reach-IsSound (polled cycle refl queued-Reach queued_poll)

poll_runner-refines_example :
    (r : ProcessRunner) × (poll_runner cycle queued ≡ ok r) × Moves 2 (state queued) (state r)
poll_runner-refines_example = poll_runner-refines cycle queued-Reach refl

-- One of two that run is stopped where the memory is short.
abbrev short : Cycle
short = record cycle { global_memory_free = 2 * GB }

abbrev started-Reach : Reach 2 (2 ∷ 1 ∷ []) started
started-Reach = polled cycle refl queued-Reach queued_poll

poll_runner-progress_example :
    (r : ProcessRunner) × (poll_runner cycle queued ≡ ok r) × (length r.pending < 2)
unfolding mem_avail
poll_runner-progress_example =
    poll_runner-progress cycle queued-Reach refl (omega arith) refl (engine 2 ∷ []) (engine 1) refl
      (omega arith)

-- It had ended and was cancelled, and yet it starts anew.
abbrev ended : Seen
ended = record busy { code = some (pos 20) }

poll-kill_restart_example :
    (q : Process) × (poll ended (kill_restart (cancel (running (engine 1)))) ≡ ok (true, q))
    × (q.id ≡ 1)
    × (q.kill_ ≡ none)
    × IsLive q
poll-kill_restart_example = poll-kill_restart ended (cancel (running (engine 1))) (omega arith) tt

abbrev names : List Text
names = codes "Mem_LoadAddr" ∷ codes "Mem_Store" ∷ codes "Wrap" ∷ []

split_by_prefixes-leaves_example :
    (t : PropTree) × (split_by_prefixes names ≡ ok t)
    × ((x : Text) → count x (find_all t) ≡ count x names)
split_by_prefixes-leaves_example =
    split_by_prefixes-leaves names ((λ p. cc), ((λ p. cc), ((λ p. cc), tt)))

abbrev result_of : ℕ → ProcessResult
result_of code = record {
  code = some (pos code);
  reason = codes "OK";
  max_mem = GB;
  dt = 1000;
  stdout = some [];
  stderr = none;
}

abbrev both_loads : Strategy
both_loads = record {
  step = 0;
  props = codes "Load" ∷ codes "Store" ∷ [];
  config = codes "rIC3";
  procres = result_of 20;
}

abbrev load : ℕ → Option (List Strategy)
load zero = some (both_loads ∷ [])
load (suc n) = none

abbrev calls : Prove.Calls
calls = record { int_of = λ _. none; load_strategy = load; prove = λ _ _ _ _. ok (result_of 20) }

abbrev together : Prove.Args
together = record { start = 0; by_step = false; check_complete = true }

abbrev loads : List (ℕ × Text)
loads = (0, codes "Load") ∷ (0, codes "Store") ∷ []

abbrev loads_by_step : List (List Text)
loads_by_step = (codes "Load" ∷ codes "Store" ∷ []) ∷ []

prove_run : prove_mode together calls loads loads_by_step ≡ ok 0
unfolding prove_mode text_eq
prove_run = refl

prove_mode-zero_example :
    All
      (λ p.
        (s : Strategy) × (contains s.props (p.1) ≡ true)
        × IsLoaded together calls s
        × IsProven calls s)
      loads
prove_mode-zero_example = prove_mode-zero together calls loads loads_by_step refl refl prove_run

abbrev asserts : List Text
asserts = codes "top$past_Step1_Load" ∷ codes "top$past_Step0_MType_Div_Data" ∷ []

-- `int` of one digit.
abbrev one_digit : Text → Option ℕ
one_digit text = if text == codes "0" then some 0 else if text == codes "1" then some 1 else none

abbrev reading : Select.Calls
reading = record { int_of = one_digit; load_strategy = λ _. none }

abbrev everything : Select.Args
everything = record { properties = []; missing = false }

abbrev selected : Selection
selected = record {
  props = (1, codes "Load") ∷ [];
  by_step = [] ∷ (codes "Load" ∷ []) ∷ [];
  skipped_by_step = (codes "MType_Div_Data" ∷ []) ∷ [] ∷ [];
}

select_run : select everything reading asserts ≡ ok selected
unfolding select text_eq
select_run = refl

select-IsSplit_example : IsSplit selected
select-IsSplit_example = select-IsSplit everything reading asserts selected select_run
