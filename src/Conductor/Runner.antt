-- ===== src/Conductor/Runner.antt =====
-- `ProcessRunner` of conductor.py: starts pending processes, and stops recent ones for memory.
pub mod Plan
pub mod Sound
pub mod Loops
pub mod Drops
pub mod Reach
pub mod Progress
use Prim.Native.Nat.{max, min}
use mathlib.Core.List.{filter}
use ibex.Base.{
  ℕ, zero, suc, ◌+◌, ◌-◌, ◌*◌, ◌/◌, Bool, true, false, ◌&&◌, not, Option, none, some, List, [], ◌∷◌,
  ◌++◌, ltb, nat_eqb, if◌then◌else◌, length, is_empty,
}
use ibex.Base.Results.{Result, err, ok, ◌>>=◌}
use ibex.Conductor.Process.{Process, Seen, PollError, start, cancel, kill_restart, poll}

abbrev pub GB : ℕ
GB = 1073741824

abbrev pub global_memory_buffer : ℕ
global_memory_buffer = 5 * GB

-- Lists are in Python's order, so `append` and `pop` work at the end. `left` holds the processes
-- that the runner dropped; in Python only those who await them hold them.
pub record ProcessRunner : Type 0 where
  pub pending : List Process
  pub running : List Process
  pub left : List Process
  pub first_start : ℕ
  pub debug_count : ℕ

-- What a cycle reads outside: the command line, `MAX_RUNNING`, the clock, the free memory of the
-- system, and what each process shows when it is polled.
pub record Cycle : Type 0 where
  pub max_running : ℕ
  pub no_kill : Bool
  pub max_mem : ℕ
  pub global_memory_free : ℕ
  pub now : ℕ
  pub see : Process → Seen

abbrev pub init : ℕ → ProcessRunner
init now = record { pending = []; running = []; left = []; first_start = now; debug_count = 0 }

abbrev pub append : Process → ProcessRunner → ProcessRunner
append proc self = record self { pending = proc ∷ self.pending }

-- `xs.pop()`, with what is left.
unfoldable pub pop {ℓ} : {A : Type ℓ} → List A → Option (List A × A)
pop [] = none
pop (x ∷ xs) = elim (pop xs) [ none ↦ some ([], x) | some (ys, y) ↦ some (x ∷ ys, y) ]

unfoldable pub children_used_mem : List Process → ℕ
children_used_mem [] = 0
children_used_mem (proc ∷ running) = proc.max_memory + children_used_mem running

unfoldable pub mem_avail : Cycle → ProcessRunner → ℕ
unfolding children_used_mem
mem_avail cycle self =
    if nat_eqb cycle.max_mem 0
    then cycle.global_memory_free
    else min cycle.global_memory_free (cycle.max_mem - children_used_mem self.running)

-- The test and the body of the first loop, on the runner and `free`.
abbrev pub must_kill : Cycle → ProcessRunner × ℕ → Bool
must_kill cycle (self, free) =
    not cycle.no_kill && ltb free global_memory_buffer && ltb 1 (length self.running)

unfoldable pub kill_last : Cycle → ProcessRunner × ℕ → Result PollError (ProcessRunner × ℕ)
unfolding pop
kill_last cycle (self, free) = elim (pop self.running) [
  | none ↦ ok (self, free)
  | some (running, last) ↦
      poll (cycle.see (kill_restart last)) (kill_restart last) >>= λ (_, last'). ok (
        record self { running = running; pending = self.pending ++ (last' ∷ []) },
        free + max last.max_memory (3 * GB),
      )
]

unfoldable pub kill_loop : ℕ → Cycle → ProcessRunner × ℕ → Result PollError (ProcessRunner × ℕ)
unfolding kill_last
kill_loop zero cycle state = ok state
kill_loop (suc fuel) cycle state = elim (must_kill cycle state) [
  | true ↦ kill_last cycle state >>= kill_loop fuel cycle
  | false ↦ ok state
]

-- The test and the body of the second loop.
unfoldable pub may_start : Cycle → ProcessRunner × ℕ → Bool
unfolding pop
may_start cycle (self, free) = elim (pop self.pending) [
  | none ↦ false
  | some (_, last) ↦
      ltb (length self.running) cycle.max_running
      && ltb (last.expected_memory + global_memory_buffer) free
]

unfoldable pub start_last : Cycle → ProcessRunner × ℕ → ProcessRunner × ℕ
unfolding pop
start_last cycle (self, free) = elim (pop self.pending) [
  | none ↦ (self, free)
  | some (pending, last) ↦ (
    record self {
      pending = pending;
      running = self.running ++ (start cycle.now last ∷ []);
      first_start = if nat_eqb self.first_start 0 then cycle.now else self.first_start;
    },
    free - max last.expected_memory (3 * GB),
  )
]

unfoldable pub start_loop : ℕ → Cycle → ProcessRunner × ℕ → ProcessRunner × ℕ
unfolding may_start start_last
start_loop zero cycle state = state
start_loop (suc fuel) cycle state = elim (may_start cycle state) [
  | true ↦ start_loop fuel cycle (start_last cycle state)
  | false ↦ state
]

-- The third loop: `kept` are the processes in front of the index, the next ones stand behind it.
unfoldable pub drop_finished :
    Cycle → (kept next left : List Process) → Result PollError (List Process × List Process)
drop_finished cycle kept [] left = ok (kept, left)
drop_finished cycle kept (proc ∷ next) left = poll (cycle.see proc) proc >>= λ (ended, proc').
    elim ended [
      | true ↦ drop_finished cycle kept next (left ++ (proc' ∷ []))
      | false ↦ drop_finished cycle (kept ++ (proc' ∷ [])) next left
    ]

-- Each round of a loop takes a process out of the list that it pops, so its length is enough fuel.
unfoldable pub poll_runner : Cycle → ProcessRunner → Result PollError ProcessRunner
unfolding mem_avail kill_loop start_loop drop_finished
poll_runner cycle self =
    kill_loop (length self.running) cycle (self, mem_avail cycle self) >>= λ killed.
    let (started, _) = start_loop (length (killed.0).pending) cycle killed in
    drop_finished cycle [] started.running started.left >>= λ (running, left). ok (record started {
      running = running;
      left = left;
      debug_count = max started.debug_count ((cycle.now - started.first_start) / 30000);
    })

-- A race that is over cancels the future of a process, wherever it stands.
unfoldable pub cancel_id : ℕ → List Process → List Process
cancel_id id [] = []
cancel_id id (proc ∷ procs) =
    (if nat_eqb proc.id id then cancel proc else proc) ∷ cancel_id id procs

unfoldable pub cancel_process : ℕ → ProcessRunner → ProcessRunner
unfolding cancel_id
cancel_process id self = record self {
  pending = cancel_id id self.pending;
  running = cancel_id id self.running;
  left = cancel_id id self.left;
}
