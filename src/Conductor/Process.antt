-- ===== src/Conductor/Process.antt =====
-- `Process` of conductor.py: a subprocess with a future, polled until it ends or is killed.
pub mod Outcome
use Prim.Native.Nat.{max}
use ibex.Base.{
  ℕ, zero, suc, ◌+◌, ◌-◌, ◌*◌, ◌/◌, Bool, true, false, ◌&&◌, Option, none, some, ltb, nat_eqb,
  if◌then◌else◌,
}
use ibex.Base.Int.{ℤ}
use ibex.Base.Results.{Result, err, ok, ◌>>=◌, ◌>>◌, raise_if}
use ibex.Base.Text.{Text, codes}
use ibex.Conductor.{ProcessResult}

-- `kill_` where it is not None: the texts "kill" and "restart".
pub data Request : Type 0 where
  to_kill to_restart : Request

-- The state of an `asyncio.Future`.
pub data Future : Type 0 where
  waiting cancelled : Future
  resolved : ProcessResult → Future

-- `id` tells processes apart; `proc` counts the subprocesses that it started, 0 for None.
pub record Process : Type 0 where
  pub id : ℕ
  pub cmd : Text
  pub expected_memory : ℕ
  pub expected_time : ℕ
  pub timeout : Option ℕ
  pub kill_ : Option Request
  pub debug_slow_count : ℕ
  pub proc : ℕ
  pub future : Future
  pub max_memory : ℕ
  pub start_time : ℕ

-- What the system answers while a process is polled: `memory_info().rss`, `time.time()`,
-- `Popen.poll()`, and what stands in the pipes. There is always an answer: an exception of psutil,
-- or of the decoding of a pipe that is not UTF-8, is none of them.
pub record Seen : Type 0 where
  pub rss : ℕ
  pub now : ℕ
  pub code : Option ℤ
  pub stdout : Text
  pub stderr : Text

-- The exceptions of a poll that is answered: its assertion, and a result set on a future that has
-- one.
pub data PollError : Type 0 where
  assertion_error invalid_state : PollError

abbrev pub is_some : {A : Type 0} → Option A → Bool
is_some none = false
is_some (some x) = true

abbrev pub is_to_kill : Option Request → Bool
is_to_kill (some to_kill) = true
is_to_kill _ = false

abbrev pub is_to_restart : Option Request → Bool
is_to_restart (some to_restart) = true
is_to_restart _ = false

abbrev pub is_wanted : Option Request → Bool
is_wanted none = true
is_wanted (some request) = false

abbrev pub init : ℕ → Text → ℕ → ℕ → Option ℕ → Process
init id cmd expected_memory expected_time timeout = record {
  id = id;
  cmd = cmd;
  expected_memory = expected_memory;
  expected_time = expected_time;
  timeout = timeout;
  kill_ = none;
  debug_slow_count = 0;
  proc = 0;
  future = waiting;
  max_memory = 0;
  start_time = 0;
}

abbrev pub start : ℕ → Process → Process
start now self = record self {
  proc = suc self.proc;
  start_time = now;
  max_memory = 0;
  debug_slow_count = 0;
}

abbrev pub kill : Process → Process
kill self = record self { kill_ = some to_kill }

abbrev pub kill_restart : Process → Process
kill_restart self = record self { kill_ = some to_restart }

abbrev pub cancel_future : Future → Future
cancel_future waiting = cancelled
cancel_future future = future

-- `ProcessFuture.cancel`
abbrev pub cancel : Process → Process
cancel self = record (kill self) { future = cancel_future self.future }

-- `if not self.future.cancelled(): self.future.set_result(result)`, then `return True`.
unfoldable pub settle : Process → ProcessResult → Future → Result PollError (Bool × Process)
settle self result waiting = ok (true, record self { future = resolved result })
settle self result cancelled = ok (true, self)
settle self result (resolved old) = err invalid_state

-- `self.timeout is not None and dt > self.timeout`
abbrev pub is_overdue : Option ℕ → ℕ → Bool
is_overdue none dt = false
is_overdue (some timeout) dt = ltb timeout dt

-- `ProcessResult.from_proc`
abbrev from_proc : Process → Seen → Option ℤ → Text → ℕ → ProcessResult
from_proc self seen code reason dt = record {
  code = code;
  reason = reason;
  max_mem = self.max_memory;
  dt = dt;
  stdout = some seen.stdout;
  stderr = some seen.stderr;
}

-- `poll` behind its assertions, with `max_memory` up to date and `dt` known.
unfoldable pub poll_started : Seen → ℕ → Process → Result PollError (Bool × Process)
unfolding settle
poll_started seen dt self =
    if is_some seen.code && is_wanted self.kill_
    then settle self (from_proc self seen seen.code (codes "OK") dt) self.future
    else if is_to_restart self.kill_
    then ok (
      true,
      record self {
        kill_ = none;
        expected_memory = max self.expected_memory self.max_memory;
        expected_time = max self.expected_time dt;
      },
    )
    else if is_overdue self.timeout dt
    then settle self (from_proc self seen none (codes "TIMEOUT") dt) self.future
    else if is_to_kill self.kill_
    then settle self (from_proc self seen none (codes "UNINTERESTED") dt) self.future
    else ok (false, record self { debug_slow_count = max self.debug_slow_count (dt / 60000) })

-- A poll that the system answers. A subprocess that it kills stays in `proc`.
unfoldable pub poll : Seen → Process → Result PollError (Bool × Process)
unfolding poll_started
poll seen self =
    raise_if (nat_eqb self.proc 0) assertion_error
    >> poll_started seen (seen.now - self.start_time)
        (record self { max_memory = max seen.rss self.max_memory })
