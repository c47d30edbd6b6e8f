-- ===== src/Conductor/Process/Outcome.antt =====
-- How `Process.poll` of conductor.py ends.
use Prim.Native.Nat.{max}
use ibex.Base.{
  ℕ, ◌≡◌, ◌<◌, refl, Bool, true, false, if◌then◌else◌, nat_eqb, ◌&&◌, ◌-◌, none, ◌⊎◌, inl, inr,
  arith,
}
use ibex.Base.Results.{Result, ok}
use ibex.Conductor.{ProcessResult}
use ibex.Conductor.Process.{
  Future, waiting, cancelled, resolved, Process, Seen, PollError, poll, poll_started, settle,
  is_some, is_wanted, is_overdue, is_to_kill, kill_restart, is_to_restart,
}

abbrev pub IsOpen : Future → Type 0
IsOpen (resolved result) = ⊥
IsOpen _ = Unit

-- Nobody was given a result, and no restart is asked for.
abbrev pub IsQueued : Process → Type 0
IsQueued p = IsOpen p.future × (is_to_restart p.kill_ ≡ false)

-- Besides it was started: `proc` is set. That subprocess runs, or it was stopped to be restarted
-- and stays in `proc` until the next start.
abbrev pub IsLive : Process → Type 0
IsLive p = (0 < p.proc) × IsQueued p

abbrev pub IsSettled : Future → Type 0
IsSettled waiting = ⊥
IsSettled _ = Unit

-- After a poll, the process goes on, or it is over.
abbrev pub IsAfter : Bool → Process → Type 0
IsAfter false q = IsLive q
IsAfter true q = IsSettled q.future

-- The call returns, for the same process.
abbrev pub Returns : ℕ → Result PollError (Bool × Process) → Type 0
Returns id call =
    (ended : Bool) × (q : Process) × (call ≡ ok (ended, q)) × (q.id ≡ id) × IsAfter ended q

either :
    {id : ℕ} {x y : Result PollError (Bool × Process)} (test : Bool)
    → Returns id x
    → Returns id y
    → Returns id (if test then x else y)
either true hx hy = hx
either false hx hy = hy

settle-Returns :
    (p : Process) (result : ProcessResult) (future : Future)
    → p.future ≡ future
    → IsOpen future
    → Returns p.id (settle p result future)
unfolding settle
settle-Returns p result waiting e h = (true, _, refl, refl, tt)
settle-Returns p result cancelled e h = (true, p, refl, refl, rw e tt)
settle-Returns p result (resolved old) e h = absurd h

poll_started-Returns :
    (seen : Seen) (dt : ℕ) (p : Process) → IsLive p → Returns p.id (poll_started seen dt p)
unfolding poll_started
poll_started-Returns seen dt p (started, (open_, stays)) = rw stays (
    either (is_some seen.code && is_wanted p.kill_) (settle-Returns p _ _ refl open_) (
      either (is_overdue p.timeout dt) (settle-Returns p _ _ refl open_) (
        either (is_to_kill p.kill_) (settle-Returns p _ _ refl open_)
          (false, _, refl, refl, (started, (open_, stays))))))

and_false : (b : Bool) → (b && false) ≡ false
and_false b = ground arith

started-test : (p : Process) → 0 < p.proc → nat_eqb p.proc 0 ≡ false
started-test p h = ground arith

pub poll-Returns : (seen : Seen) (p : Process) → IsLive p → Returns p.id (poll seen p)
unfolding poll
poll-Returns seen p h = rw (started-test p h.0) (
    poll_started-Returns seen (seen.now - p.start_time)
      (record p { max_memory = max seen.rss p.max_memory }) h)

-- A live process is over and its awaiter told, or it goes on.
pub poll-cases :
    (seen : Seen) (p : Process)
    → IsLive p
    → ((q : Process) × (poll seen p ≡ ok (true, q)) × (q.id ≡ p.id) × IsSettled q.future)
      ⊎ ((q : Process) × (poll seen p ≡ ok (false, q)) × (q.id ≡ p.id) × IsLive q)
poll-cases seen p h = cases (poll-Returns seen p h)
  where
    cases :
        Returns p.id (poll seen p)
        → ((q : Process) × (poll seen p ≡ ok (true, q)) × (q.id ≡ p.id) × IsSettled q.future)
          ⊎ ((q : Process) × (poll seen p ≡ ok (false, q)) × (q.id ≡ p.id) × IsLive q)
    cases (true, q, e, same, settled) = inl (q, e, same, settled)
    cases (false, q, e, same, live) = inr (q, e, same, live)

-- A process that the runner stops to restart it is live again after its poll, to be started anew,
-- also where it had ended by itself or where it had been cancelled, which it has forgotten.
pub poll-kill_restart :
    (seen : Seen) (p : Process)
    → 0 < p.proc
    → IsOpen p.future
    → (q : Process) × (poll seen (kill_restart p) ≡ ok (true, q))
      × (q.id ≡ p.id)
      × (q.kill_ ≡ none)
      × IsLive q
unfolding poll poll_started
poll-kill_restart seen p started open_ =
    rw (started-test p started, and_false (is_some seen.code))
      (_, refl, refl, refl, (started, (open_, refl)))
