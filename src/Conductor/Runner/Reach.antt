-- ===== src/Conductor/Runner/Reach.antt =====
-- What holds of `ProcessRunner` of conductor.py whatever is submitted, cancelled and polled.
use ibex.Base.{
  nat_eq, ℕ, inl, inr, ◌≤◌, ◌≡◌, refl, ap, ◌∙◌, nat_eqb, Option, List, [], ◌∷◌, length, All, arith,
  Bool-cases,
}
use ibex.Base.Results.{ok}
use ibex.Base.Text.{Text}
use ibex.Conductor.Process.{Process, Future, waiting, cancelled, resolved, cancel, cancel_future}
use ibex.Conductor.Process
use ibex.Conductor.Process.Outcome.{IsQueued, IsLive, IsOpen, IsSettled}
use ibex.Conductor.Runner
use ibex.Conductor.Runner.{
  global_memory_buffer, ProcessRunner, Cycle, append, pop, may_start, start_last, start_loop,
  kill_loop, drop_finished, poll_runner, mem_avail, cancel_id, cancel_process, must_kill,
}
use ibex.Conductor.Runner.Plan.{Moves, done, Moves-trans, Moves-total, Moves-bound, total}
use ibex.Base.Counts.{count}
use ibex.Conductor.Runner.Loops.{kill_loop-Moves, start_loop-Moves}
use ibex.Conductor.Runner.Drops.{drop_finished-Moves}
use ibex.Conductor.Runner.Sound.{ids, length-ids, state, IsSound}

-- The runners that calls lead to, with the ids that were submitted.
pub data Reach (bound : ℕ) : List ℕ → ProcessRunner → Type 0 where
  begin : (now : ℕ) → Reach bound [] (Runner.init now)
  submit :
      {submitted : List ℕ} {r : ProcessRunner} (id : ℕ) (cmd : Text) (memory time : ℕ)
      (timeout : Option ℕ)
      → Reach bound submitted r
      → Reach bound (id ∷ submitted) (append (Process.init id cmd memory time timeout) r)
  cancel_one :
      {submitted : List ℕ} {r : ProcessRunner} (id : ℕ)
      → Reach bound submitted r
      → Reach bound submitted (cancel_process id r)
  polled :
      {submitted : List ℕ} {r r' : ProcessRunner} (cycle : Cycle)
      → cycle.max_running ≡ bound
      → Reach bound submitted r
      → poll_runner cycle r ≡ ok r'
      → Reach bound submitted r'

-- A poll of a sound runner returns, and is a sequence of moves.
poll_runner-Moves :
    (cycle : Cycle) (r : ProcessRunner)
    → IsSound r
    → (r' : ProcessRunner) × (poll_runner cycle r ≡ ok r')
      × IsSound r'
      × Moves cycle.max_running (state r) (state r')
unfolding poll_runner
poll_runner-Moves cycle r sound =
    let (r1, free1, e1, _, sound1, moves1) =
      kill_loop-Moves (length r.running) cycle r (mem_avail cycle r) sound (omega arith) in
    let (r2, free2, e2, _, _, (queued2, live2, told2), moves2) =
      start_loop-Moves (length r1.pending) cycle r1 free1 sound1 (omega arith) in
    let (kept, left, e3, live3, told3, moves3) =
      drop_finished-Moves cycle (ids r2.pending) [] r2.running r2.left tt live2 told2 in
    rw (e1, e2, e3)
      (_, refl, (queued2, live3, told3), Moves-trans moves1 (Moves-trans moves2 moves3))

-- A predicate that `cancel` keeps holds of a list after `cancel_id`.
All-cancel_id :
    (P : Process → Type 0)
    → ((p : Process) → P p → P (cancel p))
    → (id : ℕ) (procs : List Process) → All P procs
    → All P (cancel_id id procs)
unfolding cancel_id
All-cancel_id P keep id [] h = tt
All-cancel_id P keep id (p ∷ procs) (h, hs) = elim (Bool-cases (nat_eqb p.id id)) [
  | inl e ↦ rw e (keep p h, All-cancel_id P keep id procs hs)
  | inr e ↦ rw e (h, All-cancel_id P keep id procs hs)
]

ids-cancel_id : (id : ℕ) (procs : List Process) → ids (cancel_id id procs) ≡ ids procs
unfolding cancel_id ids
ids-cancel_id id [] = refl
ids-cancel_id id (p ∷ procs) = elim (Bool-cases (nat_eqb p.id id)) [
  | inl e ↦ rw e (ap (◌∷◌ p.id) (ids-cancel_id id procs))
  | inr e ↦ rw e (ap (◌∷◌ p.id) (ids-cancel_id id procs))
]

IsOpen-cancel : (f : Future) → IsOpen f → IsOpen (cancel_future f)
IsOpen-cancel waiting h = tt
IsOpen-cancel cancelled h = tt
IsOpen-cancel (resolved result) h = absurd h

IsSettled-cancel : (f : Future) → IsSettled f → IsSettled (cancel_future f)
IsSettled-cancel waiting h = absurd h
IsSettled-cancel cancelled h = tt
IsSettled-cancel (resolved result) h = tt

cancel_process-IsSound : (id : ℕ) (r : ProcessRunner) → IsSound r → IsSound (cancel_process id r)
unfolding cancel_process
cancel_process-IsSound id r (queued, live, told) = (
  All-cancel_id IsQueued (λ p (open_, _). (IsOpen-cancel p.future open_, refl)) id r.pending queued,
  All-cancel_id IsLive (λ p (started, (open_, _)). (started, (IsOpen-cancel p.future open_, refl)))
      id r.running live,
  All-cancel_id (λ p. IsSettled p.future) (λ p h. IsSettled-cancel p.future h) id r.left told,
)

state-cancel_process : (id : ℕ) (r : ProcessRunner) → state (cancel_process id r) ≡ state r
unfolding cancel_process
state-cancel_process id r =
    rw (ids-cancel_id id r.pending, ids-cancel_id id r.running, ids-cancel_id id r.left) refl

-- The bound and the count of each process go along with the moves.
moved :
    {bound : ℕ} (submitted : List ℕ) (r r' : ProcessRunner)
    → Moves bound (state r) (state r')
    → length r.running ≤ bound
    → ((id : ℕ) → total id (state r) ≡ count id submitted)
    → (length r'.running ≤ bound) × ((id : ℕ) → total id (state r') ≡ count id submitted)
moved submitted r r' moves few each = (
  rw (← length-ids r'.running) (Moves-bound moves (rw (length-ids r.running) few)),
  λ id. Moves-total id moves ∙ each id,
)

-- In every runner that calls lead to, at most MAX_RUNNING processes run, each submitted process
-- stands in one of the lists as often as it was submitted, those that run are live, and whoever
-- awaits a process that was dropped has its result or cancelled it.
pub Reach-IsSound :
    {bound : ℕ} {submitted : List ℕ} {r : ProcessRunner}
    → Reach bound submitted r
    → (length r.running ≤ bound) × ((id : ℕ) → total id (state r) ≡ count id submitted) × IsSound r
unfolding total count ids
Reach-IsSound (begin now) = (omega arith, λ id. refl, (tt, tt, tt))
Reach-IsSound (submit id cmd memory time timeout reach) =
    let (few, each, (queued, live, told)) = Reach-IsSound reach in
    (few, λ i. omega (arith, each i), (((tt, refl), queued), live, told))
Reach-IsSound (cancel_one {r = r} id reach) =
    let (few, each, sound) = Reach-IsSound reach in
    let moves : Moves _ (state r) (state (cancel_process id r)) =
      rw (state-cancel_process id r) done in
    let (few', each') = moved _ r (cancel_process id r) moves few each in
    (few', each', cancel_process-IsSound id r sound)
Reach-IsSound (polled {r = r} {r' = r'} cycle same reach returns) =
    let (few, each, sound) = Reach-IsSound reach in
    let (r1, e1, sound1, moves) = poll_runner-Moves cycle r sound in
    let r1_eq : r1 ≡ r' = cc in
    let (few', each') = moved _ r r1 (rw (← same) moves) few each in
    rw (← r1_eq) (few', each', sound1)

-- A poll of a runner that calls lead to raises nothing, and it does what the plan allows: a
-- sequence of moves, each of which starts the process on top of those that wait while fewer than
-- MAX_RUNNING run, stops the one that was started last, or drops one.
pub poll_runner-refines :
    {bound : ℕ} {submitted : List ℕ} {r : ProcessRunner} (cycle : Cycle)
    → Reach bound submitted r
    → cycle.max_running ≡ bound
    → (r' : ProcessRunner) × (poll_runner cycle r ≡ ok r') × Moves bound (state r) (state r')
poll_runner-refines {r = r} cycle reach same =
    let (r', e, _, moves) = poll_runner-Moves cycle r (Reach-IsSound reach).2 in
    (r', e, rw (← same) moves)
