-- ===== src/Conductor/Runner/Progress.antt =====
-- How a poll of `ProcessRunner` of conductor.py ends, and that it goes on.
use ibex.Base.{
  nat_eq, ℕ, suc, ◌+◌, ◌<◌, ◌≡◌, refl, ap, true, false, List, [], ◌∷◌, ◌++◌, length, length-append,
  arith,
}
use ibex.Base.Results.{ok}
use ibex.Conductor.Process.{Process}
use ibex.Conductor.Runner.{
  global_memory_buffer, ProcessRunner, Cycle, may_start, start_last, start_loop, kill_loop,
  poll_runner, mem_avail, must_kill,
}
use ibex.Conductor.Runner.Loops.{start_last-Moves, kill_loop-Moves, start_loop-Moves}
use ibex.Conductor.Runner.Drops.{drop_finished-Moves}
use ibex.Conductor.Runner.Sound.{ids, IsSound, pop-append}
use ibex.Conductor.Runner.Reach.{Reach, Reach-IsSound}

-- The loops of a poll end by their tests, not for want of fuel: behind the first one the memory
-- is free, at most one process runs or killing is off; behind the second one MAX_RUNNING processes
-- run, none waits, or the one on top needs more memory than is free.
poll_runner-ends :
    {bound : ℕ} {submitted : List ℕ} {r : ProcessRunner} (cycle : Cycle)
    → Reach bound submitted r
    → (killed : ProcessRunner × ℕ) × (kill_loop (length r.running) cycle (r, mem_avail cycle r)
        ≡ ok killed)
      × (must_kill cycle killed ≡ false)
      × (may_start cycle (start_loop (length (killed.0).pending) cycle killed) ≡ false)
poll_runner-ends {r = r} cycle reach =
    let (r1, free1, e1, ends1, sound1, _) =
      kill_loop-Moves (length r.running) cycle r (mem_avail cycle r) (Reach-IsSound reach).2
        (omega arith) in
    let (r2, free2, e2, ends2, _, _, _) =
      start_loop-Moves (length r1.pending) cycle r1 free1 sound1 (omega arith) in
    ((r1, free1), e1, ends1, rw e2 ends2)

kill_loop-idle :
    (cycle : Cycle) (r : ProcessRunner) (free : ℕ)
    → r.running ≡ []
    → kill_loop (length r.running) cycle (r, free) ≡ ok (r, free)
unfolding kill_loop
kill_loop-idle cycle r free idle = rw (kill_loop, idle) refl

may_start-fits :
    (cycle : Cycle) (r : ProcessRunner) (free : ℕ) (ws : List Process) (p : Process)
    → r.pending ≡ ws ++ (p ∷ [])
    → length r.running < cycle.max_running
    → p.expected_memory + global_memory_buffer < free
    → may_start cycle (r, free) ≡ true
unfolding may_start
may_start-fits cycle r free ws p waits room fits =
    rw (may_start, waits, pop-append ws p) (ground arith)

start_loop-suc :
    (fuel : ℕ) (cycle : Cycle) (s : ProcessRunner × ℕ)
    → may_start cycle s ≡ true
    → start_loop (suc fuel) cycle s ≡ start_loop fuel cycle (start_last cycle s)
unfolding start_loop
start_loop-suc fuel cycle s may = rw (start_loop, may) refl

-- Where none runs and the process on top of those that wait fits into the memory, with the buffer
-- of 5 GB and MAX_RUNNING above 0, a poll leaves fewer that wait.
pub poll_runner-progress :
    {bound : ℕ} {submitted : List ℕ} {r : ProcessRunner} (cycle : Cycle)
    → Reach bound submitted r
    → cycle.max_running ≡ bound
    → 0 < bound
    → r.running ≡ []
    → (ws : List Process) (p : Process) → r.pending ≡ ws ++ (p ∷ [])
    → p.expected_memory + global_memory_buffer < mem_avail cycle r
    → (r' : ProcessRunner) × (poll_runner cycle r ≡ ok r') × (length r'.pending < length r.pending)
unfolding poll_runner
poll_runner-progress {r = r} cycle reach same room idle ws p waits fits =
    let sound : IsSound r = (Reach-IsSound reach).2 in
    let count_ws : length r.pending ≡ suc (length ws) =
      omega (arith, ap length waits, length-append ws (p ∷ [])) in
    let may : may_start cycle (r, mem_avail cycle r) ≡ true =
      may_start-fits cycle r _ ws p waits (omega (arith, ap length idle)) fits in
    let (r1, free1, e1, sound1, fewer1, _) =
      start_last-Moves cycle r (mem_avail cycle r) sound may in
    let (r2, free2, e2, _, fewer2, (queued2, live2, told2), _) =
      start_loop-Moves (length ws) cycle r1 free1 sound1 (omega (arith, count_ws)) in
    let (kept, left, e3, _, _, _) =
      drop_finished-Moves cycle (ids r2.pending) [] r2.running r2.left tt live2 told2 in
    rw
      (
        kill_loop-idle cycle r (mem_avail cycle r) idle,
        count_ws,
        start_loop-suc (length ws) cycle (r, mem_avail cycle r) may,
        e1,
        e2,
        e3,
      )
      (_, refl, omega arith)
