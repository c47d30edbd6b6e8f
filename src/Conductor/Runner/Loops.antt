-- ===== src/Conductor/Runner/Loops.antt =====
-- The loops of `ProcessRunner.poll` of conductor.py that stop and start processes, as moves.
use ibex.Base.{
  ℕ, zero, suc, ◌≤◌, ◌<◌, ◌≡◌, inl, inr, refl, ap, Bool, true, false, ◌&&◌, ltb, List, [], ◌∷◌,
  ◌++◌, length, All, All-append, length-append, arith, Bool-cases,
}
use ibex.Base.Results.{ok}
use ibex.Conductor.Process.{Process, kill_restart, start}
use ibex.Conductor.Process.Outcome.{IsQueued, IsLive, poll-kill_restart}
use ibex.Conductor.Runner.{
  ProcessRunner, Cycle, pop, must_kill, kill_last, kill_loop, may_start, start_last, start_loop,
}
use ibex.Conductor.Runner.Plan.{run, stop, Moves, done, more, Moves-trans}
use ibex.Conductor.Runner.Sound.{
  ids, ids-last, length-ids, state, IsSound, pop-append, pop-cases, All-last,
}

-- A round of the first loop stops the process that was started last.
kill_last-Moves :
    (cycle : Cycle) (r : ProcessRunner) (free : ℕ)
    → IsSound r
    → 1 < length r.running
    → (r' : ProcessRunner) × (free' : ℕ) × (kill_last cycle (r, free) ≡ ok (r', free'))
      × IsSound r'
      × (suc (length r'.running) ≡ length r.running)
      × Moves cycle.max_running (state r) (state r')
unfolding kill_last
kill_last-Moves cycle r free (queued, live, told) long = elim (pop-cases r.running) [
  | inl e ↦ absurd (omega (arith, ap length e))
  | inr (rs, p, e) ↦ stop_last rs p e (All-last IsLive rs p (rw (← e) live))
]
  where
    others : (rs : List Process) (p : Process) → r.running ≡ rs ++ (p ∷ []) → 0 < length (ids rs)
    others rs p e = omega (arith, length-ids rs, length-append rs (p ∷ []), ap length e, long)

    stop_last :
        (rs : List Process) (p : Process)
        → r.running ≡ rs ++ (p ∷ [])
        → All IsLive rs × IsLive p
        → (r' : ProcessRunner) × (free' : ℕ) × (kill_last cycle (r, free) ≡ ok (r', free'))
          × IsSound r'
          × (suc (length r'.running) ≡ length r.running)
          × Moves cycle.max_running (state r) (state r')
    stop_last rs p e (rest, p_live) =
        let (q, returns, same, _, q_live) =
          poll-kill_restart (cycle.see (kill_restart p)) p p_live.0 p_live.1.0 in
        rw (kill_last, e, pop-append rs p, returns)
          (
            _,
            _,
            refl,
            (All-append IsQueued r.pending (q ∷ []) queued (q_live.1, tt), rest, told),
            omega (arith, length-append rs (p ∷ [])),
            rw (ids-last rs p p refl, ids-last r.pending p q same)
                (more done (stop _ _ _ _ (others rs p e))),
          )

-- The first loop ends by its test.
pub kill_loop-Moves :
    (fuel : ℕ) (cycle : Cycle) (r : ProcessRunner) (free : ℕ)
    → IsSound r
    → length r.running ≤ fuel
    → (r' : ProcessRunner) × (free' : ℕ) × (kill_loop fuel cycle (r, free) ≡ ok (r', free'))
      × (must_kill cycle (r', free') ≡ false)
      × IsSound r'
      × Moves cycle.max_running (state r) (state r')
unfolding kill_loop
kill_loop-Moves zero cycle r free sound h = (r, free, refl, idle r h, sound, done)
  where
    idle : (r : ProcessRunner) → length r.running ≤ 0 → must_kill cycle (r, free) ≡ false
    idle r h = ground arith
kill_loop-Moves (suc fuel) cycle r free sound h = elim (Bool-cases (must_kill cycle (r, free))) [
  | inr e ↦ rw (kill_loop, e) (r, free, refl, e, sound, done)
  | inl e ↦
      let (r1, free1, e1, sound1, shorter, moves1) = kill_last-Moves cycle r free sound (many e) in
      let (r2, free2, e2, ends, sound2, moves2) =
        kill_loop-Moves fuel cycle r1 free1 sound1 (omega arith) in
      rw (kill_loop, e, e1) (r2, free2, e2, ends, sound2, Moves-trans moves1 moves2)
]
  where
    many : must_kill cycle (r, free) ≡ true → 1 < length r.running
    many e = ground arith

-- A round of the second loop starts the last process that waits.
pub start_last-Moves :
    (cycle : Cycle) (r : ProcessRunner) (free : ℕ)
    → IsSound r
    → may_start cycle (r, free) ≡ true
    → (r' : ProcessRunner) × (free' : ℕ) × (start_last cycle (r, free) ≡ (r', free'))
      × IsSound r'
      × (suc (length r'.pending) ≡ length r.pending)
      × Moves cycle.max_running (state r) (state r')
unfolding may_start start_last
start_last-Moves cycle r free (queued, live, told) may = elim (pop-cases r.pending) [
  | inl e ↦ absurd (none_waits e (rw (may_start, e, pop) at may))
  | inr (ws, p, e) ↦ start_next ws p e (All-last IsQueued ws p (rw (← e) queued))
]
  where
    none_waits : r.pending ≡ [] → false ≡ true → ⊥
    none_waits e h = cc

    room :
        (enough : Bool)
        → (ltb (length r.running) cycle.max_running && enough) ≡ true
        → length (ids r.running) < cycle.max_running
    room enough h = ground (arith, length-ids r.running)

    start_next :
        (ws : List Process) (p : Process)
        → r.pending ≡ ws ++ (p ∷ [])
        → All IsQueued ws × IsQueued p
        → (r' : ProcessRunner) × (free' : ℕ) × (start_last cycle (r, free) ≡ (r', free'))
          × IsSound r'
          × (suc (length r'.pending) ≡ length r.pending)
          × Moves cycle.max_running (state r) (state r')
    start_next ws p e (rest, p_queued) =
        rw (start_last, e, pop-append ws p)
          (
            _,
            _,
            refl,
            (
              rest,
              All-append IsLive r.running (start cycle.now p ∷ []) live
                  ((omega arith, p_queued), tt),
              told,
            ),
            omega (arith, length-append ws (p ∷ [])),
            rw (ids-last ws p p refl, ids-last r.running p (start cycle.now p) refl)
                (more done (run _ _ _ _ (room _ (rw (may_start, e, pop-append ws p) at may)))),
          )

-- The second loop ends by its test.
pub start_loop-Moves :
    (fuel : ℕ) (cycle : Cycle) (r : ProcessRunner) (free : ℕ)
    → IsSound r
    → length r.pending ≤ fuel
    → (r' : ProcessRunner) × (free' : ℕ) × (start_loop fuel cycle (r, free) ≡ (r', free'))
      × (may_start cycle (r', free') ≡ false)
      × (length r'.pending ≤ length r.pending)
      × IsSound r'
      × Moves cycle.max_running (state r) (state r')
unfolding start_loop
start_loop-Moves zero cycle r free sound h =
    (r, free, refl, idle r.pending refl, omega arith, sound, done)
  where
    idle : (ws : List Process) → r.pending ≡ ws → may_start cycle (r, free) ≡ false
    idle [] e = rw (may_start, e, pop) refl
    idle (w ∷ ws) e = absurd (omega (arith, ap length e))
start_loop-Moves (suc fuel) cycle r free sound h = elim (Bool-cases (may_start cycle (r, free))) [
  | inr e ↦ rw (start_loop, e) (r, free, refl, e, omega arith, sound, done)
  | inl e ↦
      let (r1, free1, e1, sound1, shorter, moves1) = start_last-Moves cycle r free sound e in
      let (r2, free2, e2, ends, fewer, sound2, moves2) =
        start_loop-Moves fuel cycle r1 free1 sound1 (omega arith) in
      rw (start_loop, e, e1) (r2, free2, e2, ends, omega arith, sound2, Moves-trans moves1 moves2)
]
