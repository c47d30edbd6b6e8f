-- ===== src/Conductor/Runner/Drops.antt =====
-- The loop of `ProcessRunner.poll` of conductor.py that drops processes, as moves.
use ibex.Base.{
  ℕ, ◌≡◌, inl, inr, refl, List, [], ◌∷◌, ◌++◌, All, All-append, append_assoc, append-nil,
}
use ibex.Base.Results.{ok}
use ibex.Conductor.Process.{Process}
use ibex.Conductor.Process.Outcome.{IsLive, IsSettled, poll-cases}
use ibex.Conductor.Runner.{Cycle, drop_finished}
use ibex.Conductor.Runner.Plan.{Move, finish, Moves, done, more, Moves-trans}
use ibex.Conductor.Runner.Sound.{ids, ids-append, ids-last}

-- The third loop drops those whose poll says that they are over.
pub drop_finished-Moves :
    (cycle : Cycle) (ws : List ℕ) (kept next left : List Process)
    → All IsLive kept
    → All IsLive next
    → All (λ p. IsSettled p.future) left
    → (kept' : List Process) × (left' : List Process) × (drop_finished cycle kept next left
        ≡ ok (kept', left'))
      × All IsLive kept'
      × All (λ p. IsSettled p.future) left'
      × Moves cycle.max_running
          (record { waiting = ws; running = ids (kept ++ next); over = ids left })
          (record { waiting = ws; running = ids kept'; over = ids left' })
unfolding drop_finished ids
drop_finished-Moves cycle ws kept [] left live _ told =
    (kept, left, refl, live, told, rw (append-nil kept) done)
drop_finished-Moves cycle ws kept (p ∷ next) left live (p_live, next_live) told =
    elim (poll-cases (cycle.see p) p p_live) [
      | inl (q, returns, same, settled) ↦
          let (kept', left', e, live', told', moves) =
            drop_finished-Moves cycle ws kept next (left ++ (q ∷ [])) live next_live
              (All-append (λ p. IsSettled p.future) left (q ∷ []) told (settled, tt)) in
          rw (drop_finished, returns)
            (kept', left', e, live', told', Moves-trans (more done (gone q same)) moves)
      | inr (q, returns, same, q_live) ↦
          let (kept', left', e, live', told', moves) =
            drop_finished-Moves cycle ws (kept ++ (q ∷ [])) next left
              (All-append IsLive kept (q ∷ []) live (q_live, tt)) next_live told in
          rw (drop_finished, returns) (kept', left', e, live', told', rw (goes_on q same) moves)
    ]
  where
    goes_on :
        (q : Process) → q.id ≡ p.id → ids (kept ++ (p ∷ next)) ≡ ids ((kept ++ (q ∷ [])) ++ next)
    goes_on q same =
        rw
          (
            ids-append kept (p ∷ next),
            ids-append (kept ++ (q ∷ [])) next,
            ids-last kept p q same,
            append_assoc (ids kept) (p.id ∷ []) (ids next),
          )
          refl

    gone :
        (q : Process)
        → q.id ≡ p.id
        → Move cycle.max_running
            (record { waiting = ws; running = ids (kept ++ (p ∷ next)); over = ids left })
            (record { waiting = ws; running = ids (kept ++ next); over = ids (left ++ (q ∷ [])) })
    gone q same =
        rw (ids-append kept (p ∷ next), ids-append kept next, ids-last left p q same)
          (finish _ _ _ _ _)
