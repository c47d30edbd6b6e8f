-- ===== src/Conductor/Runner/Sound.antt =====
-- When the lists of `ProcessRunner` of conductor.py are sound, and how they stand in the plan.
use ibex.Base.{ℕ, suc, ◌≡◌, ◌⊎◌, inl, inr, refl, ap, some, List, [], ◌∷◌, ◌++◌, length, All}
use ibex.Conductor.Process.{Process}
use ibex.Conductor.Process.Outcome.{IsQueued, IsLive, IsSettled}
use ibex.Conductor.Runner.{ProcessRunner, pop}
use ibex.Conductor.Runner.Plan.{State}

unfoldable pub ids : List Process → List ℕ
ids [] = []
ids (proc ∷ procs) = proc.id ∷ ids procs

pub ids-append : (xs ys : List Process) → ids (xs ++ ys) ≡ ids xs ++ ids ys
unfolding ids
ids-append [] ys = refl
ids-append (x ∷ xs) ys = ap (◌∷◌ x.id) (ids-append xs ys)

pub ids-last :
    (xs : List Process) (p q : Process) → q.id ≡ p.id → ids (xs ++ (q ∷ [])) ≡ ids xs ++ (p.id ∷ [])
unfolding ids
ids-last xs p q same = rw (ids-append xs (q ∷ []), same) refl

pub length-ids : (xs : List Process) → length (ids xs) ≡ length xs
unfolding ids
length-ids [] = refl
length-ids (x ∷ xs) = ap suc (length-ids xs)

abbrev pub state : ProcessRunner → State
state r = record { waiting = ids r.pending; running = ids r.running; over = ids r.left }

-- Those that run are live, and whoever awaits a process that was dropped has been told.
abbrev pub IsSound : ProcessRunner → Type 0
IsSound r = All IsQueued r.pending × All IsLive r.running × All (λ p. IsSettled p.future) r.left

pub pop-append {ℓ} : {A : Type ℓ} (xs : List A) (x : A) → pop (xs ++ (x ∷ [])) ≡ some (xs, x)
unfolding pop
pop-append [] x = refl
pop-append (y ∷ xs) x = rw (pop-append xs x) refl

pub pop-cases {ℓ} :
    {A : Type ℓ} (xs : List A) → (xs ≡ []) ⊎ ((ys : List A) × (y : A) × (xs ≡ ys ++ (y ∷ [])))
pop-cases [] = inl refl
pop-cases (x ∷ xs) = elim (pop-cases xs) [
  | inl e ↦ inr ([], x, rw e refl)
  | inr (ys, y, e) ↦ inr (x ∷ ys, y, rw e refl)
]

pub All-last :
    (P : Process → Type 0) (xs : List Process) (x : Process)
    → All P (xs ++ (x ∷ []))
    → All P xs × P x
All-last P [] x (p, _) = (tt, p)
All-last P (y ∷ xs) x (p, ps) = let (a, b) = All-last P xs x ps in ((p, a), b)
