-- ===== src/Conductor/Runner/Plan.antt =====
-- What `ProcessRunner` of conductor.py promises, without memory, time and errors: processes wait,
-- run or are over, and one of them moves at a time.
use ibex.Base.{
  nat_eq, ℕ, ◌+◌, ◌≤◌, ◌<◌, ◌≡◌, refl, List, [], ◌∷◌, ◌++◌, length, length-append, arith,
}
use ibex.Base.Counts.{count, count-append}

pub record State : Type 0 where
  pub waiting : List ℕ
  pub running : List ℕ
  pub over : List ℕ

-- The ones that wait are a stack that new ones enter from below. A running process goes back on
-- top of it where another one runs too.
pub data Move (bound : ℕ) : State → State → Type 0 where
  run :
      (ws rs os : List ℕ) (id : ℕ)
      → length rs < bound
      → Move bound
          (record { waiting = ws ++ (id ∷ []); running = rs; over = os })
          (record { waiting = ws; running = rs ++ (id ∷ []); over = os })
  stop :
      (ws rs os : List ℕ) (id : ℕ)
      → 0 < length rs
      → Move bound
          (record { waiting = ws; running = rs ++ (id ∷ []); over = os })
          (record { waiting = ws ++ (id ∷ []); running = rs; over = os })
  finish :
      (ws front back os : List ℕ) (id : ℕ)
      → Move bound
          (record { waiting = ws; running = front ++ (id ∷ back); over = os })
          (record { waiting = ws; running = front ++ back; over = os ++ (id ∷ []) })

pub data Moves (bound : ℕ) (s : State) : State → Type 0 where
  done : Moves bound s s
  more : {t u : State} → Moves bound s t → Move bound t u → Moves bound s u

pub Moves-trans : {bound : ℕ} {s t u : State} → Moves bound s t → Moves bound t u → Moves bound s u
Moves-trans a done = a
Moves-trans a (more b m) = more (Moves-trans a b) m

-- How often a process stands in the lists.
unfoldable pub total : ℕ → State → ℕ
unfolding count
total i s = count i s.waiting + count i s.running + count i s.over

Move-total : {bound : ℕ} {s t : State} (i : ℕ) → Move bound s t → total i t ≡ total i s
unfolding total count
Move-total i (run ws rs os id h) =
    omega (arith, count-append i ws (id ∷ []), count-append i rs (id ∷ []))
Move-total i (stop ws rs os id h) =
    omega (arith, count-append i ws (id ∷ []), count-append i rs (id ∷ []))
Move-total i (finish ws front back os id) = omega (
  arith,
  count-append i front (id ∷ back),
  count-append i front back,
  count-append i os (id ∷ []),
)

pub Moves-total : {bound : ℕ} {s t : State} (i : ℕ) → Moves bound s t → total i t ≡ total i s
Moves-total i done = refl
Moves-total i (more a m) = omega (arith, Moves-total i a, Move-total i m)

Move-bound :
    {bound : ℕ} {s t : State} → Move bound s t → length s.running ≤ bound → length t.running ≤ bound
Move-bound (run ws rs os id h) b = omega (arith, length-append rs (id ∷ []))
Move-bound (stop ws rs os id h) b = omega (arith, length-append rs (id ∷ []))
Move-bound (finish ws front back os id) b =
    omega (arith, length-append front (id ∷ back), length-append front back)

pub Moves-bound :
    {bound : ℕ} {s t : State}
    → Moves bound s t
    → length s.running ≤ bound
    → length t.running ≤ bound
Moves-bound done b = b
Moves-bound (more a m) b = Move-bound m (Moves-bound a b)
