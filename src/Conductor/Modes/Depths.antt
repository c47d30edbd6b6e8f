-- ===== src/Conductor/Modes/Depths.antt =====
-- The depths that `bmc_mode` of conductor.py reaches.
use ibex.Base.{
  ℕ, zero, suc, ◌+◌, ◌*◌, ◌<◌, ◌≡◌, ap, inl, inr, some, List, [], ◌∷◌, ◌++◌, Among, arith,
}
use ibex.Base.Text.{Text}
use ibex.Conductor.Modes.{ModeArgs, BmcCall, calls_at, bmc_rounds, bmc_mode}

-- A call for one depth.
abbrev pub call_at : ℕ → ℕ × Text → BmcCall
call_at i (step, prop) = record { step = step; prop = prop; first = i; last = some i }

Among-left : {A : Type 0} (x : A) (xs ys : List A) → Among x xs → Among x (xs ++ ys)
Among-left x [] ys i = absurd i
Among-left x (z ∷ xs) ys (inl e) = inl e
Among-left x (z ∷ xs) ys (inr i) = inr (Among-left x xs ys i)

Among-right : {A : Type 0} (x : A) (xs ys : List A) → Among x ys → Among x (xs ++ ys)
Among-right x [] ys i = i
Among-right x (z ∷ xs) ys i = inr (Among-right x xs ys i)

Among-calls_at :
    (i : ℕ) (p : ℕ × Text) (props : List (ℕ × Text))
    → Among p props
    → Among (call_at i p) (calls_at i props)
Among-calls_at i p [] among = absurd among
Among-calls_at i p (q ∷ props) (inl e) = inl (ap (call_at i) e)
Among-calls_at i p (q ∷ props) (inr among) = inr (Among-calls_at i p props among)

bmc_rounds-reaches :
    (args : ModeArgs) (rounds i k : ℕ) (props : List (ℕ × Text)) (p : ℕ × Text)
    → Among p props
    → k < rounds
    → Among (call_at (i + k * args.bmc_step) p) (bmc_rounds args rounds i props)
unfolding bmc_rounds
bmc_rounds-reaches args zero i k props p among below = absurd (omega arith)
bmc_rounds-reaches args (suc rounds) i zero props p among below =
    let start : i + 0 * args.bmc_step ≡ i = omega arith in
    rw start (Among-left (call_at i p) (calls_at i props) _ (Among-calls_at i p props among))
bmc_rounds-reaches args (suc rounds) i (suc k) props p among below =
    let later : i + args.bmc_step + k * args.bmc_step ≡ i + suc k * args.bmc_step = grind arith in
    rw (← later) (
      Among-right _ (calls_at i props) _
        (bmc_rounds-reaches args rounds (i + args.bmc_step) k props p among (omega arith)))

-- With more than one property each of them is checked at every depth `bmc_start + k * bmc_step`,
-- in the first `k + 1` rounds of the endless loop.
pub bmc_mode-reaches :
    (args : ModeArgs) (rounds k : ℕ) (p q : ℕ × Text) (props : List (ℕ × Text)) (chosen : ℕ × Text)
    → Among chosen (p ∷ q ∷ props)
    → k < rounds
    → Among
        (call_at (args.bmc_start + k * args.bmc_step) chosen)
        (bmc_mode args rounds (p ∷ q ∷ props))
unfolding bmc_mode
bmc_mode-reaches args rounds k p q props chosen among below =
    bmc_rounds-reaches args rounds args.bmc_start k (p ∷ q ∷ props) chosen among below
