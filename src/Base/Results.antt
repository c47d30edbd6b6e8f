-- ===== src/Base/Results.antt =====
-- What a Python call ends with: the value it returns, or the exception that leaves it.
use mathlib.Core.Path.{◌≡◌, refl}
use mathlib.Core.Bool.{Bool, true, false}
use mathlib.Core.Logic.{◌⊎◌, inl, inr}

pub data Result {κ ℓ} (Raised : Type κ) (Value : Type ℓ) : Type (κ ⊔ ℓ) where
  err : Raised → Result Raised Value
  ok : Value → Result Raised Value

module _ {κ} {Raised : Type κ} where
  infixl 5 ◌>>=◌ ◌>>◌
  -- The statements behind a call run on its value; an exception skips them.
  abbrev pub ◌>>=◌ {ℓ μ} :
      {V : Type ℓ} {W : Type μ} → Result Raised V → (V → Result Raised W) → Result Raised W
  err raised >>= rest = err raised
  ok value >>= rest = rest value

  abbrev pub ◌>>◌ {μ} : {W : Type μ} → Result Raised (Unit {0}) → Result Raised W → Result Raised W
  check >> rest = check >>= λ _. rest

  -- `if test: raise raised`
  abbrev pub raise_if : Bool → Raised → Result Raised (Unit {0})
  raise_if false raised = ok tt
  raise_if true raised = err raised

  -- To split on how a call ends and keep the equation.
  pub Result-cases {ℓ} :
      {V : Type ℓ} (call : Result Raised V)
      → ((value : V) × (call ≡ ok value)) ⊎ ((raised : Raised) × (call ≡ err raised))
  Result-cases (err raised) = inr (raised, refl)
  Result-cases (ok value) = inl (value, refl)

  -- Where the whole returns, the call in front returned too.
  pub >>=-eq-ok {ℓ μ} :
      {V : Type ℓ} {W : Type μ} (call : Result Raised V) (rest : V → Result Raised W) {w : W}
      → (call >>= rest) ≡ ok w
      → (value : V) × (call ≡ ok value) × (rest value ≡ ok w)
  >>=-eq-ok (err raised) rest returns = cc
  >>=-eq-ok (ok value) rest returns = (value, refl, returns)
