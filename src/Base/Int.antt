-- ===== src/Base/Int.antt =====
-- Python's int.
use Prim.Native.Nat.{ℕ, zero, suc}
use mathlib.Core.Bool.{Bool, true, false}
use mathlib.Core.List.{◌∷◌}
use ibex.Base.Text.{Text, str}

pub data ℤ : Type 0 where
  pos negsuc : ℕ → ℤ

-- `n > 0`
abbrev pub is_positive : ℤ → Bool
is_positive (pos (suc n)) = true
is_positive _ = false

-- `n < 0`
abbrev pub is_negative : ℤ → Bool
is_negative (negsuc n) = true
is_negative _ = false

-- `n == 0`
abbrev pub is_zero : ℤ → Bool
is_zero (pos zero) = true
is_zero _ = false

-- `str(n)`
unfoldable pub show_int : ℤ → Text
unfolding str
show_int (pos n) = str n
show_int (negsuc n) = 45 ∷ str (suc n)
