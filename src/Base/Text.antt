-- ===== src/Base/Text.antt =====
-- Python's `str` where the code walks it: a list of code points, with `strip`, `split`, `join`,
-- and the decimal print of a number. Texts that are only compared are native `String`s.
use Prim.Native.Nat.{ℕ, zero, suc, ◌+◌, ◌/◌, ◌%◌}
use Prim.Native.Char.{code}
use Prim.Native.String.{String}
use mathlib.Core.Path.{◌≡◌, refl}
use mathlib.Core.Bool.{Bool, true, false, ◌&&◌, ◌||◌}
use mathlib.Core.List.{List, [], ◌∷◌, ◌++◌, reverse}
use native.Mathlib.Decide.{ℕ_discrete}
use ibex.Base.Tests.{ltb, leb, nat_eqb, if◌then◌else◌}
use ibex.Base.Equality.{Eq}

abbrev pub Text : Type 0
Text = List ℕ

-- The code points of a literal. `String` has its own `[]` and `∷`.
abbrev pub codes : String → Text
codes String.[] = []
codes (String.◌∷◌ c s) = code c ∷ codes s

-- Written out, so that a comparison of literals computes.
unfoldable text_discrete : Discrete Text
unfolding ℕ_discrete
text_discrete [] [] = yes refl
text_discrete [] (d ∷ t) = no (λ p. cc)
text_discrete (c ∷ s) [] = no (λ p. cc)
text_discrete (c ∷ s) (d ∷ t) = both (ℕ_discrete c d) (text_discrete s t)
  where
    both : Dec (c ≡ d) → Dec (s ≡ t) → Dec ((c ∷ s) ≡ (d ∷ t))
    both (yes p) (yes q) = yes (cc)
    both (yes p) (no q) = no (λ r. q (cc))
    both (no p) q = no (λ r. p (cc))

instance unfoldable pub text_eq : Eq Text
unfolding text_discrete
text_eq = record { dec = text_discrete }

-- `str.isspace` of one code point.
unfoldable pub is_space : ℕ → Bool
is_space c =
    leb 9 c && leb c 13
    || leb 28 c && leb c 32
    || nat_eqb c 133
    || nat_eqb c 160
    || nat_eqb c 5760
    || leb 8192 c && leb c 8202
    || nat_eqb c 8232
    || nat_eqb c 8233
    || nat_eqb c 8239
    || nat_eqb c 8287
    || nat_eqb c 12288

-- `s.lower()` of ASCII text.
unfoldable pub lower : Text → Text
lower [] = []
lower (c ∷ s) = (if leb b'A' c && leb c b'Z' then c + 32 else c) ∷ lower s

unfoldable pub lstrip : Text → Text
unfolding is_space
lstrip [] = []
lstrip (c ∷ s) = if is_space c then lstrip s else c ∷ s

unfoldable pub rstrip : Text → Text
unfolding lstrip
rstrip s = reverse (lstrip (reverse s))

unfoldable pub strip : Text → Text
unfolding lstrip rstrip
strip s = rstrip (lstrip s)

-- A word that ends, if there is one.
abbrev push_word : Text → List Text → List Text
push_word [] words = words
push_word (c ∷ s) words = (c ∷ s) ∷ words

-- `s.split()`; the first argument is the word that is being read.
unfoldable pub split_words : Text → Text → List Text
unfolding is_space
split_words cur [] = push_word cur []
split_words cur (c ∷ s) = elim (is_space c) [
  | true ↦ push_word cur (split_words [] s)
  | false ↦ split_words (cur ++ c ∷ []) s
]

-- `s.split(sep)` for a separator of one code point; the second argument is the part being read.
unfoldable pub split_on : ℕ → Text → Text → List Text
split_on sep cur [] = cur ∷ []
split_on sep cur (c ∷ s) = elim (nat_eqb c sep) [
  | true ↦ cur ∷ split_on sep [] s
  | false ↦ split_on sep (cur ++ c ∷ []) s
]

-- `sep.join(parts)`
unfoldable pub join : Text → List Text → Text
join sep [] = []
join sep (p ∷ []) = p
join sep (p ∷ q ∷ ps) = p ++ (sep ++ join sep (q ∷ ps))

unfoldable pub starts_with : Text → Text → Bool
starts_with s [] = true
starts_with [] (p ∷ ps) = false
starts_with (c ∷ s) (p ∷ ps) = nat_eqb c p && starts_with s ps

-- `needle in s`
unfoldable pub has_substring : Text → Text → Bool
unfolding starts_with
has_substring needle [] = starts_with [] needle
has_substring needle (c ∷ s) = starts_with (c ∷ s) needle || has_substring needle s

-- `str(n)`. A number has fewer digits than its value plus two, so this fuel is enough.
unfoldable pub digits : ℕ → ℕ → Text
digits zero n = []
digits (suc fuel) n =
    let rest = digits fuel (n / 10) in
    if ltb n 10 then (b'0' + n) ∷ [] else rest ++ (b'0' + n % 10) ∷ []

unfoldable pub str : ℕ → Text
unfolding digits
str n = digits (suc n) n

-- `s <= t`, by code points.
unfoldable pub text_leb : Text → Text → Bool
text_leb [] t = true
text_leb (c ∷ s) [] = false
text_leb (c ∷ s) (d ∷ t) = ltb c d || nat_eqb c d && text_leb s t
