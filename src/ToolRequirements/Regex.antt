-- ===== src/ToolRequirements/Regex.antt =====
-- The regular expressions of check_tool_requirements.py, as lists of all their matches in the
-- order in which Python's backtracking tries them: the first one is the match.
use ibex.Base.{
  ℕ, Bool, ◌&&◌, ◌||◌, Option, none, some, List, [], ◌∷◌, ◌++◌, map, length, drop, leb, nat_eqb,
  if◌then◌else◌,
}
use ibex.Base.Text.{Text, starts_with}

-- A part that matched, and the text behind it.
abbrev pub Matches : Type 0 → Type 0
Matches A = List (A × Text)

unfoldable pub each : {A B : Type 0} → Matches A → (A → Text → List B) → List B
each [] rest = []
each ((a, s) ∷ matches) rest = rest a s ++ each matches rest

abbrev pub first : {A : Type 0} → List A → Option A
first [] = none
first (a ∷ matches) = some a

abbrev pub is_digit : ℕ → Bool
is_digit c = leb b'0' c && leb c b'9'

abbrev pub is_hex : ℕ → Bool
is_hex c = is_digit c || leb b'a' c && leb c b'f'

abbrev longer : ℕ → Text × Text → Text × Text
longer c (part, rest) = (c ∷ part, rest)

-- `[...]+` for a class of characters: the longest match first.
unfoldable pub many : (ℕ → Bool) → Text → Matches Text
many test [] = []
many test (c ∷ s) = if test c then map (longer c) (many test s) ++ ((c ∷ [], s) ∷ []) else []

abbrev pub digits1 : Text → Matches Text
digits1 = many is_digit

unfoldable pub literal : Text → Text → Matches (Unit {0})
unfolding starts_with
literal part s = if starts_with s part then (tt, drop (length part) s) ∷ [] else []

-- `.`, which does not match a line feed.
unfoldable pub any_char : Text → Matches (Unit {0})
any_char [] = []
any_char (c ∷ s) = if nat_eqb c 10 then [] else (tt, s) ∷ []

-- `(?:part([0-9]+))?`
unfoldable pub optional : Text → Text → Matches (Option Text)
unfolding each many literal
optional part s =
    each (literal part s) (λ _ behind. map (λ (number, rest). (some number, rest)) (digits1 behind))
    ++ ((none, s) ∷ [])

-- The end of the text.
unfoldable pub at_end : Text → Matches (Unit {0})
at_end [] = (tt, []) ∷ []
at_end (c ∷ s) = []

-- `$`: the end, or a line feed that ends the text.
unfoldable pub dollar : Text → Matches (Unit {0})
dollar [] = (tt, []) ∷ []
dollar (c ∷ []) = if nat_eqb c 10 then (tt, c ∷ []) ∷ [] else []
dollar (c ∷ d ∷ s) = []
