-- ===== src/Conductor/Strategy/File.antt =====
-- Strategies of conductor.py that are read back, and what they lack.
use ibex.Base.{◌≡◌, refl, ◌&&◌, ◌||◌, not, Option, none, some, List, [], ◌∷◌, ◌++◌, contains, arith}
use ibex.Base.Int.{ℤ}
use ibex.Base.Text.{Text, text_eq}
use ibex.Conductor.Strategy.{
  Strategy, code, str, or_null, as_code, as_pipe, encode_strategy, decode_strategy, done_props,
  difference, missing_from,
}

code-back : (x : Option ℤ) → as_code (some (or_null code x)) ≡ some x
code-back none = refl
code-back (some n) = refl

pipe-back : (x : Option Text) → as_pipe (some (or_null str x)) ≡ some x
pipe-back none = refl
pipe-back (some s) = refl

-- A strategy that is stored is the one that is loaded.
pub decode_strategy-encode_strategy : (s : Strategy) → decode_strategy (encode_strategy s) ≡ some s
unfolding decode_strategy encode_strategy
decode_strategy-encode_strategy s =
    rw (code-back s.procres.code, pipe-back s.procres.stdout, pipe-back s.procres.stderr) refl

pub contains-append :
    (xs ys : List Text) (x : Text) → contains (xs ++ ys) x ≡ contains xs x || contains ys x
contains-append [] ys x = refl
contains-append (y ∷ xs) ys x = ground (arith, contains-append xs ys x)

pub contains-difference :
    (props done : List Text) (p : Text)
    → contains (difference props done) p ≡ contains props p && not (contains done p)
unfolding difference
contains-difference [] done p = refl
contains-difference (q ∷ props) done p =
    ground (arith, contains-difference props done p, contains-difference props done q)

-- What `missing_from` returns is what stands in `props` and in no proof of the strategy.
pub contains-missing_from :
    (strategy : List Strategy) (props : List Text) (p : Text)
    → contains (missing_from strategy props) p
      ≡ contains props p && not (contains (done_props strategy) p)
unfolding missing_from
contains-missing_from strategy props p = contains-difference props (done_props strategy) p
