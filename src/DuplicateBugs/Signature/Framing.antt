-- ===== src/DuplicateBugs/Signature/Framing.antt =====
-- The bytes that `diff_signature` of find_duplicate_bug.py hashes determine the files.
use ibex.Base.{
  ℕ, ◌≡◌, ◌≢◌, refl, sym, ap, ◌∙◌, List, [], ◌∷◌, ◌++◌, length, drop, All, All-implies, arith,
}
use ibex.Base.Decimals.{IsDigit, value, value-str, str-All}
use ibex.Base.Results.{Result, ok, ◌>>=◌, >>=-eq-ok}
use ibex.Base.Text.{Text, str}
use ibex.DuplicateBugs.{DiffFile}
use ibex.DuplicateBugs.Signature.{sized, frame, hashed}

-- Two texts without a zero, each in front of a zero, can be told from what follows.
cut-zero :
    (xs ys us vs : List ℕ)
    → All (λ d. d ≢ 0) xs
    → All (λ d. d ≢ 0) ys
    → xs ++ (0 ∷ us) ≡ ys ++ (0 ∷ vs)
    → (xs ≡ ys) × (us ≡ vs)
cut-zero [] [] us vs _ _ e = (refl, cc)
cut-zero [] (y ∷ ys) us vs _ (h, _) e = absurd (h (cc))
cut-zero (x ∷ xs) [] us vs (h, _) _ e = absurd (h (cc))
cut-zero (x ∷ xs) (y ∷ ys) us vs (_, hx) (_, hy) e =
    let heads : x ≡ y = cc in
    let tails : xs ++ (0 ∷ us) ≡ ys ++ (0 ∷ vs) = cc in
    let (e1, e2) = cut-zero xs ys us vs hx hy tails in (cc, e2)

cut-length :
    (xs ys us vs : List ℕ) → length xs ≡ length ys → xs ++ us ≡ ys ++ vs → (xs ≡ ys) × (us ≡ vs)
cut-length [] [] us vs _ e = (refl, e)
cut-length [] (y ∷ ys) us vs h e = absurd (omega arith)
cut-length (x ∷ xs) [] us vs h e = absurd (omega arith)
cut-length (x ∷ xs) (y ∷ ys) us vs h e =
    let heads : x ≡ y = cc in
    let tails : xs ++ us ≡ ys ++ vs = cc in
    let (e1, e2) = cut-length xs ys us vs (omega arith) tails in (cc, e2)

str-nonzero : (n : ℕ) → All (λ d. d ≢ 0) (str n)
str-nonzero n =
    All-implies IsDigit (λ d. d ≢ 0) (λ d (low, high) e. omega arith) (str n) (str-All n)

cut-sized : (xs ys us vs : List ℕ) → sized xs us ≡ sized ys vs → (xs ≡ ys) × (us ≡ vs)
unfolding sized str
cut-sized xs ys us vs e =
    let (e1, e2) =
      cut-zero (str (length xs)) (str (length ys)) (xs ++ us) (ys ++ vs) (str-nonzero (length xs))
        (str-nonzero (length ys)) e in
    let same : length xs ≡ length ys =
      sym (value-str (length xs)) ∙ ap (value 0) e1 ∙ value-str (length ys) in
    cut-length xs ys us vs same e2

cut-frame :
    (n n' d d' r r' : List ℕ) → frame n d r ≡ frame n' d' r' → (n ≡ n') × (d ≡ d') × (r ≡ r')
unfolding frame
cut-frame n n' d d' r r' e =
    let (en, e1) = cut-sized n n' _ _ (ap (drop 5) e) in
    let (ed, e2) = cut-sized d d' _ _ (ap (drop 6) e1) in (en, ed, ap (drop 5) e2)

-- The names and bytes of files that were read.
unfoldable pub contents : List DiffFile → Result Text (List (List ℕ × List ℕ))
contents [] = ok []
contents (file ∷ files) =
    file.read >>= λ content. contents files >>= λ rest. ok ((file.name_bytes, content) ∷ rest)

frame-some : (n d r : List ℕ) → frame n d r ≢ []
unfolding frame
frame-some n d r e = cc

contents-cons :
    (file : DiffFile) (files : List DiffFile) (d : List ℕ) (rest : List (List ℕ × List ℕ))
    → file.read ≡ ok d
    → contents files ≡ ok rest
    → contents (file ∷ files) ≡ ok ((file.name_bytes, d) ∷ rest)
unfolding contents
contents-cons file files d rest e1 e2 = rw (e1, e2) refl

hashed-cons :
    (file : DiffFile) (files : List DiffFile) (bytes : List ℕ)
    → hashed (file ∷ files) ≡ ok bytes
    → (d : List ℕ) × (r : List ℕ) × (file.read ≡ ok d)
      × (hashed files ≡ ok r)
      × (frame file.name_bytes d r ≡ bytes)
unfolding hashed
hashed-cons file files bytes e =
    let (d, read, e1) =
      >>=-eq-ok file.read
        (λ content. hashed files >>= λ rest. ok (frame file.name_bytes content rest)) e in
    let (r, more, e2) = >>=-eq-ok (hashed files) (λ rest. ok (frame file.name_bytes d rest)) e1 in
    (d, r, read, more, cc)

-- Two bundles of files that can be read feed the same bytes to the hash only if they have the
-- same names and bytes, in the same order: no bundle can be mistaken for another.
pub hashed_injective :
    (files others : List DiffFile) (bytes : List ℕ)
    → hashed files ≡ ok bytes
    → hashed others ≡ ok bytes
    → (both : List (List ℕ × List ℕ)) × (contents files ≡ ok both) × (contents others ≡ ok both)
unfolding hashed contents
hashed_injective [] [] bytes e1 e2 = ([], refl, refl)
hashed_injective [] (g ∷ others) bytes e1 e2 =
    let (d, r, _, _, e) = hashed-cons g others bytes e2 in absurd (frame-some g.name_bytes d r (cc))
hashed_injective (f ∷ files) [] bytes e1 e2 =
    let (d, r, _, _, e) = hashed-cons f files bytes e1 in absurd (frame-some f.name_bytes d r (cc))
hashed_injective (f ∷ files) (g ∷ others) bytes e1 e2 =
    let (d, r, read1, more1, same1) = hashed-cons f files bytes e1 in
    let (d', r', read2, more2, same2) = hashed-cons g others bytes e2 in
    let (en, ed, er) = cut-frame f.name_bytes g.name_bytes d d' r r' (same1 ∙ sym same2) in
    let (both, c1, c2) = hashed_injective files others r more1 (more2 ∙ ap ok (sym er)) in
    let same : (g.name_bytes, d') ∷ both ≡ (f.name_bytes, d) ∷ both = cc in
    (
      (f.name_bytes, d) ∷ both,
      contents-cons f files d both read1 c1,
      contents-cons g others d' both read2 c2 ∙ ap ok same,
    )
