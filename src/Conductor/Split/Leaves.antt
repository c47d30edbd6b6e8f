-- ===== src/Conductor/Split/Leaves.antt =====
-- The tree of `split_by_prefixes` of conductor.py holds each name as often as the list.
use ibex.Base.{
  ℕ, zero, suc, ◌+◌, ◌≤◌, ◌<◌, ◌≡◌, ◌≢◌, refl, ap, ◌∙◌, List, [], ◌∷◌, ◌++◌, length, map, All,
  arith,
}
use ibex.Base.Counts.{count, count-append}
use ibex.Base.Grouping.{append_to, dict_sum, dict_sum-append_to, All-append_to}
use ibex.Base.Results.{ok}
use ibex.Base.Text.{Text, text_eq}
use ibex.Conductor.Split.{
  PropTree, nil, tree, Chunked, Buckets, fill, group_buckets, group, longest, chunk_name,
  split_by_prefixes, find_all, with_names, scan,
}

unfoldable names_of : List Chunked → List Text
names_of [] = []
names_of ((_, name) ∷ props) = name ∷ names_of props

names_of-append : (xs ys : List Chunked) → names_of (xs ++ ys) ≡ names_of xs ++ names_of ys
unfolding names_of
names_of-append [] ys = refl
names_of-append ((_, name) ∷ xs) ys = ap (◌∷◌ name) (names_of-append xs ys)

abbrev tally : Text → List Chunked → ℕ
tally name props = count name (names_of props)

-- There is a chunk, and at most `fuel` of them.
abbrev IsFiled : ℕ → Chunked → Type 0
IsFiled fuel (chunks, name) = (0 < length chunks) × (length chunks ≤ fuel)

abbrev AreFiled : ℕ → Buckets → Type 0
AreFiled fuel buckets = All (λ (_, props). All (IsFiled fuel) props) buckets

dict_sum-filed :
    (x chunk : Text) (entry : Chunked) (buckets : Buckets)
    → dict_sum (tally x) (append_to chunk entry buckets)
      ≡ dict_sum (tally x) buckets + count x (entry.1 ∷ [])
unfolding names_of
dict_sum-filed x chunk entry buckets =
    dict_sum-append_to (tally x) (count x (entry.1 ∷ [])) chunk entry
      (λ props.
        ap (count x) (names_of-append props (entry ∷ []))
        ∙ count-append x (names_of props) (entry.1 ∷ []))
      buckets refl

fill-filed :
    (fuel : ℕ) (props : List Chunked) (buckets : Buckets) (done : List Text)
    → All (IsFiled (suc fuel)) props
    → AreFiled fuel buckets
    → (buckets' : Buckets) × (done' : List Text) × (fill props buckets done ≡ ok (buckets', done'))
      × AreFiled fuel buckets'
      × ((x : Text)
          → dict_sum (tally x) buckets' + count x done'
            ≡ tally x props + (dict_sum (tally x) buckets + count x done))
unfolding fill names_of count
fill-filed fuel [] buckets done _ filed = (buckets, done, refl, filed, λ x. omega arith)
fill-filed fuel (([], name) ∷ props) buckets done ((some_chunk, _), _) filed = absurd (omega arith)
fill-filed fuel ((_ ∷ [], name) ∷ props) buckets done (_, rest) filed =
    let (b, d, e, filed', sum) = fill-filed fuel props buckets (done ++ (name ∷ [])) rest filed in
    (b, d, e, filed', λ x. omega (arith, sum x, count-append x done (name ∷ [])))
fill-filed fuel ((chunk ∷ next ∷ chunks, name) ∷ props) buckets done ((_, few), rest) filed =
    let (b, d, e, filed', sum) =
      fill-filed fuel props (append_to chunk (next ∷ chunks, name) buckets) done rest (
        All-append_to (IsFiled fuel) chunk (next ∷ chunks, name) buckets (omega arith, omega arith)
          filed) in
    (
      b,
      d,
      e,
      filed',
      λ x. omega (arith, sum x, dict_sum-filed x chunk (next ∷ chunks, name) buckets),
    )

count-find_all-with_names :
    (x : Text) (names : List Text) (rest : PropTree)
    → count x (find_all (with_names names rest)) ≡ count x names + count x (find_all rest)
unfolding count find_all
count-find_all-with_names x [] rest = omega arith
count-find_all-with_names x (name ∷ names) rest =
    omega (arith, count-find_all-with_names x names rest)

-- A group of each bucket, where a group keeps the names of filed properties.
group_buckets-leaves :
    (fuel : ℕ)
    → ((props : List Chunked)
        → All (IsFiled fuel) props
        → (t : PropTree) × (group fuel props ≡ ok t)
          × ((x : Text) → count x (find_all t) ≡ tally x props))
    → (buckets : Buckets) → AreFiled fuel buckets
    → (t : PropTree) × (group_buckets (group fuel) buckets ≡ ok t)
      × ((x : Text) → count x (find_all t) ≡ dict_sum (tally x) buckets)
unfolding group_buckets find_all count dict_sum
group_buckets-leaves fuel keeps [] _ = (nil, refl, λ x. refl)
group_buckets-leaves fuel keeps ((pre, props) ∷ buckets) (filed, rest) =
    let (t1, e1, h1) = keeps props filed in
    let (t2, e2, h2) = group_buckets-leaves fuel keeps buckets rest in
    rw (e1, e2)
      (tree t1 t2, refl, λ x. omega (arith, h1 x, h2 x, count-append x (find_all t1) (find_all t2)))

group-leaves :
    (fuel : ℕ) (props : List Chunked)
    → All (IsFiled fuel) props
    → (t : PropTree) × (group fuel props ≡ ok t)
      × ((x : Text) → count x (find_all t) ≡ tally x props)
unfolding group names_of find_all dict_sum count
group-leaves zero [] _ = (nil, refl, λ x. refl)
group-leaves zero (p ∷ props) ((h1, h2), _) = absurd (omega arith)
group-leaves (suc fuel) props filed =
    let (buckets, done, e1, filed', sum) = fill-filed fuel props [] [] filed tt in
    let (t, e2, h) = group_buckets-leaves fuel (group-leaves fuel) buckets filed' in
    rw (e1, e2)
      (with_names done t, refl, λ x. omega (arith, sum x, h x, count-find_all-with_names x done t))

chunk_name-some : (name : Text) → name ≢ [] → 0 < length (chunk_name name)
unfolding chunk_name scan
chunk_name-some [] h = absurd (h refl)
chunk_name-some (c ∷ []) h = ground arith
chunk_name-some (c ∷ d ∷ s) h = ground arith

AreFiled-longest :
    (names : List Text)
    → All (λ name. name ≢ []) names
    → (bound : ℕ) → longest (map (λ name. (chunk_name name, name)) names) ≤ bound
    → All (IsFiled bound) (map (λ name. (chunk_name name, name)) names)
unfolding longest
AreFiled-longest [] _ bound h = tt
AreFiled-longest (name ∷ names) (some_name, rest) bound h =
    ((chunk_name-some name some_name, omega arith), AreFiled-longest names rest bound (omega arith))

names_of-chunked :
    (names : List Text) → names_of (map (λ name. (chunk_name name, name)) names) ≡ names
unfolding names_of
names_of-chunked [] = refl
names_of-chunked (name ∷ names) = ap (◌∷◌ name) (names_of-chunked names)

-- The recursion of `split_by_prefixes` ends for names that are not empty, without an exception,
-- and the tree holds each name as often as the list does: none is lost and none is new.
pub split_by_prefixes-leaves :
    (names : List Text)
    → All (λ name. name ≢ []) names
    → (t : PropTree) × (split_by_prefixes names ≡ ok t)
      × ((x : Text) → count x (find_all t) ≡ count x names)
unfolding split_by_prefixes
split_by_prefixes-leaves names named =
    let chunked : List Chunked = map (λ name. (chunk_name name, name)) names in
    let (t, e, h) =
      group-leaves (longest chunked) chunked (AreFiled-longest names named _ (omega arith)) in
    (t, e, λ x. h x ∙ ap (count x) (names_of-chunked names))
