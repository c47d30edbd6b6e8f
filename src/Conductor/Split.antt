-- ===== src/Conductor/Split.antt =====
-- `split_by_prefixes` of conductor.py, and `find_all` of its `build_strategy_rec`.
pub mod Leaves
use ibex.Base.{
  ℕ, zero, suc, Bool, true, false, ◌&&◌, leb, nat_eqb, if◌then◌else◌, List, [], ◌∷◌, ◌++◌, map,
  length,
}
use Prim.Native.Nat.{max}
use ibex.Base.Dict.{Dict}
use ibex.Base.Grouping.{append_to}
use ibex.Base.Results.{Result, err, ok, ◌>>=◌}
use ibex.Base.Text.{Text, text_eq}

-- A list whose elements are names or lists.
pub data PropTree : Type 0 where
  nil : PropTree
  prop : Text → PropTree → PropTree
  tree : PropTree → PropTree → PropTree

-- `chunks[0]` of no chunks; and the end of the fuel of the model.
pub data SplitError : Type 0 where
  index_error out_of_fuel : SplitError

abbrev is_capital : ℕ → Bool
is_capital c = leb b'A' c && leb c b'Z'

-- The text in front of the first match of `_([A-Z])|_|([A-Z])`, and for each match its capital
-- with the text up to the next one.
unfoldable pub scan : Text → Text × List Text
scan [] = ([], [])
scan (c ∷ []) = elim (nat_eqb c b'_') [
  | true ↦ ([], [] ∷ [])
  | false ↦ elim (is_capital c) [ true ↦ ([], (c ∷ []) ∷ []) | false ↦ (c ∷ [], []) ]
]
scan (c ∷ d ∷ s) = elim (nat_eqb c b'_') [
  | true ↦ elim (is_capital d) [
    | true ↦ let (text, chunks) = scan s in ([], (d ∷ text) ∷ chunks)
    | false ↦ let (text, chunks) = scan (d ∷ s) in ([], text ∷ chunks)
  ]
  | false ↦
      let (text, chunks) = scan (d ∷ s) in
      elim (is_capital c) [ true ↦ ([], (c ∷ text) ∷ chunks) | false ↦ (c ∷ text, chunks) ]
]

unfoldable pub chunk_name : Text → List Text
unfolding scan
chunk_name name =
    let (text, chunks) = scan name in elim text [ [] ↦ chunks | c ∷ rest ↦ (c ∷ rest) ∷ chunks ]

-- The chunks of a name that are still to be told apart, and the name.
abbrev pub Chunked : Type 0
Chunked = List Text × Text

abbrev pub Buckets : Type 0
Buckets = Dict Text (List Chunked)

-- The first loop of `group`: names that end here are done, the others go into a bucket.
unfoldable pub fill : List Chunked → Buckets → List Text → Result SplitError (Buckets × List Text)
unfolding append_to
fill [] buckets done = ok (buckets, done)
fill (([], name) ∷ props) buckets done = err index_error
fill ((_ ∷ [], name) ∷ props) buckets done = fill props buckets (done ++ (name ∷ []))
fill ((chunk ∷ next ∷ chunks, name) ∷ props) buckets done =
    fill props (append_to chunk (next ∷ chunks, name) buckets) done

-- The second loop appends the group of each bucket.
unfoldable pub group_buckets :
    (List Chunked → Result SplitError PropTree) → Buckets → Result SplitError PropTree
group_buckets group [] = ok nil
group_buckets group ((pre, props) ∷ buckets) =
    group props >>= λ bucket. group_buckets group buckets >>= λ rest. ok (tree bucket rest)

abbrev pub with_names : List Text → PropTree → PropTree
with_names [] rest = rest
with_names (name ∷ names) rest = prop name (with_names names rest)

-- Each level takes a chunk off, so that fuel as the longest list of chunks is enough.
unfoldable pub group : ℕ → List Chunked → Result SplitError PropTree
unfolding fill group_buckets
group zero [] = ok nil
group zero (p ∷ props) = err out_of_fuel
group (suc fuel) props = fill props [] [] >>= λ (buckets, done).
    group_buckets (group fuel) buckets >>= λ rest. ok (with_names done rest)

unfoldable pub longest : List Chunked → ℕ
longest [] = 1
longest ((chunks, name) ∷ props) = max (length chunks) (longest props)

unfoldable pub split_by_prefixes : List Text → Result SplitError PropTree
unfolding chunk_name group longest
split_by_prefixes names =
    let chunked_names = map (λ name. (chunk_name name, name)) names in
    group (longest chunked_names) chunked_names

-- `find_all`: the names in a tree, from left to right.
unfoldable pub find_all : PropTree → List Text
find_all nil = []
find_all (prop name rest) = name ∷ find_all rest
find_all (tree sub rest) = find_all sub ++ find_all rest
