-- ===== src/CoreConfig/Options.antt =====
-- The `output` methods of `FusesocOpts`, `QueryOpts` and `SimOpts`, and the simulators of `main`
-- in util/ibex_config.py.
pub mod Printed
use ibex.Base.{
  ℕ, zero, suc, ◌≡◌, Bool, true, false, ◌&&◌, ◌||◌, not, Option, none, some, List, [], ◌∷◌, ◌++◌,
  map, String, is_empty, string_eq, if◌then◌else◌, leb, nat_eqb, All,
}
use ibex.Base.Dict.{Dict, lookup}
use ibex.Base.Results.{Result, ok, err, ◌>>=◌, ◌>>◌, raise_if}
use ibex.Base.Text.{Text, codes, join, str}
use ibex.Base.Int.{ℤ, pos, negsuc, show_int}
use ibex.CoreConfig.Yaml.{Value, boolean, integer, string, other, show_value}
use ibex.CoreConfig.Read.{
  FieldType, bool_type, str_type, int_type, known_fields, ConfigError, key_error, invalid_int,
  subscript, Config,
}

-- The characters of shlex's `[a-zA-Z0-9_@%+=:,./-]`.
unfoldable pub is_safe_char : ℕ → Bool
is_safe_char c =
    leb b'a' c && leb c b'z'
    || leb b'A' c && leb c b'Z'
    || leb b'0' c && leb c b'9'
    || nat_eqb c 95
    || nat_eqb c 64
    || nat_eqb c 37
    || nat_eqb c 43
    || nat_eqb c 61
    || nat_eqb c 58
    || nat_eqb c 44
    || leb 45 c && leb c 47

abbrev all_safe : Text → Bool
all_safe [] = true
all_safe (c ∷ s) = is_safe_char c && all_safe s

-- `s.replace("'", "'\"'\"'")`
abbrev escape : Text → Text
escape [] = []
escape (c ∷ s) =
    let rest = escape s in if nat_eqb c 39 then 39 ∷ 34 ∷ 39 ∷ 34 ∷ 39 ∷ rest else c ∷ rest

-- `shlex.quote`
unfoldable pub quote : Text → Text
unfolding is_safe_char
quote [] = 39 ∷ 39 ∷ []
quote (c ∷ s) = if all_safe (c ∷ s) then c ∷ s else 39 ∷ escape (c ∷ s) ++ 39 ∷ []

unfoldable pub fusesoc_args : Config → List (String × FieldType) → Result ConfigError (List Text)
unfolding subscript quote show_value
fusesoc_args config [] = ok []
fusesoc_args config ((fld, typ) ∷ fields) = subscript fld config.params >>= λ val.
    fusesoc_args config fields >>= λ rest.
    ok (quote (codes "--" ++ (codes fld ++ (codes "=" ++ show_value val))) ∷ rest)

unfoldable pub fusesoc_output : Config → Result ConfigError Text
unfolding fusesoc_args join
fusesoc_output config =
    fusesoc_args config known_fields >>= λ fusesoc_cmd. ok (join (codes " ") fusesoc_cmd)

unfoldable pub query_line : Config → String → Text
unfolding lookup string_eq show_value
query_line config fld = elim (lookup fld config.params) [
  | some val ↦ codes fld ++ (codes "=" ++ show_value val)
  | none ↦ codes fld ++ codes " not found in config"
]

unfoldable pub query_output : Config → List String → Text
unfolding query_line join
query_output config fields = join (codes "\n") (map (query_line config) fields)

-- The fields of `SimOpts` that `output` uses.
pub record SimOpts : Type 0 where
  pub param_set_fn : Text → Text → List Text
  pub define_set_fn : Text → Text → List Text
  pub hierarchy_sep : Text

-- The sim options; `int_of` is Python's `int(val)` of a value that is neither a bool nor an int.
module _ (int_of : Value → Option ℤ) where
  abbrev val_as_int : Value → Option ℤ
  val_as_int (boolean true) = some (pos 1)
  val_as_int (boolean false) = some (pos 0)
  val_as_int (integer n) = some n
  val_as_int val = int_of val

  module _ (opts : SimOpts) (ins_hier_path string_define_prefix : Text) where
    -- The path with its separator, unless it is empty.
    unfoldable pub hier_prefix : Text
    hier_prefix = if is_empty ins_hier_path then [] else ins_hier_path ++ opts.hierarchy_sep

    -- The arguments of one field, before they are quoted. A field of type str holds a
    -- string in every `Config`, which is passed as it is.
    unfoldable pub field_args : String → FieldType → Value → Result ConfigError (List Text)
    unfolding hier_prefix show_int show_value
    field_args fld str_type val =
        ok (opts.define_set_fn (string_define_prefix ++ codes fld) (show_value val))
    field_args fld typ val = elim (val_as_int val) [
      | none ↦ err (invalid_int fld)
      | some n ↦ ok (opts.param_set_fn (hier_prefix ++ codes fld) (show_int n))
    ]

    unfoldable pub sim_args : Config → List (String × FieldType) → Result ConfigError (List Text)
    unfolding subscript field_args quote
    sim_args config [] = ok []
    sim_args config ((fld, typ) ∷ fields) = subscript fld config.params >>= λ val.
        field_args fld typ val >>= λ args.
        sim_args config fields >>= λ rest. ok (map quote args ++ rest)

    unfoldable pub sim_output : Config → Result ConfigError Text
    unfolding sim_args join
    sim_output config = sim_args config known_fields >>= λ sim_opts. ok (join (codes " ") sim_opts)

-- The outputters of `main`.
abbrev define_arg : Text → Text → List Text
define_arg d v = (codes "+define+" ++ (d ++ (codes "=" ++ v))) ∷ []

abbrev slash_param : Text → Text → List Text
slash_param p v = (codes "-g/" ++ (p ++ (codes "=" ++ v))) ∷ []

abbrev defparam : Text → Text → List Text
defparam p v = codes "-defparam" ∷ (p ++ (codes "=" ++ v)) ∷ []

abbrev no_args : Text → Text → List Text
no_args p v = []

abbrev pub vcs_opts : SimOpts
vcs_opts = record {
  param_set_fn = λ p v. (codes "-pvalue+" ++ (p ++ (codes "=" ++ v))) ∷ [];
  define_set_fn = define_arg;
  hierarchy_sep = codes ".";
}

abbrev pub riviera_sim_opts : SimOpts
riviera_sim_opts = record {
  param_set_fn = slash_param;
  define_set_fn = no_args;
  hierarchy_sep = codes "/";
}

abbrev pub riviera_compile_opts : SimOpts
riviera_compile_opts = record {
  param_set_fn = no_args;
  define_set_fn = define_arg;
  hierarchy_sep = codes "/";
}

abbrev pub questa_sim_opts : SimOpts
questa_sim_opts = record {
  param_set_fn = slash_param;
  define_set_fn = no_args;
  hierarchy_sep = codes "/";
}

abbrev pub questa_compile_opts : SimOpts
questa_compile_opts = record {
  param_set_fn = no_args;
  define_set_fn = define_arg;
  hierarchy_sep = codes "/";
}

abbrev pub xlm_opts : SimOpts
xlm_opts = record {
  param_set_fn = defparam;
  define_set_fn = λ d v. codes "-define" ∷ (d ++ (codes "=" ++ v)) ∷ [];
  hierarchy_sep = codes ".";
}

abbrev pub dsim_opts : SimOpts
dsim_opts = record {
  param_set_fn = defparam;
  define_set_fn = define_arg;
  hierarchy_sep = codes ".";
}
