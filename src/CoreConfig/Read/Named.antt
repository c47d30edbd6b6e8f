-- ===== src/CoreConfig/Read/Named.antt =====
-- Which configuration `parse_config` returns.
use ibex.Base.{
  ◌≡◌, ◌↔◌, refl, sym, ◌∙◌, false, none, some, [], ◌∷◌, String, contains, string_eq, arith,
  Option-cases, inl, inr,
}
use ibex.Base.Dict.{Dict, keys, lookup, insert, lookup-insert}
use ibex.Base.Results.{Result, ok, err, >>=-eq-ok}
use ibex.CoreConfig.Yaml.{ConfigYaml, document, IsDict}
use ibex.CoreConfig.Read.{ConfigError, Config, make_config, add_configs, make_configs, parse_config}

-- Every configuration of the file can be made.
abbrev pub AllMade : Dict String ConfigYaml → Type 0
AllMade [] = Unit
AllMade ((cfg_name, cfg_yaml) ∷ items) =
    ((config : Config) × (make_config cfg_yaml ≡ ok config)) × AllMade items

add_configs-step :
    (configs done : Dict String Config) (cfg_name : String) (cfg_yaml : ConfigYaml)
    (items : Dict String ConfigYaml)
    → (add_configs configs ((cfg_name, cfg_yaml) ∷ items) ≡ ok done) ↔ (
        (config : Config) × (make_config cfg_yaml ≡ ok config)
        × (add_configs (insert cfg_name config configs) items ≡ ok done))
unfolding add_configs
add_configs-step configs done cfg_name cfg_yaml items =
    (split (make_config cfg_yaml) refl, λ (config, made, h). rw (add_configs, made) h)
  where
    split :
        (r : Result ConfigError Config)
        → make_config cfg_yaml ≡ r
        → add_configs configs ((cfg_name, cfg_yaml) ∷ items) ≡ ok done
        → (config : Config) × (make_config cfg_yaml ≡ ok config)
          × (add_configs (insert cfg_name config configs) items ≡ ok done)
    split (ok config) made h = (config, made, rw (add_configs, made) at h)
    split (err e) made h = absurd (ground (arith, made))

add_configs-AllMade :
    (configs done : Dict String Config) (items : Dict String ConfigYaml)
    → add_configs configs items ≡ ok done
    → AllMade items
add_configs-AllMade configs done [] h = tt
add_configs-AllMade configs done ((cfg_name, cfg_yaml) ∷ items) h =
    let (config, made, rest) = (add_configs-step configs done cfg_name cfg_yaml items).0 h in
    ((config, made), add_configs-AllMade (insert cfg_name config configs) done items rest)

add_configs_total :
    (configs : Dict String Config) (items : Dict String ConfigYaml)
    → AllMade items
    → (done : Dict String Config) × (add_configs configs items ≡ ok done)
unfolding add_configs
add_configs_total configs [] _ = (configs, refl)
add_configs_total configs ((cfg_name, cfg_yaml) ∷ items) ((config, made), rest) =
    let (done, h) = add_configs_total (insert cfg_name config configs) items rest in
    (done, (add_configs-step configs done cfg_name cfg_yaml items).1 (config, made, h))

lookup-fresh :
    {A : Type 0} (name : String) (d : Dict String A)
    → contains (keys d) name ≡ false
    → lookup name d ≡ none
unfolding lookup keys
lookup-fresh name [] h = refl
lookup-fresh name ((k, v) ∷ d) h = ground (arith, lookup-fresh name d)

-- A name that the file lacks keeps what the dict held.
add_configs-lookup-none :
    (configs done : Dict String Config) (items : Dict String ConfigYaml) (name : String)
    → lookup name items ≡ none
    → add_configs configs items ≡ ok done
    → lookup name done ≡ lookup name configs
unfolding add_configs lookup
add_configs-lookup-none configs done [] name lacks h = ground arith
add_configs-lookup-none configs done ((cfg_name, cfg_yaml) ∷ items) name lacks h =
    let (config, made, rest) = (add_configs-step configs done cfg_name cfg_yaml items).0 h in
    ground (
      arith,
      add_configs-lookup-none (insert cfg_name config configs) done items name,
      lookup-insert name cfg_name config configs,
    )

-- A name of the file holds what was made of its item.
add_configs-lookup-some :
    (configs done : Dict String Config) (items : Dict String ConfigYaml) (name : String)
    (cfg_yaml : ConfigYaml)
    → IsDict items
    → lookup name items ≡ some cfg_yaml
    → add_configs configs items ≡ ok done
    → (config : Config) × (make_config cfg_yaml ≡ ok config) × (lookup name done ≡ some config)
unfolding lookup
add_configs-lookup-some configs done [] name cfg_yaml _ has h = absurd (ground arith)
add_configs-lookup-some configs done ((cfg_name, item) ∷ items) name cfg_yaml (fresh, distinct) has
      h =
    let (config, made, rest) = (add_configs-step configs done cfg_name item items).0 h in
    elim (string_eq.dec name cfg_name) [
      | yes same ↦ (
        config,
        ground (arith, made),
        ground (
          arith,
          lookup-fresh cfg_name items fresh,
          add_configs-lookup-none (insert cfg_name config configs) done items name,
          lookup-insert name cfg_name config configs,
        ),
      )
      | no differ ↦
          add_configs-lookup-some (insert cfg_name config configs) done items name cfg_yaml distinct
            (ground arith) rest
    ]

parse_found :
    (yml : Dict String ConfigYaml) (name : String) (done : Dict String Config) (config : Config)
    → add_configs [] yml ≡ ok done
    → lookup name done ≡ some config
    → parse_config name (document yml) ≡ ok config
unfolding parse_config make_configs
parse_found yml name done config made at = ground (arith, made, at)

-- A configuration is returned exactly if every configuration of the file can be made and it is
-- what was made of the item with the given name; one bad configuration spoils every name.
pub parse_config-ok_iff :
    (yml : Dict String ConfigYaml) (name : String) (config : Config)
    → IsDict yml
    → (parse_config name (document yml) ≡ ok config) ↔ (
        AllMade yml
        × ((cfg_yaml : ConfigYaml) × (lookup name yml ≡ some cfg_yaml)
            × (make_config cfg_yaml ≡ ok config)))
unfolding parse_config make_configs
parse_config-ok_iff yml name config distinct = (
  λ h.
      let (done, made, found) = >>=-eq-ok (add_configs [] yml) _ h in
      (
        add_configs-AllMade [] done yml made,
        elim (Option-cases (lookup name yml)) [
          | inl lacks ↦ absurd (ground (arith, add_configs-lookup-none [] done yml name lacks made))
          | inr (cfg_yaml, has) ↦
              let (c, one, at) =
                add_configs-lookup-some [] done yml name cfg_yaml distinct has made in
              (cfg_yaml, has, ground (arith, one, at))
        ],
      ),
  λ (all, (cfg_yaml, has, one)).
      let (done, made) = add_configs_total [] yml all in
      let (c, one', at) = add_configs-lookup-some [] done yml name cfg_yaml distinct has made in
      parse_found yml name done c made at ∙ sym one' ∙ one,
)
