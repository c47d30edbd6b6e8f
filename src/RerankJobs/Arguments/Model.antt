-- ===== src/RerankJobs/Arguments/Model.antt =====
-- The options about the model that rerank_sbfl_with_llm.py adds.
use ibex.Base.{◌≡◌, refl, ◌∙◌, false, some, List, [], ◌∷◌, ◌++◌, append_assoc, ◌==◌, arith}
use ibex.Base.Text.{Text, codes, text_eq, starts_with}
use ibex.RerankJobs.Arguments.{
  has_option, option_value, with_default_model, protocol_of, with_model_api_compatibility,
}

has_option-append :
    (name : Text) (xs ys : List Text)
    → has_option xs name ≡ false
    → has_option (xs ++ ys) name ≡ has_option ys name
unfolding has_option
has_option-append name [] ys h = refl
has_option-append name (x ∷ xs) ys h = ground (arith, h, has_option-append name xs ys)

option_value-skip :
    (name x : Text) (xs : List Text)
    → (x == name) ≡ false
    → starts_with x (name ++ codes "=") ≡ false
    → option_value (x ∷ xs) name ≡ option_value xs name
unfolding option_value
option_value-skip name x [] e f = rw f refl
option_value-skip name x (w ∷ xs) e f = rw (f, e) refl

-- Behind arguments without the option its value is found where it is added.
option_value-append :
    (name : Text) (xs ys : List Text)
    → has_option xs name ≡ false
    → option_value (xs ++ ys) name ≡ option_value ys name
option_value-append name [] ys h = refl
option_value-append name (x ∷ xs) ys h =
    let (differs, no_value, none_left) = without h in
    option_value-skip name x (xs ++ ys) differs no_value ∙ option_value-append name xs ys none_left
  where
    without :
        has_option (x ∷ xs) name ≡ false
        → ((x == name) ≡ false)
          × (starts_with x (name ++ codes "=") ≡ false)
          × (has_option xs name ≡ false)
    without e = unfold has_option in ground (arith, e)

-- The options that are forwarded, as `main` prepares them.
unfoldable pub prepared : List Text → List Text
unfolding with_default_model with_model_api_compatibility
prepared forwarded = with_model_api_compatibility (with_default_model forwarded)

added :
    option_value (codes "--model" ∷ codes "gpt-5.5" ∷ []) (codes "--model") ≡ some (codes "gpt-5.5")
unfolding option_value text_eq
added = refl

no_protocol : has_option (codes "--model" ∷ codes "gpt-5.5" ∷ []) (codes "--api-protocol") ≡ false
unfolding has_option text_eq
no_protocol = refl

of_default : protocol_of (codes "gpt-5.5") ≡ some (codes "openai-responses")
unfolding protocol_of
of_default = refl

with_default_model-none :
    (arguments : List Text)
    → has_option arguments (codes "--model") ≡ false
    → with_default_model arguments ≡ arguments ++ (codes "--model" ∷ codes "gpt-5.5" ∷ [])
unfolding with_default_model
with_default_model-none arguments h = rw h refl

with_model_api_compatibility-some :
    (arguments : List Text) (model protocol : Text)
    → option_value arguments (codes "--model") ≡ some model
    → has_option arguments (codes "--api-protocol") ≡ false
    → protocol_of model ≡ some protocol
    → with_model_api_compatibility arguments ≡ arguments ++ (codes "--api-protocol" ∷ protocol ∷ [])
unfolding with_model_api_compatibility
with_model_api_compatibility-some arguments model protocol h none_given of_model =
    rw (with_model_api_compatibility, h, none_given, of_model) refl

-- Without a model and a protocol the default model is added behind all options, and its protocol.
pub prepared-neither :
    (forwarded : List Text)
    → has_option forwarded (codes "--model") ≡ false
    → has_option forwarded (codes "--api-protocol") ≡ false
    → prepared forwarded
      ≡ forwarded
        ++ (codes "--model"
            ∷ codes "gpt-5.5"
            ∷ codes "--api-protocol"
            ∷ codes "openai-responses"
            ∷ [])
unfolding prepared
prepared-neither forwarded model protocol =
    let extra : List Text = codes "--model" ∷ codes "gpt-5.5" ∷ [] in
    rw (with_default_model-none forwarded model) (
      with_model_api_compatibility-some (forwarded ++ extra) (codes "gpt-5.5")
        (codes "openai-responses")
        (option_value-append (codes "--model") forwarded extra model ∙ added)
        (has_option-append (codes "--api-protocol") forwarded extra protocol ∙ no_protocol)
        of_default
      ∙ append_assoc forwarded extra (codes "--api-protocol" ∷ codes "openai-responses" ∷ []))
