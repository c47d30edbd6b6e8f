-- ===== src/Batch/LogParse/ReadBack.antt =====
-- What logparse.py reads back from the command that runner.py writes.
use ibex.Base.{
  ◌≡◌, ◌≢◌, refl, sym, ◌∙◌, Bool, false, Option, none, some, List, [], ◌∷◌, ◌++◌, All, All-append,
  append_assoc, append-nil, ◌⊎◌, inl, inr, if◌then◌else◌, is_empty, arith,
}
use mathlib.Core.List.{reverse, reverse-cons, reverse-append}
use ibex.Base.Results.{Result, ok, >>=-eq-ok}
use ibex.Base.Text.{Text, codes, text_eq}
use ibex.Base.Dict.{lookup}
use ibex.Batch.{Float, ExecutionConfig, GenerationConfig, CaseSpec}
use ibex.Batch.Validate.{BatchError, validate}
use ibex.Batch.Argv.{
  source_args, run_args, output_args, mode_args, simulator_part, assembled, generation_args,
}
use ibex.Batch.LogParse.{modes, first_mode, generation_mode, trailing_args, or_nothing}
use ibex.Batch.LogParse.Index.{
  first_mode-skip, generation_mode-between, generation_mode-last, trailing_args-append,
  trailing_args-none,
}
use ibex.Batch.LogParse.RoundTrip.{IsPlain, validate-mode, mode_args-IsPlain}

abbrev IsOther : Text → Text → Type 0
IsOther x a = a ≢ x

first_mode-found :
    (before : List Text) (word mode : Text) (options : List Text)
    → lookup word modes ≡ some mode
    → All (λ a. lookup a modes ≡ none) options
    → first_mode (reverse (before ++ word ∷ options)) ≡ ok mode
unfolding first_mode
first_mode-found before word mode options is plain =
    rw
      (
        reverse-append before (word ∷ options),
        reverse-cons word options,
        append_assoc (reverse options) (word ∷ []) (reverse before),
      )
      (first_mode-skip options (word ∷ reverse before) plain ∙ rw (first_mode, is) refl)

no_modes : (options : List Text) → All IsPlain options → All (λ a. lookup a modes ≡ none) options
no_modes [] _ = tt
no_modes (o ∷ options) ((plain, _), rest) = (plain, no_modes options rest)

no_separators : (options : List Text) → All IsPlain options → All (IsOther (codes "--")) options
no_separators [] _ = tt
no_separators (o ∷ options) ((_, other), rest) = (other, no_separators options rest)

ok_inj : (a b : List Text) (r : Result BatchError (List Text)) → r ≡ ok a → r ≡ ok b → a ≡ b
ok_inj a b r g h = cc

module _ {float : Float} (cfg : GenerationConfig float) (case : CaseSpec)
    (logdir workdir : Text) where
  -- What stands between the subcommand and the mode.
  abbrev pub before_mode : List Text → List Text
  before_mode source = run_args cfg logdir ++ (source ++ output_args cfg logdir workdir)

  abbrev front_args : List Text
  front_args = codes "-c" ∷ cfg.coverage ∷ codes "-s" ∷ cfg.state ∷ []

  abbrev front : Text → List Text
  front executable = executable ∷ front_args

  abbrev kept_args : Option (List Text) → List Text
  kept_args fallback =
      if is_empty cfg.simulator_args then or_nothing fallback else cfg.simulator_args

  none_kept :
      (fallback : Option (List Text))
      → cfg.simulator_args ≡ []
      → kept_args fallback ≡ or_nothing fallback
  none_kept fallback h = ground arith

  all_kept :
      (fallback : Option (List Text))
      → is_empty cfg.simulator_args ≡ false
      → kept_args fallback ≡ cfg.simulator_args
  all_kept fallback h = ground arith

  front_clear :
      (executable : Text) (rest : List Text)
      → executable ≢ codes "--"
      → cfg.coverage ≢ codes "--"
      → cfg.state ≢ codes "--"
      → All (IsOther (codes "--")) rest
      → All (IsOther (codes "--")) (front executable ++ codes "generation" ∷ rest)
  front_clear executable rest e c s h =
      (e, ((λ p. absurd cc), (c, ((λ p. absurd cc), (s, ((λ p. absurd cc), h))))))

  simulator-cases :
      ((simulator_part cfg ≡ []) × (cfg.simulator_args ≡ []))
      ⊎ ((simulator_part cfg ≡ codes "--" ∷ cfg.simulator_args)
          × (is_empty cfg.simulator_args ≡ false))
  unfolding simulator_part
  simulator-cases = ground arith

  assembled-shape :
      (source : List Text) (word : Text) (options : List Text)
      → assembled cfg logdir workdir source (word, options)
        ≡ front_args
          ++ codes "generation" ∷ ((before_mode source ++ word ∷ options) ++ simulator_part cfg)
  unfolding assembled
  assembled-shape source word options = refl

  generation_args-parts :
      (argv source : List Text)
      → source_args case cfg.input_path ≡ ok source
      → generation_args cfg case logdir workdir ≡ ok argv
      → (word : Text) × (options : List Text) × (mode_args cfg ≡ ok (word, options))
        × (argv
            ≡ front_args
              ++ codes "generation"
                ∷ ((before_mode source ++ word ∷ options) ++ simulator_part cfg))
  unfolding generation_args assembled
  generation_args-parts argv source from h =
      let finish : Text × List Text → Result BatchError (List Text) =
        λ mode. ok (assembled cfg logdir workdir source mode) in
      let ((word, options), m, e) =
        >>=-eq-ok (mode_args cfg) finish (rw (generation_args, from) at h) in
      (word, options, m, ok_inj argv _ _ e refl ∙ assembled-shape source word options)

  -- The mode of a validated configuration is read back from the command that is written for it.
  -- No argument in front of the subcommand is its word, no argument up to the mode is the
  -- separator, and no float prints as a mode or as the separator.
  pub generation_mode-generated :
      (executable : Text) (has_rtl tmp_inside : Bool) (execution : ExecutionConfig)
      (cases : List CaseSpec)
      → (source argv : List Text) → validate has_rtl tmp_inside execution cfg cases ≡ ok tt
      → source_args case cfg.input_path ≡ ok source
      → generation_args cfg case logdir workdir ≡ ok argv
      → ((x : float.F) → IsPlain (float.show x))
      → All (λ a. a ≢ codes "generation") (executable ∷ cfg.coverage ∷ cfg.state ∷ [])
      → All (λ a. a ≢ codes "--") (before_mode source)
      → generation_mode (executable ∷ argv) ≡ ok cfg.mode
  generation_mode-generated executable has_rtl tmp_inside execution cases source argv valid from h
        floats (e, (c, (s, _))) clear =
      let (word, options, m, shape) = generation_args-parts argv source from h in
      let checked = validate-mode cfg has_rtl tmp_inside execution cases valid in
      let (is, differs, plain) = mode_args-IsPlain cfg word options floats checked m in
      let before = before_mode source in
      let clear_all =
        All-append _ before (word ∷ options) clear (differs, no_separators options plain) in
      let found = first_mode-found before word cfg.mode options is (no_modes options plain) in
      let lead : All (IsOther (codes "generation")) (front executable) =
        (e, ((λ p. absurd cc), (c, ((λ p. absurd cc), (s, tt))))) in
      rw shape (elim simulator-cases [
        | inl (absent, _) ↦
            rw (absent, append-nil (before ++ word ∷ options))
              (generation_mode-last (front executable) (before ++ word ∷ options) lead clear_all
                ∙ found)
        | inr (given, _) ↦ rw given (
            generation_mode-between (front executable) (before ++ word ∷ options) cfg.simulator_args
              lead clear_all
            ∙ found)
      ])

  -- The simulator's arguments are read back, or the fallback where there are none.
  pub trailing_args-generated :
      (executable : Text) (has_rtl tmp_inside : Bool) (execution : ExecutionConfig)
      (cases : List CaseSpec)
      → (source argv : List Text) (fallback : Option (List Text))
      → validate has_rtl tmp_inside execution cfg cases ≡ ok tt
      → source_args case cfg.input_path ≡ ok source
      → generation_args cfg case logdir workdir ≡ ok argv
      → ((x : float.F) → IsPlain (float.show x))
      → All (λ a. a ≢ codes "--") (executable ∷ cfg.coverage ∷ cfg.state ∷ before_mode source)
      → trailing_args (executable ∷ argv) fallback
        ≡ (if is_empty cfg.simulator_args then or_nothing fallback else cfg.simulator_args)
  trailing_args-generated executable has_rtl tmp_inside execution cases source argv fallback valid
        from h floats (e, (c, (s, clear))) =
      let (word, options, m, shape) = generation_args-parts argv source from h in
      let checked = validate-mode cfg has_rtl tmp_inside execution cases valid in
      let (is, differs, plain) = mode_args-IsPlain cfg word options floats checked m in
      let before = before_mode source in
      let clear_all =
        All-append _ before (word ∷ options) clear (differs, no_separators options plain) in
      let middle : List Text = before ++ word ∷ options in
      let whole = front_clear executable middle e c s clear_all in
      rw shape (elim simulator-cases [
        | inl (absent, nothing) ↦
            rw (absent, append-nil middle)
              (trailing_args-none (front executable ++ codes "generation" ∷ middle) fallback whole
                ∙ sym (none_kept fallback nothing))
        | inr (given, some_args) ↦ rw given (
            trailing_args-append (front executable ++ codes "generation" ∷ middle)
              cfg.simulator_args fallback whole
            ∙ sym (all_kept fallback some_args))
      ])
