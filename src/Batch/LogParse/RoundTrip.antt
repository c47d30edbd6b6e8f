-- ===== src/Batch/LogParse/RoundTrip.antt =====
-- What logparse.py reads back from a command that runner.py wrote.
use ibex.Base.{
  ℕ, zero, suc, ◌+◌, ◌/◌, ◌%◌, ◌≤◌, ◌<◌, ◌≡◌, ◌≢◌, refl, Bool, true, none, some, List, [], ◌∷◌,
  ◌++◌, All, arith, contains-cases, ◌⊎◌, inl, inr, is_empty, contains, ltb, Bool-cases,
}
use ibex.Base.Int.{ℤ, pos, negsuc, show_int}
use ibex.Base.Results.{ok, ◌>>◌, raise_if, >>=-eq-ok}
use ibex.Base.Text.{Text, codes, text_eq, digits, str}
use ibex.Base.Dict.{lookup}
use ibex.Batch.{ExecutionConfig, Float, GenerationConfig, CaseSpec}
use ibex.Batch.Validate.{strategies, validate, check_common, check_mode, no_cases}
use ibex.Batch.Argv.{mode_args}
use ibex.Batch.LogParse.{modes}

-- An argument that is neither a mode nor the separator.
abbrev pub IsPlain : Text → Type 0
IsPlain a = (lookup a modes ≡ none) × (a ≢ codes "--")

digits-head :
    (fuel n : ℕ) → (c : ℕ) × (rest : Text) × (digits (suc fuel) n ≡ c ∷ rest) × (48 ≤ c) × (c < 58)
unfolding digits
digits-head zero n = elim (Bool-cases (ltb n 10)) [
  | inl small ↦ (48 + n, [], rw small refl, omega arith, ground arith)
  | inr large ↦ (48 + n % 10, [], rw large refl, omega arith, omega arith)
]
digits-head (suc fuel) n = elim (Bool-cases (ltb n 10)) [
  | inl small ↦ (48 + n, [], rw (digits, small) refl, omega arith, ground arith)
  | inr large ↦
      let (c, rest, h, low, high) = digits-head fuel (n / 10) in
      (c, rest ++ (48 + n % 10) ∷ [], rw (digits, large, h) refl, low, high)
]

digit-IsPlain : (c : ℕ) (rest : Text) → 48 ≤ c → c < 58 → IsPlain (c ∷ rest)
unfolding lookup
digit-IsPlain c rest low high = ground arith

minus-IsPlain : (c : ℕ) (rest : Text) → 48 ≤ c → IsPlain (45 ∷ c ∷ rest)
unfolding lookup
minus-IsPlain c rest low = ground arith

str-head : (n : ℕ) → (c : ℕ) × (rest : Text) × (str n ≡ c ∷ rest) × (48 ≤ c) × (c < 58)
unfolding str
str-head n = digits-head n n

show_int-IsPlain : (n : ℤ) → IsPlain (show_int n)
unfolding show_int
show_int-IsPlain (pos n) =
    let (c, rest, h, low, high) = str-head n in rw (show_int, h) (digit-IsPlain c rest low high)
show_int-IsPlain (negsuc n) =
    let (c, rest, h, low, high) = str-head (suc n) in rw (show_int, h) (minus-IsPlain c rest low)

module _ {float : Float} (cfg : GenerationConfig float) where
  pub validate-mode :
      (has_rtl tmp_inside : Bool) (execution : ExecutionConfig) (cases : List CaseSpec)
      → validate has_rtl tmp_inside execution cfg cases ≡ ok tt
      → check_mode cfg ≡ ok tt
  unfolding validate
  validate-mode has_rtl tmp_inside execution cases h =
      let common = check_common has_rtl tmp_inside execution cfg in
      let (_, before, _) =
        >>=-eq-ok (common >> check_mode cfg) (λ _. raise_if (is_empty cases) no_cases) h in
      let (_, _, checked) = >>=-eq-ok common (λ _. check_mode cfg) before in checked

  strategy-IsPlain : (s : Text) → contains strategies s ≡ true → IsPlain s
  unfolding lookup text_eq
  strategy-IsPlain s h =
      elim (contains-cases (codes "uniform")
        (codes "tail_linear" ∷ codes "tail_quad" ∷ codes "head_linear" ∷ codes "head_quad" ∷ []) s
        h) [
          | inl same ↦ rw same (refl, λ p. absurd cc)
          | inr h1 ↦
              elim (contains-cases (codes "tail_linear")
                (codes "tail_quad" ∷ codes "head_linear" ∷ codes "head_quad" ∷ []) s h1) [
                  | inl same ↦ rw same (refl, λ p. absurd cc)
                  | inr h2 ↦
                      elim (contains-cases (codes "tail_quad")
                        (codes "head_linear" ∷ codes "head_quad" ∷ []) s h2) [
                          | inl same ↦ rw same (refl, λ p. absurd cc)
                          | inr h3 ↦
                              elim (contains-cases (codes "head_linear") (codes "head_quad" ∷ []) s
                                h3) [
                                  | inl same ↦ rw same (refl, λ p. absurd cc)
                                  | inr h4 ↦ elim (contains-cases (codes "head_quad") ([]) s h4) [
                                    | inl same ↦ rw same (refl, λ p. absurd cc)
                                    | inr h5 ↦ absurd cc
                                  ]
                                ]
                        ]
                ]
        ]

  psbfl_checked :
      cfg.mode ≡ codes "psbfl"
      → check_mode cfg ≡ ok tt
      → contains strategies cfg.mutator_weight_strategy ≡ true
  unfolding check_mode
  psbfl_checked is h = ground arith

  mode_args-cases :
      (word : Text) (options : List Text)
      → mode_args cfg ≡ ok (word, options)
      → ((cfg.mode ≡ codes "psbfl")
          × (word ≡ codes "psbfl")
          × (options
              ≡ codes "--mutator-window-size"
                ∷ show_int cfg.mutator_window_size
                ∷ codes "--mutator-weight-strategy"
                ∷ cfg.mutator_weight_strategy
                ∷ []))
        ⊎ ((cfg.mode ≡ codes "random") × (word ≡ codes "random") × (options ≡ []))
        ⊎ ((cfg.mode ≡ codes "withw")
            × (word ≡ codes "wit-hw")
            × (options
                ≡ codes "--max-corpus-size"
                  ∷ show_int cfg.max_corpus_size
                  ∷ codes "--init-seed-rate"
                  ∷ float.show cfg.init_seed_rate
                  ∷ codes "--mutate-rate"
                  ∷ float.show cfg.mutate_rate
                  ∷ codes "--priority-alpha"
                  ∷ float.show cfg.priority_alpha
                  ∷ codes "--failed-reward"
                  ∷ float.show cfg.failed_reward
                  ∷ []))
  unfolding mode_args
  mode_args-cases word options h = ground arith

  pub mode_args-IsPlain :
      (word : Text) (options : List Text)
      → ((x : float.F) → IsPlain (float.show x))
      → check_mode cfg ≡ ok tt
      → mode_args cfg ≡ ok (word, options)
      → (lookup word modes ≡ some cfg.mode) × (word ≢ codes "--") × All IsPlain options
  unfolding lookup text_eq
  mode_args-IsPlain word options floats checked h = elim (mode_args-cases word options h) [
    | inl (mode, same, opts) ↦
        rw (same, opts, mode)
          (
            refl,
            λ p. absurd cc,
            (
              (refl, λ p. absurd cc),
              (
                show_int-IsPlain cfg.mutator_window_size,
                (
                  (refl, λ p. absurd cc),
                  (strategy-IsPlain cfg.mutator_weight_strategy (psbfl_checked mode checked), tt),
                ),
              ),
            ),
          )
    | inr (inl (mode, same, opts)) ↦ rw (same, opts, mode) (refl, λ p. absurd cc, tt)
    | inr (inr (mode, same, opts)) ↦
        rw (same, opts, mode)
          (
            refl,
            λ p. absurd cc,
            (
              (refl, λ p. absurd cc),
              (
                show_int-IsPlain cfg.max_corpus_size,
                (
                  (refl, λ p. absurd cc),
                  (
                    floats cfg.init_seed_rate,
                    (
                      (refl, λ p. absurd cc),
                      (
                        floats cfg.mutate_rate,
                        (
                          (refl, λ p. absurd cc),
                          (
                            floats cfg.priority_alpha,
                            ((refl, λ p. absurd cc), (floats cfg.failed_reward, tt)),
                          ),
                        ),
                      ),
                    ),
                  ),
                ),
              ),
            ),
          )
  ]
