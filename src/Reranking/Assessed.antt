-- ===== src/Reranking/Assessed.antt =====
-- What `validate_scores` lets pass, and the scores that it returns.
use mathlib.Core.Path.{subst}
use ibex.Base.{
  ℕ, suc, ◌≡◌, ◌≢◌, refl, ap, ◌∙◌, ◌⊎◌, inl, inr, true, false, some, none, List, [], ◌∷◌, map,
  String, contains, is_empty, string_eq, All, All-implies, Among, arith, Bool-cases, ◌==◌,
}
use ibex.Base.Dict.{Dict, keys, lookup, insert, lookup-insert}
use ibex.Base.Results.{Result, ok, Result-cases}
use ibex.Base.Sorting.{sort, Among-sort}
use ibex.Sbfl.{Candidate}
use ibex.Reranking.{
  Numbers, RerankError, Assessment, Checked, check_finite, finite_number, parse_suspiciousness,
  collect_scores, minus, le_id, validate_scores,
}

module _ (N : Numbers) where
  -- The assessment's score is the finite number `s` of the unit interval.
  abbrev pub HasScore : Assessment N → N.F → Type 0
  HasScore a s =
      (N.is_bool a.score ≡ false)
      × (N.to_float a.score ≡ some s)
      × (N.is_finite s ≡ true)
      × (N.in_unit s ≡ true)

  -- The candidate's suspiciousness is the finite number `v`, not below 0.
  abbrev pub HasSuspiciousness : Candidate → N.F → Type 0
  HasSuspiciousness c v =
      (N.of_text c.suspiciousness ≡ some v) × (N.is_finite v ≡ true) × (N.is_below_zero v ≡ false)

  finite_number-ok :
      (raw : N.Raw) (label : String) (s : N.F)
      → finite_number N raw label ≡ ok s
      → (N.is_bool raw ≡ false) × (N.to_float raw ≡ some s) × (N.is_finite s ≡ true)
  unfolding finite_number check_finite
  finite_number-ok raw label s h = ground arith

  pub parse_suspiciousness-ok :
      (c : Candidate) (v : N.F) → parse_suspiciousness N c ≡ ok v → HasSuspiciousness c v
  unfolding parse_suspiciousness check_finite
  parse_suspiciousness-ok c v h = ground arith

  pub collect_scores-step :
      (index : ℕ) (result final : Dict String (Checked N)) (a : Assessment N)
      (assessments : List (Assessment N))
      → collect_scores N index result (a ∷ assessments) ≡ ok final
      → (s : N.F) × HasScore a s
        × (contains (keys result) a.candidate_id ≡ false)
        × (collect_scores N
              (suc index)
              (insert a.candidate_id (record { score = s; reason = a.reason }) result)
              assessments
            ≡ ok final)
  unfolding collect_scores
  collect_scores-step index result final a assessments h =
      elim (Bool-cases (a.candidate_id == "")) [
        | inl e ↦ absurd (ground (arith, e))
        | inr named ↦ elim (Bool-cases (contains (keys result) a.candidate_id)) [
          | inl e ↦ absurd (ground (arith, named, e))
          | inr new ↦ elim (Result-cases (finite_number N a.score a.candidate_id)) [
            | inr (e, raised) ↦ absurd (ground (arith, named, new, raised))
            | inl (s, read) ↦ elim (Bool-cases (N.in_unit s)) [
              | inr e ↦ absurd (ground (arith, named, new, read, e))
              | inl inside ↦
                  let (b, f, fin) = finite_number-ok a.score a.candidate_id s read in
                  (s, (b, f, fin, inside), new, rw (collect_scores, named, new, read, inside) at h)
            ]
          ]
        ]
      ]

  -- A score of the result is that of an assessment.
  abbrev pub IsAssessed : List (Assessment N) → String → N.F → Type 0
  IsAssessed assessments id s =
      (a : Assessment N) × Among a assessments × (a.candidate_id ≡ id) × HasScore a s

  pub collect_scores-IsAssessed :
      (index : ℕ) (result final : Dict String (Checked N)) (assessments : List (Assessment N))
      → collect_scores N index result assessments ≡ ok final
      → (id : String) (checked : Checked N) → lookup id final ≡ some checked
      → (lookup id result ≡ some checked) ⊎ IsAssessed assessments id checked.score
  unfolding collect_scores
  collect_scores-IsAssessed index result final [] h id checked at = inl (ground (arith, at))
  collect_scores-IsAssessed index result final (a ∷ assessments) h id checked at =
      let (s, has, new, rest) = collect_scores-step index result final a assessments h in
      let own : Checked N = record { score = s; reason = a.reason } in
      elim (collect_scores-IsAssessed (suc index) (insert a.candidate_id own result) final
        assessments rest id checked at) [
          | inr (b, i, same, scored) ↦ inr (b, inr i, same, scored)
          | inl found ↦
              let where_at = lookup-insert id a.candidate_id own result in
              elim (Bool-cases (id == a.candidate_id)) [
                | inl e ↦
                    let is : some own ≡ some checked = ground (arith, where_at, found, e) in
                    inr (
                      a,
                      inl refl,
                      ground (arith, e),
                      subst (HasScore a) (ap (λ o. elim o [ none ↦ s | some c ↦ c.score ]) is) has,
                    )
                | inr e ↦ inl (ground (arith, where_at, found, e))
              ]
        ]

  -- A key that was found before, or that an assessment has, is found in the result.
  collect_scores-keeps :
      (index : ℕ) (result final : Dict String (Checked N)) (assessments : List (Assessment N))
      → collect_scores N index result assessments ≡ ok final
      → (id : String) → lookup id result ≢ none
      → lookup id final ≢ none
  unfolding collect_scores
  collect_scores-keeps index result final [] h id found = ground (arith, found)
  collect_scores-keeps index result final (a ∷ assessments) h id found =
      let (s, has, new, rest) = collect_scores-step index result final a assessments h in
      let own : Checked N = record { score = s; reason = a.reason } in
      collect_scores-keeps (suc index) (insert a.candidate_id own result) final assessments rest id
        (λ p. ground (arith, lookup-insert id a.candidate_id own result, p, found))

  collect_scores-All :
      (index : ℕ) (result final : Dict String (Checked N)) (assessments : List (Assessment N))
      → collect_scores N index result assessments ≡ ok final
      → All (λ a. lookup a.candidate_id final ≢ none) assessments
  collect_scores-All index result final [] h = tt
  collect_scores-All index result final (a ∷ assessments) h =
      let (s, has, new, rest) = collect_scores-step index result final a assessments h in
      let own : Checked N = record { score = s; reason = a.reason } in
      (
        collect_scores-keeps (suc index) (insert a.candidate_id own result) final assessments rest
            a.candidate_id
            (λ p. ground (arith, lookup-insert a.candidate_id a.candidate_id own result, p)),
        collect_scores-All (suc index) (insert a.candidate_id own result) final assessments rest,
      )

  pub keys-lookup :
      (id : String) (d : Dict String (Checked N)) → lookup id d ≢ none → contains (keys d) id ≡ true
  unfolding keys lookup
  keys-lookup id [] h = absurd (h refl)
  keys-lookup id ((own, value) ∷ d) h = ground (arith, keys-lookup id d)

  minus-nil :
      (xs ys : List String) (x : String)
      → minus N xs ys ≡ []
      → contains xs x ≡ true
      → contains ys x ≡ true
  minus-nil [] ys x h i = ground (arith, i)
  minus-nil (y ∷ xs) ys x h i = elim (Bool-cases (contains ys y)) [
    | inr e ↦ absurd (ground (arith, h, e))
    | inl e ↦ elim (Bool-cases (x == y)) [
      | inl same ↦ let p : x ≡ y = ground (arith, same) in rw p e
      | inr other ↦ minus-nil xs ys x (ground (arith, h, e)) (ground (arith, i, other))
    ]
  ]

  sort-nil : (xs : List String) → is_empty (sort (le_id N) xs) ≡ true → xs ≡ []
  sort-nil [] h = refl
  sort-nil (x ∷ xs) h =
      absurd
        (no_element (sort (le_id N) (x ∷ xs)) h ((Among-sort (le_id N) x (x ∷ xs)).0 (inl refl)))
    where
      no_element : (ys : List String) → is_empty ys ≡ true → Among x ys → ⊥
      no_element [] h i = i
      no_element (y ∷ ys) h i = absurd (ground (arith, h))

  contains-candidate :
      (candidates : List Candidate) (id : String)
      → contains (map (λ c. c.candidate_id) candidates) id ≡ true
      → (c : Candidate) × Among c candidates × (c.candidate_id ≡ id)
  contains-candidate [] id h = absurd (ground (arith, h))
  contains-candidate (c ∷ candidates) id h = elim (Bool-cases (id == c.candidate_id)) [
    | inl e ↦ (c, inl refl, ground (arith, e))
    | inr e ↦
        let (found, i, same) = contains-candidate candidates id (ground (arith, h, e)) in
        (found, inr i, same)
  ]

  pub validate_scores-ok :
      (candidates : List Candidate) (assessments : List (Assessment N))
      (result : Dict String (Checked N))
      → validate_scores N candidates assessments ≡ ok result
      → (collect_scores N 1 [] assessments ≡ ok result)
        × (minus N (keys result) (map (λ c. c.candidate_id) candidates) ≡ [])
  unfolding validate_scores
  validate_scores-ok candidates assessments result h =
      elim (Result-cases (collect_scores N 1 [] assessments)) [
        | inr (e, raised) ↦ absurd (ground (arith, h, raised))
        | inl (found, at) ↦
            let ids = map (λ c. c.candidate_id) candidates in
            elim (Bool-cases (is_empty (sort (le_id N) (minus N (keys found) ids)))) [
              | inr e ↦ absurd (ground (arith, h, at, e))
              | inl e ↦ elim (Bool-cases (is_empty (sort (le_id N) (minus N ids (keys found))))) [
                | inr m ↦ absurd (ground (arith, h, at, e, m))
                | inl m ↦
                    let is : ◌≡◌ {A = Result RerankError (Dict String (Checked N))} (ok found)
                        (ok result) =
                      ground (arith, h, at, e, m) in
                    (at ∙ is, subst Known (found_is found result is) (sort-nil _ e))
              ]
            ]
      ]
    where
      Known : Dict String (Checked N) → Type 0
      Known d = minus N (keys d) (map (λ c. c.candidate_id) candidates) ≡ []

      found_is :
          (d e : Dict String (Checked N))
          → ◌≡◌ {A = Result RerankError (Dict String (Checked N))} (ok d) (ok e)
          → d ≡ e
      found_is d e h = cc

  -- Each assessment is of a given candidate.
  pub validate_scores-All :
      (candidates : List Candidate) (assessments : List (Assessment N))
      (result : Dict String (Checked N))
      → validate_scores N candidates assessments ≡ ok result
      → All
          (λ a. (c : Candidate) × Among c candidates × (c.candidate_id ≡ a.candidate_id))
          assessments
  validate_scores-All candidates assessments result h =
      let (collected, known) = validate_scores-ok candidates assessments result h in
      All-implies _ _
        (λ a found. contains-candidate candidates a.candidate_id (
          minus-nil (keys result) _ a.candidate_id known (keys-lookup a.candidate_id result found)))
        assessments (collect_scores-All 1 [] result assessments collected)
