-- ===== src/ToolRequirements/Main/Zero.antt =====
-- When `main` of check_tool_requirements.py returns 0.
use ibex.Base.{
  ℕ, ◌≡◌, ◌⊎◌, inl, inr, refl, ap, ◌∙◌, Bool, true, false, ◌&&◌, not, List, [], ◌∷◌, contains, ◌==◌,
  All, Bool-cases, arith,
}
use ibex.Base.Dict.{Dict, keys}
use ibex.Base.Results.{Result, ok, ◌>>=◌, >>=-eq-ok}
use ibex.Base.Text.{Text, text_eq}
use ibex.ToolRequirements.{ToolReq, Machine, Versions}
use ibex.ToolRequirements.Check.{Crash, check}
use ibex.ToolRequirements.Check.Good.{IsGood, check-good_iff}
use ibex.ToolRequirements.Read.{Defined, read_tool_requirements}
use ibex.ToolRequirements.Main.{discard, noted, check_all, exit_code, main}

-- No key stands twice, as in every dict.
abbrev pub IsDict : Dict Text ToolReq → Type 0
IsDict [] = Unit
IsDict ((tool, req) ∷ reqs) = (contains (keys reqs) tool ≡ false) × IsDict reqs

contains-discard :
    (tool : Text) (tools : List Text) (t : Text)
    → contains (discard tool tools) t ≡ contains tools t && not (t == tool)
unfolding discard
contains-discard tool [] t = refl
contains-discard tool (p ∷ tools) t = ground (arith, contains-discard tool tools t)

module _ (versions : Versions) (machine : Machine) where
  -- The tool is required, or it was asked for.
  abbrev pub IsNeeded : List Text → Text → ToolReq → Type 0
  IsNeeded tools tool req = (req.as_needed ≡ false) ⊎ (contains tools tool ≡ true)

  abbrev pub AllGood : List Text → Dict Text ToolReq → Type 0
  AllGood tools reqs =
      All (λ (tool, req). IsNeeded tools tool req → IsGood versions machine req) reqs

  -- A tool that is taken out of those pending is needed no less by the others.
  AllGood-discard :
      (tool : Text) (tools : List Text) (reqs : Dict Text ToolReq)
      → contains (keys reqs) tool ≡ false
      → AllGood (discard tool tools) reqs
      → AllGood tools reqs
  unfolding keys
  AllGood-discard tool tools [] _ h = tt
  AllGood-discard tool tools ((t, req) ∷ reqs) apart (good, rest) = (
    λ needed. elim needed [ inl always ↦ good (inl always) | inr asked ↦ good (inr (still asked)) ],
    AllGood-discard tool tools reqs later rest,
  )
    where
      still : contains tools t ≡ true → contains (discard tool tools) t ≡ true
      still asked = ground (arith, contains-discard tool tools t)

      later : contains (keys reqs) tool ≡ false
      later = ground arith

  -- A round that checks the tool goes on with the others.
  checked-ok :
      (tools : List Text) (tool : Text) (req : ToolReq) (reqs : Dict Text ToolReq)
      (left : List Text)
      → (check versions machine req >>= λ result.
          check_all versions machine (discard tool tools) reqs >>= λ state.
          ok (noted tool (result.0) state))
        ≡ ok ([], left)
      → IsGood versions machine req
        × (check_all versions machine (discard tool tools) reqs ≡ ok ([], left))
  checked-ok tools tool req reqs left e =
      let ((good, message), e1, e2) =
        >>=-eq-ok (check versions machine req)
          (λ result. check_all versions machine (discard tool tools) reqs >>= λ state.
            ok (noted tool (result.0) state))
          e in
      let ((missing, left'), e3, e4) =
        >>=-eq-ok (check_all versions machine (discard tool tools) reqs)
          (λ state. ok (noted tool good state)) e2 in
      let (is_good, none_missing, same) = ended good missing left' e4 in
      (
        (check-good_iff versions machine req).0 (message, rw (← is_good) e1),
        rw (← none_missing, ← same) e3,
      )
    where
      ended :
          (good : Bool) (missing left' : List Text)
          → ◌≡◌ {A = Result Crash (List Text × List Text)}
              (ok (noted tool good (missing, left')))
              (ok ([], left))
          → (good ≡ true) × (missing ≡ []) × (left' ≡ left)
      ended true missing left' e = (refl, cc, cc)
      ended false missing left' e = cc

  check_all-AllGood :
      (tools : List Text) (reqs : Dict Text ToolReq) (left : List Text)
      → IsDict reqs
      → check_all versions machine tools reqs ≡ ok ([], left)
      → AllGood tools reqs
        × ((t : Text)
            → contains tools t ≡ true
            → (contains (keys reqs) t ≡ true) ⊎ (contains left t ≡ true))
  unfolding check_all keys
  check_all-AllGood tools [] left _ e =
      let same : tools ≡ left = cc in (tt, λ t asked. inr (rw (← same) asked))
  check_all-AllGood tools ((tool, req) ∷ reqs) left (apart, others) e =
      elim (Bool-cases (req.as_needed && not (contains tools tool))) [
        | inl skipped ↦
            let (rest, covers) =
              check_all-AllGood tools reqs left others (rw (check_all, skipped) at e) in
            (
              (λ needed. absurd (not_needed skipped needed), rest),
              λ t asked. either t (covers t asked),
            )
        | inr checked ↦
            let (good, e1) = checked-ok tools tool req reqs left (rw (check_all, checked) at e) in
            let (rest, covers) = check_all-AllGood (discard tool tools) reqs left others e1 in
            (
              (λ _. good, AllGood-discard tool tools reqs apart rest),
              λ t asked. elim (Bool-cases (t == tool)) [
                | inl same ↦ inl (here t same)
                | inr differ ↦ either t (covers t (still t asked differ))
              ],
            )
      ]
    where
      not_needed : (req.as_needed && not (contains tools tool)) ≡ true → IsNeeded tools tool req → ⊥
      not_needed skipped needed = ground arith

      either :
          (t : Text)
          → (contains (keys reqs) t ≡ true) ⊎ (contains left t ≡ true)
          → (contains (tool ∷ keys reqs) t ≡ true) ⊎ (contains left t ≡ true)
      either t h = ground arith

      here : (t : Text) → (t == tool) ≡ true → contains (tool ∷ keys reqs) t ≡ true
      here t same = ground arith

      still :
          (t : Text)
          → contains tools t ≡ true
          → (t == tool) ≡ false
          → contains (discard tool tools) t ≡ true
      still t asked differ = ground (arith, contains-discard tool tools t)

  -- Where `main` returns 0 and the requirements are a dict that could be read, each tool of them
  -- that is always required, or was named on the command line, has a version found that is not
  -- below the one required, and each tool that was named stands in them.
  pub main-zero :
      (tools : List Text) (source : Defined) (reqs : Dict Text ToolReq)
      → read_tool_requirements source ≡ ok reqs
      → IsDict reqs
      → main versions machine tools source ≡ ok 0
      → AllGood tools reqs × ((t : Text) → contains tools t ≡ true → contains (keys reqs) t ≡ true)
  unfolding main
  main-zero tools source reqs e_read distinct e =
      let (state, e1, e2) =
        >>=-eq-ok (check_all versions machine tools reqs) (λ state. ok (exit_code state))
          (rw (main, e_read) at e) in
      let (good, covers) =
        check_all-AllGood tools reqs [] distinct (e1 ∙ ap ok (zero_exit state e2)) in
      (good, λ t asked. elim (covers t asked) [ inl found ↦ found | inr pending ↦ cc ])
    where
      zero_exit :
          (state : List Text × List Text)
          → ◌≡◌ {A = Result Crash ℕ} (ok (exit_code state)) (ok 0)
          → state ≡ ([], [])
      zero_exit ([], []) e = refl
      zero_exit ([], t ∷ left) e = cc
      zero_exit (t ∷ missing, left) e = cc
