-- ===== src/ToolRequirements/Check/Good.antt =====
-- When `check` of check_tool_requirements.py says that a tool is good.
use ibex.Base.{◌≡◌, ◌↔◌, refl, ap, ◌∙◌, inl, inr, Bool, true, false, Bool-cases, if◌then◌else◌}
use ibex.Base.Results.{Result, err, ok, >>=-eq-ok, Result-cases}
use ibex.Base.Text.{Text}
use ibex.ToolRequirements.{ToolReq, Machine, Versions}
use ibex.ToolRequirements.Check.{
  Crash, Message, Outcome, bad_requirement, bad_required_semver, bad_installed,
  bad_installed_semver, too_old, recent, get_version, semver, compare_versions, verdict, check,
}

module _ (versions : Versions) (machine : Machine) (req : ToolReq) where
  -- The requirement and the version found have a semantic format, and the version found is not
  -- below the requirement.
  abbrev pub IsGood : Type 0
  IsGood =
      (required installed : versions.Version) × (version : Text) × (semver versions req.kind true
          bad_requirement bad_required_semver req.min_version
        ≡ ok required)
      × (get_version machine req ≡ ok (ok version))
      × (semver versions req.kind false bad_installed bad_installed_semver version ≡ ok installed)
      × (versions.less installed required ≡ false)

  compare_versions-ok :
      (required : versions.Version) (outcome : Outcome)
      → compare_versions versions req required outcome ≡ ok tt
      → (installed : versions.Version) × (version : Text) × (outcome ≡ ok version)
        × (semver versions req.kind false bad_installed bad_installed_semver version ≡ ok installed)
        × (versions.less installed required ≡ false)
  unfolding compare_versions
  compare_versions-ok required (err message) e = cc
  compare_versions-ok required (ok version) e =
      let (installed, found, newer) =
        >>=-eq-ok (semver versions req.kind false bad_installed bad_installed_semver version)
          (λ installed. if versions.less installed required then err too_old else ok tt) e in
      (installed, version, refl, found, not_less installed newer)
    where
      refused : ◌≡◌ {A = Result Message (Unit {0})} (err too_old) (ok tt) → ⊥
      refused e = cc

      not_less :
          (installed : versions.Version)
          → ◌≡◌ {A = Result Message (Unit {0})}
              (if versions.less installed required then err too_old else ok tt)
              (ok tt)
          → versions.less installed required ≡ false
      not_less installed e = elim (Bool-cases (versions.less installed required)) [
        | inl older ↦ absurd (refused (rw older at e))
        | inr newer ↦ newer
      ]

  refused :
      (m message : Message)
      → ◌≡◌ {A = Result Crash (Bool × Message)} (ok (false, m)) (ok (true, message))
      → ⊥
  refused m message e = cc

  verdict-true :
      (result : Result Message (Unit {0})) (message : Message)
      → ◌≡◌ {A = Result Crash (Bool × Message)} (ok (verdict versions result)) (ok (true, message))
      → result ≡ ok tt
  verdict-true (err m) message e = cc
  verdict-true (ok tt) message e = refl

  -- `check` says that a tool is good only if the requirement and the version found have a semantic
  -- format, and the version found is not below the requirement; and it says so then.
  pub check-good_iff :
      ((message : Message) × (check versions machine req ≡ ok (true, message))) ↔ IsGood
  unfolding check compare_versions
  check-good_iff = (λ (message, e). to message e, from)
    where
      to : (message : Message) → check versions machine req ≡ ok (true, message) → IsGood
      to message e =
          elim (Result-cases
            (semver versions req.kind true bad_requirement bad_required_semver req.min_version)) [
              | inr (m, none_required) ↦ absurd (refused m message (rw (check, none_required) at e))
              | inl (required, e1) ↦
                  let (outcome, e2, e3) =
                    >>=-eq-ok (get_version machine req)
                      (λ outcome.
                        ok (verdict versions (compare_versions versions req required outcome)))
                      (rw (check, e1) at e) in
                  let (installed, version, e4, e5, e6) =
                    compare_versions-ok required outcome
                      (verdict-true (compare_versions versions req required outcome) message e3) in
                  (required, installed, version, e1, e2 ∙ ap ok e4, e5, e6)
            ]

      from : IsGood → (message : Message) × (check versions machine req ≡ ok (true, message))
      from (required, installed, version, e1, e2, e3, e4) =
          (recent, rw (check, e1, e2, compare_versions, e3, e4) refl)
