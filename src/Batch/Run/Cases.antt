-- ===== src/Batch/Run/Cases.antt =====
-- When a case succeeds, and what is left of its work directory.
use ibex.Base.{
  ◌≡◌, ◌≢◌, ◌↔◌, inl, inr, refl, Bool, true, false, none, List, [], ◌∷◌, ◌++◌, Bool-cases,
  Option-cases, arith,
}
use ibex.Base.Int.{is_zero, ℤ}
use ibex.Base.Results.{Result, ok, err, Result-cases}
use ibex.Base.Text.{Text, codes}
use ibex.Batch.{Float, ExecutionConfig, GenerationConfig, CaseSpec, CaseResult}
use ibex.Batch.Validate.{BatchError}
use ibex.Batch.Argv.{generation_args}
use ibex.Batch.Run.{
  World, Event, opening, copied_workdir, Ran, finish_case, run_sbfl, build_and_run, patch_and_run,
  lacks_corpus, try_block, clean_up_error, run_case,
}

-- The case ends with the status OK.
abbrev pub Succeeds : Ran → Type 0
Succeeds ran = (r : CaseResult) × (ran.0 ≡ ok r) × (r.status ≡ codes "OK")

ok_not_err :
    (r : CaseResult) (e : BatchError) (x : Result BatchError CaseResult) → x ≡ ok r → x ≡ err e → ⊥
ok_not_err r e x h g = cc

module _ {float : Float} (world : World) (execution : ExecutionConfig)
    (cfg : GenerationConfig float) (case : CaseSpec) (logdir workdir : Text) where
  finish_case-Succeeds :
      (events : List Event) (status : Text) (rc : ℤ)
      → Succeeds (finish_case world execution cfg case logdir workdir events status rc)
        ↔ (status ≡ codes "OK")
  unfolding finish_case
  finish_case-Succeeds events status rc = (λ (r, same, is). ground (arith), λ is. (_, refl, is))

  fails :
      (events : List Event) (status : Text) (rc : ℤ)
      → status ≢ codes "OK"
      → ¬ Succeeds (finish_case world execution cfg case logdir workdir events status rc)
  fails events status rc differs h = differs ((finish_case-Succeeds events status rc).0 h)

  raises : (e : BatchError) (events : List Event) → ¬ Succeeds (err e, events)
  raises e events (r, same, is) = cc

  -- `rc == 0`, where the process could be started.
  abbrev pub returns_zero : Result Text ℤ → Bool
  returns_zero (err e) = false
  returns_zero (ok rc) = is_zero rc

  abbrev pub Generates : Type 0
  Generates =
      (argv : List Text) × (generation_args cfg case logdir workdir ≡ ok argv)
      × (returns_zero world.sbfl_rc ≡ true)

  run_sbfl-Succeeds :
      (events : List Event)
      → Succeeds (run_sbfl world execution cfg case logdir workdir events) ↔ Generates
  unfolding run_sbfl
  run_sbfl-Succeeds events = elim (Result-cases world.sbfl_rc) [
    | inr (e, raised) ↦ (
      λ h. elim (Result-cases (generation_args cfg case logdir workdir)) [
        | inr (f, refused) ↦ absurd (raises _ [] (rw (run_sbfl, refused) at h))
        | inl (argv, made) ↦ absurd (raises _ [] (rw (run_sbfl, made, raised) at h))
      ],
      λ (argv, made, zero_rc). absurd (ground (arith, zero_rc, raised)),
    )
    | inl (rc, at) ↦ (
      λ h. elim (Result-cases (generation_args cfg case logdir workdir)) [
        | inr (f, refused) ↦ absurd (raises _ [] (rw (run_sbfl, refused) at h))
        | inl (argv, made) ↦ elim (Bool-cases (is_zero rc)) [
          | inl z ↦ (argv, made, rw (at, z) refl)
          | inr z ↦
              absurd (fails [] (codes "SBFL_FAIL") rc (λ p. cc) (rw (run_sbfl, made, at, z) at h))
        ]
      ],
      λ (argv, made, zero_rc).
          let z : is_zero rc ≡ true = rw at at zero_rc in
          rw (run_sbfl, made, at, z) (_, refl, refl),
    )
  ]

  abbrev pub Builds : Type 0
  Builds = (returns_zero world.build_rc ≡ true) × (world.binary_is_executable ≡ true) × Generates

  build_and_run-Succeeds :
      (events : List Event)
      → Succeeds (build_and_run world execution cfg case logdir workdir events) ↔ Builds
  unfolding build_and_run
  build_and_run-Succeeds events = elim (Result-cases world.build_rc) [
    | inr (e, raised) ↦ (
      λ h. absurd (raises _ [] (rw (build_and_run, raised) at h)),
      λ (zero_rc, x, made). absurd (ground (arith, zero_rc, raised)),
    )
    | inl (rc, at) ↦ elim (Bool-cases (is_zero rc)) [
      | inr b ↦ (
        λ h. absurd (fails [] (codes "BUILD_FAIL") rc (λ q. cc) (rw (build_and_run, at, b) at h)),
        λ (zero_rc, x, made). absurd (ground (arith, zero_rc, at, b)),
      )
      | inl b ↦ elim (Bool-cases world.binary_is_executable) [
        | inr x ↦ (
          λ h.
              absurd (
                fails [] (codes "SBFL_BIN_MISSING") _ (λ q. cc)
                  (rw (build_and_run, at, b, x) at h)),
          λ (zero_rc, y, made). absurd (ground (arith, y, x)),
        )
        | inl x ↦ (
          λ h. (rw (at, b) refl, x, (run_sbfl-Succeeds _).0 (rw (build_and_run, at, b, x) at h)),
          λ (zero_rc, y, made). rw (build_and_run, at, b, x) ((run_sbfl-Succeeds _).1 made),
        )
      ]
    ]
  ]

  patch_and_run-Succeeds :
      (events : List Event)
      → Succeeds (patch_and_run world execution cfg case logdir workdir events)
        ↔ ((returns_zero world.patch_rc ≡ true) × Builds)
  unfolding patch_and_run
  patch_and_run-Succeeds events = elim (Result-cases world.patch_rc) [
    | inr (e, raised) ↦ (
      λ h. absurd (raises _ [] (rw (patch_and_run, raised) at h)),
      λ (zero_rc, builds). absurd (ground (arith, zero_rc, raised)),
    )
    | inl (rc, at) ↦ elim (Bool-cases (is_zero rc)) [
      | inr p ↦ (
        λ h. absurd (fails [] (codes "APPLY_FAIL") rc (λ q. cc) (rw (patch_and_run, at, p) at h)),
        λ (zero_rc, builds). absurd (ground (arith, zero_rc, at, p)),
      )
      | inl p ↦ (
        λ h. (rw (at, p) refl, (build_and_run-Succeeds _).0 (rw (patch_and_run, at, p) at h)),
        λ (zero_rc, builds). rw (patch_and_run, at, p) ((build_and_run-Succeeds _).1 builds),
      )
    ]
  ]

  -- The guards of the `try` block.
  abbrev Passes : Type 0
  Passes =
      (world.diff_is_file ≡ true)
      × (lacks_corpus world execution cfg case logdir workdir case.corpus ≡ false)
      × (world.copy_error ≡ none)
      × (returns_zero world.patch_rc ≡ true)
      × Builds

  try_block-Succeeds :
      (events : List Event)
      → execution.dry_run ≡ false
      → Succeeds (try_block world execution cfg case logdir workdir events) ↔ Passes
  unfolding try_block
  try_block-Succeeds events real = elim (Bool-cases world.diff_is_file) [
    | inr d ↦ (
      λ h. absurd (fails [] (codes "DIFF_MISSING") _ (λ q. cc) (rw (try_block, d) at h)),
      λ h. absurd (ground (arith, h.0, d)),
    )
    | inl d ↦ elim (Bool-cases (lacks_corpus world execution cfg case logdir workdir case.corpus)) [
      | inl c ↦ (
        λ h. absurd (fails [] (codes "CORPUS_MISSING") _ (λ q. cc) (rw (try_block, d, c) at h)),
        λ h. absurd (ground (arith, h.1, c)),
      )
      | inr c ↦ elim (Option-cases world.copy_error) [
        | inr (e, failed) ↦ (
          λ h.
              absurd (
                fails [] (codes "COPY_FAIL") _ (λ q. cc) (rw (try_block, d, c, real, failed) at h)),
          λ h. absurd (ground (arith, h.2, failed)),
        )
        | inl copied ↦ (
          λ h.
              let (p, builds) =
                (patch_and_run-Succeeds (events ++ copied_workdir workdir ∷ [])).0
                  (rw (try_block, d, c, real, copied) at h) in
              (d, c, copied, p, builds),
          λ (q, b, y, p, builds).
              rw (try_block, d, c, real, copied) ((patch_and_run-Succeeds _).1 (p, builds)),
        )
      ]
    ]
  ]

  -- A case that is really run ends with the status OK exactly if its log directory could be
  -- made, its diff is there, its corpus is there where it has one, the work directory is copied,
  -- the patch, the build and the run could be started and return 0, the binary is there, a
  -- command can be written, and no exception leaves the removal of the work directory.
  pub run_case-Succeeds :
      execution.dry_run ≡ false
      → Succeeds (run_case world execution cfg case logdir workdir) ↔ (
          (world.mkdir_error ≡ none)
          × (world.diff_is_file ≡ true)
          × (lacks_corpus world execution cfg case logdir workdir case.corpus ≡ false)
          × (world.copy_error ≡ none)
          × (returns_zero world.patch_rc ≡ true)
          × Builds
          × (clean_up_error world execution cfg case logdir workdir ≡ none))
  unfolding run_case
  run_case-Succeeds real = elim (Option-cases world.mkdir_error) [
    | inr (e, failed) ↦ (
      λ h. absurd (raises _ [] (rw (run_case, failed) at h)),
      λ h. absurd (ground (arith, h.0, failed)),
    )
    | inl made ↦ elim (Option-cases (clean_up_error world execution cfg case logdir workdir)) [
      | inr (e, failed) ↦ (
        λ h. absurd (raises _ [] (rw (run_case, made, failed) at h)),
        λ h. absurd (ground (arith, h.6, failed)),
      )
      | inl cleaned ↦ (
        λ h.
            let (d, c, y, p, builds) =
              (try_block-Succeeds (opening world execution cfg case logdir workdir) real).0
                (rw (run_case, made, cleaned) at h) in
            (made, d, c, y, p, builds, cleaned),
        λ (m, d, c, y, p, builds, r).
            rw (run_case, made, cleaned)
              ((try_block-Succeeds (opening world execution cfg case logdir workdir) real).1
                (d, c, y, p, builds)),
      )
    ]
  ]
