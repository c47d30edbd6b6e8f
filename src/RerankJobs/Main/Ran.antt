-- ===== src/RerankJobs/Main/Ran.antt =====
-- The commands that `main` of rerank_sbfl_with_llm.py hands to `run_jobs`.
use ibex.Base.{
  ℕ, ◌<◌, ◌≡◌, ap, ◌∙◌, inl, inr, Bool, true, false, ◌&&◌, ◌||◌, Option, List, [], ◌∷◌, map,
  is_empty, length, ltb, All, Bool-cases, arith, if◌then◌else◌,
}
use ibex.Base.Results.{Result, ok, err, Result-cases}
use ibex.Base.Text.{Text, codes}
use ibex.Batch.Paths.{joined}
use ibex.RerankJobs.Arguments.{ArgError, Args, parse_args, has_option}
use ibex.RerankJobs.Arguments.Model.{prepared}
use ibex.RerankJobs.Cases.{Selection}
use ibex.RerankJobs.Jobs.{Files, Job, build_jobs}
use ibex.RerankJobs.Jobs.Built.{AreBuilt, build_jobs-ok_iff, build_job-ok}
use ibex.RerankJobs.Main.{
  collect_selected_results, build_command, Outcome, exits, listed, ran, is_refused, select_jobs,
  run_selected, run_parsed, main, resolved, target_value, is_missing, is_given,
}

-- What a job must be to be run.
pub record IsReady (files : Files) (skip_existing : Bool) (job : Job) : Type 0 where
  pub has_rtl : files.is_dir job.rtl_path ≡ true
  pub has_patch : files.is_file job.patch_path ≡ true
  pub is_new :
      skip_existing ≡ true → files.is_file (joined job.result_dir (codes "llm_rerank.json")) ≡ false

-- The jobs whose commands are run.
pub record AreReady (files : Files) (args : Args) (forwarded : List Text) (jobs : List Job)
    : Type 0 where
  pub each : All (IsReady files args.skip_existing) jobs
  pub allowed :
      All
        (λ name. has_option forwarded name ≡ false)
        (codes "--patch"
          ∷ codes "--patch-path"
          ∷ codes "--patch_path"
          ∷ codes "--allow-unpatched-source"
          ∷ [])
  pub own_output : 1 < length jobs → has_option forwarded (codes "--output") ≡ false

module _ (files : Files) (repo_root : Text) where
  -- What the jobs have before the existing results are left out.
  abbrev IsPatched : Job → Type 0
  IsPatched job = (files.is_dir job.rtl_path ≡ true) × (files.is_file job.patch_path ≡ true)

  AreBuilt-IsPatched :
      (rtl_path : Text) (patchs_root : Option Text) (selected : List Selection) (jobs : List Job)
      → files.is_dir rtl_path ≡ true
      → AreBuilt files repo_root rtl_path patchs_root selected jobs
      → All IsPatched jobs
  AreBuilt-IsPatched rtl_path patchs_root [] [] has_rtl are = tt
  AreBuilt-IsPatched rtl_path patchs_root [] (job ∷ jobs) has_rtl are = absurd are
  AreBuilt-IsPatched rtl_path patchs_root (s ∷ selected) [] has_rtl are = absurd are
  AreBuilt-IsPatched rtl_path patchs_root (s ∷ selected) (job ∷ jobs) has_rtl (is, are) =
      let (rtl_is, _, has_patch) = build_job-ok files repo_root rtl_path patchs_root s job is in
      (
        (ap files.is_dir rtl_is ∙ has_rtl, has_patch),
        AreBuilt-IsPatched rtl_path patchs_root selected jobs has_rtl are,
      )

  select_jobs-IsReady :
      (skip_existing : Bool) (jobs : List Job)
      → All IsPatched jobs
      → All (IsReady files skip_existing) (select_jobs files skip_existing jobs)
  unfolding select_jobs
  select_jobs-IsReady skip_existing [] h = tt
  select_jobs-IsReady skip_existing (job ∷ jobs) ((has_rtl, has_patch), h) =
      elim (Bool-cases
        (skip_existing && files.is_file (joined job.result_dir (codes "llm_rerank.json")))) [
          | inl e ↦ rw e (select_jobs-IsReady skip_existing jobs h)
          | inr e ↦ rw e (
            record {
              has_rtl = has_rtl;
              has_patch = has_patch;
              is_new = λ skips. ground (arith, e, skips);
            },
            select_jobs-IsReady skip_existing jobs h,
          )
        ]

  module _ (args : Args) (forwarded : List Text) (commands : List (List Text)) (workers : ℕ)
      (stop : Bool) where
    run_selected-ran :
        (selected : List Job)
        → run_selected files repo_root args forwarded selected ≡ ran commands workers stop
        → (commands ≡ map (build_command repo_root (prepared forwarded)) selected)
          × (workers ≡ args.jobs)
          × (stop ≡ args.stop_on_error)
          × (1 < length selected → has_option forwarded (codes "--output") ≡ false)
    unfolding run_selected
    run_selected-ran selected h =
        elim (Bool-cases (ltb 1 (length selected) && has_option forwarded (codes "--output"))) [
          | inl e ↦ absurd (no_start (rw (run_selected, e) at h))
          | inr e ↦ elim (Bool-cases args.list_only) [
            | inl l ↦ absurd (not_listed (rw (run_selected, e, l) at h))
            | inr l ↦
                let same = rw (run_selected, e, l) at h in
                (cc, cc, cc, λ many. ground (arith, e, many))
          ]
        ]
      where
        no_start : exits 2 ≡ ran commands workers stop → ⊥
        no_start p = cc

        not_listed :
            listed (map (build_command repo_root (prepared forwarded)) selected)
              ≡ ran commands workers stop
            → ⊥
        not_listed p = cc

    -- `main` behind the results that are selected.
    abbrev behind_results : Option Text → List Selection → Outcome
    behind_results summary selected_results =
        elim (build_jobs files repo_root selected_results args.rtl_path args.patchs_path) [
          | err _ ↦ exits 2
          | ok jobs ↦
              if is_given summary && is_empty selected_results
              then exits 0
              else run_selected files repo_root args forwarded
                  (select_jobs files args.skip_existing jobs)
        ]

    none_refused :
        is_refused forwarded ≡ false
        → All
            (λ name. has_option forwarded name ≡ false)
            (codes "--patch"
              ∷ codes "--patch-path"
              ∷ codes "--patch_path"
              ∷ codes "--allow-unpatched-source"
              ∷ [])
    unfolding is_refused
    none_refused e = ground (arith, e)

    run_jobs-ran :
        (summary : Option Text) (selected_results : List Selection)
        → (is_missing files summary || is_refused forwarded) ≡ false
        → behind_results summary selected_results ≡ ran commands workers stop
        → (jobs : List Job) × AreReady files args forwarded jobs
          × (commands ≡ map (build_command repo_root (prepared forwarded)) jobs)
          × (workers ≡ args.jobs)
          × (stop ≡ args.stop_on_error)
    run_jobs-ran summary selected_results e h =
        elim (Result-cases
          (build_jobs files repo_root selected_results args.rtl_path args.patchs_path)) [
            | inr (errors, e1) ↦ absurd (no_start 2 (rw (behind_results, e1) at h))
            | inl (jobs, e1) ↦ elim (Bool-cases (is_given summary && is_empty selected_results)) [
              | inl none_given ↦ absurd (no_start 0 (rw (behind_results, e1, none_given) at h))
              | inr some_given ↦
                  let selected : List Job = select_jobs files args.skip_existing jobs in
                  let (is_run, workers_is, stop_is, own_output) =
                    run_selected-ran selected (rw (behind_results, e1, some_given) at h) in
                  let (has_rtl, are) =
                    (build_jobs-ok_iff files repo_root selected_results args.rtl_path
                        args.patchs_path jobs).0
                      e1 in
                  (
                    selected,
                    record {
                      each =
                          select_jobs-IsReady args.skip_existing jobs (
                            AreBuilt-IsPatched _ args.patchs_path selected_results jobs has_rtl
                              are);
                      allowed = none_refused (ground (arith, e));
                      own_output = own_output;
                    },
                    is_run,
                    workers_is,
                    stop_is,
                  )
            ]
          ]
      where
        no_start : (code : ℕ) → exits code ≡ ran commands workers stop → ⊥
        no_start code p = cc

    run_parsed-ran :
        run_parsed files repo_root args forwarded ≡ ran commands workers stop
        → (jobs : List Job) × AreReady files args forwarded jobs
          × (commands ≡ map (build_command repo_root (prepared forwarded)) jobs)
          × (workers ≡ args.jobs)
          × (stop ≡ args.stop_on_error)
    unfolding run_parsed
    run_parsed-ran h =
        let summary = resolved files args.summary in
        let target = files.resolve (files.expanduser (target_value args)) in
        elim (Bool-cases (is_missing files summary || is_refused forwarded)) [
          | inl e ↦ absurd (no_start (rw (run_parsed, e) at h))
          | inr e ↦ elim (Result-cases (collect_selected_results files target summary)) [
            | inr (error, e1) ↦ absurd (no_start (rw (run_parsed, e, e1) at h))
            | inl ((selected_results, incomplete), e1) ↦
                run_jobs-ran summary selected_results e (rw (run_parsed, e, e1) at h)
          ]
        ]
      where
        no_start : exits 2 ≡ ran commands workers stop → ⊥
        no_start p = cc

-- The commands that are run are those of jobs with an RTL directory and a patch file that exist,
-- without a result where existing ones are skipped; none of the options that name a patch or allow
-- an unpatched source is passed on, and with more than one job none names an output.
pub main-ran :
    (files : Files) (repo_root : Text) (parser : List Text → Result ArgError Args)
    (argv : List Text) (commands : List (List Text)) (workers : ℕ) (stop : Bool)
    → main files repo_root parser argv ≡ ran commands workers stop
    → (args : Args) × (forwarded : List Text) × (jobs : List Job) × (parse_args parser argv
        ≡ ok (args, forwarded))
      × AreReady files args forwarded jobs
      × (commands ≡ map (build_command repo_root (prepared forwarded)) jobs)
      × (workers ≡ args.jobs)
      × (stop ≡ args.stop_on_error)
unfolding main
main-ran files repo_root parser argv commands workers stop h =
    elim (Result-cases (parse_args parser argv)) [
      | inr (error, e) ↦ absurd (no_start _ (rw (main, e) at h))
      | inl ((args, forwarded), e) ↦
          elim (Bool-cases (files.is_dir (joined repo_root (codes "tools/ibex_sbfl_llm")))) [
            | inr absent ↦ absurd (no_start 2 (rw (main, e, absent) at h))
            | inl there ↦
                let (jobs, ready, commands_are, workers_is, stop_is) =
                  run_parsed-ran files repo_root args forwarded commands workers stop
                    (rw (main, e, there) at h) in
                (args, forwarded, jobs, e, ready, commands_are, workers_is, stop_is)
          ]
    ]
  where
    no_start : (code : ℕ) → exits code ≡ ran commands workers stop → ⊥
    no_start code p = cc
