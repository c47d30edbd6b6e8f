-- ===== src/RerankJobs/Jobs/Built.antt =====
-- When `build_jobs` of rerank_sbfl_with_llm.py has jobs.
use ibex.Base.{
  ◌≡◌, ◌↔◌, refl, ap, inl, inr, true, false, Option, List, [], ◌∷◌, is_empty, Bool-cases,
  if◌then◌else◌,
}
use ibex.Base.Results.{Result, ok, err, >>=-eq-ok, Result-cases}
use ibex.Base.Text.{Text}
use ibex.RerankJobs.Cases.{JobError, Selection}
use ibex.RerankJobs.Jobs.{
  Files, Job, read_run_metadata, resolve_rtl_path, resolve_patch_path, build_job, build_all,
  build_jobs,
}

module _ (files : Files) (repo_root rtl_path : Text) (patchs_root : Option Text) where
  -- Each selection has its job, in their order.
  abbrev pub AreBuilt : List Selection → List Job → Type 0
  AreBuilt [] [] = Unit
  AreBuilt [] (job ∷ jobs) = ⊥
  AreBuilt (s ∷ selected) [] = ⊥
  AreBuilt (s ∷ selected) (job ∷ jobs) =
      (build_job files repo_root rtl_path patchs_root s ≡ ok job) × AreBuilt selected jobs

  -- The loop has no errors and these jobs.
  abbrev IsBuilt : List Selection → List Job → Type 0
  IsBuilt selected jobs =
      let out = build_all files repo_root rtl_path patchs_root selected in
      (out.0 ≡ jobs) × (is_empty out.1 ≡ true)

  build_all_iff :
      (selected : List Selection) (jobs : List Job) → IsBuilt selected jobs ↔ AreBuilt selected jobs
  unfolding build_all
  build_all_iff [] [] = (λ _. tt, λ _. (refl, refl))
  build_all_iff [] (job ∷ jobs) = (λ (e, _). cc, λ h. absurd h)
  build_all_iff (s ∷ selected) [] =
      elim (Result-cases (build_job files repo_root rtl_path patchs_root s)) [
        | inl (job, e) ↦
            (λ (same, _). absurd (some_job job (rw (build_all, e) at same)), λ h. absurd h)
        | inr (error, e) ↦
            (λ (_, none_kept). absurd (some_error (rw e at none_kept)), λ h. absurd h)
      ]
    where
      some_job : {jobs : List Job} (job : Job) → job ∷ jobs ≡ [] → ⊥
      some_job job p = cc

      some_error : false ≡ true → ⊥
      some_error p = cc
  build_all_iff (s ∷ selected) (job ∷ jobs) =
      let (to, from) = build_all_iff selected jobs in
      elim (Result-cases (build_job files repo_root rtl_path patchs_root s)) [
        | inl (built, e) ↦ rw e (
          λ (same, none_left). (ap ok (cc), to (tail built same, none_left)),
          λ (is, rest).
              let (same, none_left) = from rest in
              let job_is : built ≡ job = cc in (rw (same, job_is) refl, none_left),
        )
        | inr (error, e) ↦
            rw e (
              λ (_, none_left). absurd (some_error none_left),
              λ (is, _). absurd (refused error is),
            )
      ]
    where
      some_error : false ≡ true → ⊥
      some_error p = cc

      refused : (error : JobError) → ◌≡◌ {A = Result JobError Job} (err error) (ok job) → ⊥
      refused error p = cc

      tail : {xs : List Job} (x : Job) → x ∷ xs ≡ job ∷ jobs → xs ≡ jobs
      tail x p = cc

-- There are jobs exactly if the RTL directory exists and each selected result has its job, and
-- they are those jobs in that order.
pub build_jobs-ok_iff :
    (files : Files) (repo_root : Text) (selected : List Selection) (explicit_rtl : Text)
    (patchs_root : Option Text) (jobs : List Job)
    → (build_jobs files repo_root selected explicit_rtl patchs_root ≡ ok jobs) ↔ (
        (files.is_dir (resolve_rtl_path files repo_root explicit_rtl) ≡ true)
        × AreBuilt files repo_root
            (resolve_rtl_path files repo_root explicit_rtl)
            patchs_root
            selected
            jobs)
unfolding build_jobs
build_jobs-ok_iff files repo_root selected explicit_rtl patchs_root jobs =
    let rtl_path = resolve_rtl_path files repo_root explicit_rtl in
    let (to, from) = build_all_iff files repo_root rtl_path patchs_root selected jobs in
    elim (Bool-cases (files.is_dir rtl_path)) [
      | inl e ↦ rw e (
        λ p. (refl, to (from_errors (build_all files repo_root rtl_path patchs_root selected) p)),
        λ (_, are). let (same, none_left) = from are in rw (none_left, same) refl,
      )
      | inr e ↦ rw e (λ p. absurd (cc), λ (p, _). absurd (cc))
    ]
  where
    from_errors :
        (out : List Job × List JobError)
        → ◌≡◌ {A = Result (List JobError) (List Job)}
            (if is_empty out.1 then ok out.0 else err out.1)
            (ok jobs)
        → (out.0 ≡ jobs) × (is_empty out.1 ≡ true)
    from_errors (jobs', []) p = (cc, refl)
    from_errors (jobs', e ∷ errors) p = absurd (cc)

-- A job that was built names the directories it was given and a patch file that exists.
pub build_job-ok :
    (files : Files) (repo_root rtl_path : Text) (patchs_root : Option Text) (s : Selection)
    (job : Job)
    → build_job files repo_root rtl_path patchs_root s ≡ ok job
    → (job.rtl_path ≡ rtl_path)
      × (job.result_dir ≡ s.result_dir)
      × (files.is_file job.patch_path ≡ true)
unfolding build_job
build_job-ok files repo_root rtl_path patchs_root s job h =
    let (metadata, e, h1) = >>=-eq-ok (read_run_metadata files s.result_dir) _ h in
    let (patch_path, e1, h2) =
      >>=-eq-ok (resolve_patch_path files repo_root metadata patchs_root s.bugset s.diff_name) _
        h1 in
    elim (Bool-cases (files.is_file patch_path)) [
      | inl there ↦
          let same = rw there at h2 in
          let path_is : patch_path ≡ job.patch_path = cc in (cc, cc, rw (← path_is) there)
      | inr absent ↦ absurd (refused (rw absent at h2))
    ]
  where
    refused : ◌≡◌ {A = Result JobError Job} (err JobError.no_patch) (ok job) → ⊥
    refused p = cc
