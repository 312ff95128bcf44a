-- ===== src/JobScheduler/Stop/Runs.antt =====
-- A stop of all jobs, in one run over the batches.
use radix_operator.Prelude.{
  String, Bool, true, false, not, ◌&&◌, ◌||◌, some, none, List, [], append-nil, ◌==◌, ◌∷◌, ◌++◌,
  map, ◌≡◌, refl, ap, sym, ◌∙◌, ◌⊎◌, inl, inr, is_empty, any, equal_fold, arith, Bool-cases, Option,
  if◌then◌else◌,
}
use radix_operator.Batch.Types.{RadixBatchJob, RadixBatch}
use radix_operator.JobScheduler.Stop.{
  is_batch_stoppable, JobsStop, refused, stopped, stop_jobs, stop_jobs_in_batch, external, failed,
  finished, Run, with_batch, end_of, update_batch, after_jobs, stop_jobs_in_batches, StopError,
  batch_not_stoppable,
}
use radix_operator.JobScheduler.Stop.Reference.{
  selected, stop_all_jobs, stop_selected, Partly, Partly-refl,
}
use radix_operator.JobScheduler.Stop.Jobs.{StopsAll, stop_jobs-StopsAll}

module _ (update_error : String → Option String) (batch_name : String) where
  -- What a run gives for the batches.
  abbrev pub Runs : Bool → List String → List RadixBatch → Run → Type 0
  Runs found_batch errs batches run =
      Partly batch_name batches run.batches
      × ((fb fj : Bool)
          → run.outcome ≡ finished fb fj
          → (run.batches ≡ map (stop_selected batch_name) batches)
            × (errs ≡ [])
            × (fj ≡ false)
            × (fb ≡ (
                found_batch
                || (not (is_empty batch_name) && any (λ b. equal_fold b.name batch_name) batches))))

  abbrev Rest : Bool → List RadixBatch → (Bool → List String → Run) → Type 0
  Rest found batches rest = (es : List String) → Runs found es batches (rest false es)

  skip-Runs :
      (found_batch : Bool) (errs : List String) (b : RadixBatch) (batches : List RadixBatch)
      (r : Run)
      → stop_selected batch_name b ≡ b
      → (not (is_empty batch_name) && equal_fold b.name batch_name) ≡ false
      → Runs found_batch errs batches r
      → Runs found_batch errs (b ∷ batches) (with_batch b r)
  skip-Runs found_batch errs b batches r same other h = (
    (inl refl, h.0),
    λ fb fj e.
        let (e1, e2, e3, e4) = h.1 fb fj e in
        (rw same (ap (λ (bs : List RadixBatch). b ∷ bs) e1), e2, e3, e4 ∙ ground arith),
  )

  add_batch :
      (found_batch : Bool) (errs es : List String) (b b' : RadixBatch) (batches : List RadixBatch)
      (r : Run)
      → selected batch_name b ≡ true
      → (b' ≡ b) ⊎ (b' ≡ stop_selected batch_name b)
      → (es ≡ [] → (b' ≡ stop_selected batch_name b) × (errs ≡ []))
      → Runs (found_batch || not (is_empty batch_name)) es batches r
      → Runs found_batch errs (b ∷ batches) (with_batch b' r)
  add_batch found_batch errs es b b' batches r sel one ok h = (
    (one, h.0),
    λ fb fj e.
        let (e1, e2, e3, e4) = h.1 fb fj e in
        (
          rw (ok e2).0 (ap (λ (bs : List RadixBatch). stop_selected batch_name b ∷ bs) e1),
          (ok e2).1,
          e3,
          e4 ∙ ground arith,
        ),
  )

  visit-Runs :
      (found_batch : Bool) (errs : List String) (b : RadixBatch) (batches : List RadixBatch)
      (s : JobsStop) (rest : Bool → List String → Run)
      → stop_selected batch_name b ≡ stop_all_jobs b
      → selected batch_name b ≡ true
      → StopsAll b.status.job_statuses false b.jobs s
      → Rest (found_batch || not (is_empty batch_name)) batches rest
      → Runs found_batch errs
          (b ∷ batches)
          (after_jobs update_error batch_name "" b s errs batches rest)
  unfolding after_jobs update_batch stop_all_jobs
  visit-Runs found_batch errs b batches (refused e) rest same sel h k =
      ((inl refl, Partly-refl batch_name batches), λ fb fj q. absurd (not_finished fb fj q))
    where
      not_finished : (fb fj : Bool) → external e ≡ finished fb fj → ⊥
      not_finished fb fj q = cc
  visit-Runs found_batch errs b batches (stopped found false jobs) rest same sel (nf, all, keep) k =
      add_batch found_batch errs errs b b batches (rest found errs) sel (inl refl)
        (λ none_yet. (
          ap (λ (js : List RadixBatchJob). record b { jobs = js }) (sym (keep refl).1 ∙ all)
              ∙ sym same,
          none_yet,
        ))
        (rw nf (k errs))
  visit-Runs found_batch errs b batches (stopped found true jobs) rest same sel (nf, all, keep) k =
      go (update_error b.name)
    where
      stopped_batch : record b { jobs = jobs } ≡ stop_selected batch_name b
      stopped_batch = ap (λ (js : List RadixBatchJob). record b { jobs = js }) all ∙ sym same

      some_error : (e : String) → errs ++ e ∷ [] ≡ [] → ⊥
      some_error e q = not_nil (append-nil errs (e ∷ []) q).1
        where
          not_nil : e ∷ [] ≡ [] → ⊥
          not_nil c = cc

      go :
          (u : Option String)
          → Runs found_batch errs (b ∷ batches) (elim u [
            | none ↦ with_batch (record b { jobs = jobs }) (rest found errs)
            | some e ↦ with_batch b (rest found (errs ++ e ∷ []))
          ])
      go none =
          add_batch found_batch errs errs b (record b { jobs = jobs }) batches (rest found errs) sel
            (inr stopped_batch) (λ none_yet. (stopped_batch, none_yet)) (rw nf (k errs))
      go (some e) =
          add_batch found_batch errs (errs ++ e ∷ []) b b batches (rest found (errs ++ e ∷ [])) sel
            (inl refl) (λ q. absurd (some_error e q)) (rw nf (k (errs ++ e ∷ [])))

  -- A batch that the call is not about, and one that cannot be stopped, stay as they are.
  not_selected :
      (b : RadixBatch)
      → (not (is_empty batch_name) && not (equal_fold b.name batch_name)) ≡ true
      → (stop_selected batch_name b ≡ b)
        × ((not (is_empty batch_name) && equal_fold b.name batch_name) ≡ false)
  unfolding stop_selected
  not_selected b h =
      let off : selected batch_name b ≡ false = ground arith in (rw off refl, ground arith)

  is_selected :
      (b : RadixBatch)
      → (not (is_empty batch_name) && not (equal_fold b.name batch_name)) ≡ false
      → selected batch_name b ≡ true
  is_selected b h = ground arith

  can_stop :
      (b : RadixBatch)
      → selected batch_name b ≡ true
      → is_batch_stoppable b.status.condition.condition_type ≡ true
      → stop_selected batch_name b ≡ stop_all_jobs b
  unfolding stop_selected
  can_stop b sel can = rw (sel, can) refl

  cannot_stop :
      (b : RadixBatch)
      → is_batch_stoppable b.status.condition.condition_type ≡ false
      → stop_selected batch_name b ≡ b
  unfolding stop_selected
  cannot_stop b h =
      let off : (selected batch_name b && is_batch_stoppable b.status.condition.condition_type)
          ≡ false =
        ground arith in
      rw off refl

  at_end :
      (found_batch : Bool) (errs : List String) (fb fj : Bool)
      → end_of errs found_batch false ≡ finished fb fj
      → (errs ≡ []) × (fj ≡ false) × (fb ≡ (found_batch || (not (is_empty batch_name) && false)))
  at_end found_batch [] fb fj e = (refl, cc, ground arith)
  at_end found_batch (x ∷ xs) fb fj e = absurd (not_finished e)
    where
      not_finished : failed (x ∷ xs) ≡ finished fb fj → ⊥
      not_finished q = cc

  refused_batch :
      (found_batch : Bool) (errs : List String) (batches : List RadixBatch) (e : StopError)
      → Runs found_batch errs batches (record { batches = batches; outcome = external e })
  refused_batch found_batch errs batches e =
      (Partly-refl batch_name batches, λ fb fj q. absurd (not_finished fb fj q))
    where
      not_finished : (fb fj : Bool) → external e ≡ finished fb fj → ⊥
      not_finished fb fj q = cc

  unstoppable :
      (found_batch : Bool) (errs : List String) (b : RadixBatch) (batches : List RadixBatch)
      (r : Run)
      → is_batch_stoppable b.status.condition.condition_type ≡ false
      → Runs found_batch errs batches r
      → (every : Bool) → is_empty batch_name ≡ every
      → Runs found_batch errs (b ∷ batches) (
          if every
          then with_batch b r
          else record { batches = b ∷ batches; outcome = external (batch_not_stoppable b.name) })
  unstoppable found_batch errs b batches r cannot h true e =
      skip-Runs found_batch errs b batches r (cannot_stop b cannot) (rw e refl) h
  unstoppable found_batch errs b batches r cannot h false e =
      refused_batch found_batch errs (b ∷ batches) (batch_not_stoppable b.name)

  pub stop_jobs_in_batches-Runs :
      (found_batch : Bool) (errs : List String) (batches : List RadixBatch)
      → Runs found_batch errs batches
          (stop_jobs_in_batches update_error batch_name "" found_batch false errs batches)
  unfolding stop_jobs_in_batches stop_jobs_in_batch
  stop_jobs_in_batches-Runs found_batch errs [] =
      (tt, λ fb fj e. let (e1, e2, e3) = at_end found_batch errs fb fj e in (refl, e1, e2, e3))
  stop_jobs_in_batches-Runs found_batch errs (b ∷ batches) =
      let ih = stop_jobs_in_batches-Runs found_batch errs batches in
      let now = found_batch || not (is_empty batch_name) in
      let rest = λ (es : List String). stop_jobs_in_batches-Runs now es batches in
      let skip = stop_jobs_in_batches update_error batch_name "" found_batch false errs batches in
      elim (Bool-cases (not (is_empty batch_name) && not (equal_fold b.name batch_name))) [
        | inl other ↦ rw other (
            skip-Runs found_batch errs b batches skip (not_selected b other).0
              (not_selected b other).1 ih)
        | inr same ↦ elim (Bool-cases (is_batch_stoppable b.status.condition.condition_type)) [
          | inl can ↦
              rw (same, can)
                (visit-Runs found_batch errs b batches
                  (stop_jobs batch_name "" b.name (b.type_label == "job") b.status.job_statuses
                    false false b.jobs)
                  (λ fj es. stop_jobs_in_batches update_error batch_name "" now fj es batches)
                  (can_stop b (is_selected b same) can) (is_selected b same)
                  (stop_jobs-StopsAll batch_name b.name (b.type_label == "job")
                    b.status.job_statuses false b.jobs)
                  rest)
          | inr cannot ↦
              rw (same, cannot)
                (unstoppable found_batch errs b batches skip cannot ih (is_empty batch_name) refl)
        ]
      ]
