-- ===== src/JobScheduler/Stop/Refines.antt =====
-- A stop of all jobs does to the stored batches what it is to do, also where runs are retried.
use radix_operator.Prelude.{
  String, Bool, true, false, not, ◌&&◌, some, none, List, [], &&-true, ◌∷◌, map, ◌≡◌, refl, ap, sym,
  ◌∙◌, ◌⊎◌, inl, inr, is_empty, any, equal_fold, arith, Bool-cases, Option,
}
use radix_operator.Batch.Types.{RadixBatch}
use radix_operator.JobScheduler.Stop.{
  Outcome, external, failed, finished, Run, stop_jobs_in_batches, Answers, attempt, retried, done,
  answer_of, stop_radix_batch_job,
}
use radix_operator.JobScheduler.Stop.Reference.{
  stop_selected, name-stop_selected, Partly, Partly-refl, Partly-trans, map-Partly,
}
use radix_operator.JobScheduler.Stop.Runs.{stop_jobs_in_batches-Runs}

module _ (batch_name : String) where
  attempt-Runs :
      (batches : List RadixBatch) (answers : Answers)
      → Partly batch_name batches (attempt batch_name "" batches answers).batches
        × ((fb fj : Bool)
            → (attempt batch_name "" batches answers).outcome ≡ finished fb fj
            → ((attempt batch_name "" batches answers).batches
                ≡ map (stop_selected batch_name) batches)
              × (fb
                  ≡ (not (is_empty batch_name) && any (λ b. equal_fold b.name batch_name) batches)))
  unfolding attempt
  attempt-Runs batches answers = go answers.list_error
    where
      not_finished : (e : String) (fb fj : Bool) → failed (e ∷ []) ≡ finished fb fj → ⊥
      not_finished e fb fj q = cc

      run : Option String → Run
      run listing = elim listing [
        | some e ↦ record { batches = batches; outcome = failed (e ∷ []) }
        | none ↦ stop_jobs_in_batches answers.update_error batch_name "" false false [] batches
      ]

      go :
          (listing : Option String)
          → Partly batch_name batches (run listing).batches
            × ((fb fj : Bool)
                → (run listing).outcome ≡ finished fb fj
                → ((run listing).batches ≡ map (stop_selected batch_name) batches)
                  × (fb ≡ (
                      not (is_empty batch_name)
                      && any (λ b. equal_fold b.name batch_name) batches)))
      go (some e) = (Partly-refl batch_name batches, λ fb fj q. absurd (not_finished e fb fj q))
      go none =
          let (part, end) =
            stop_jobs_in_batches-Runs answers.update_error batch_name false [] batches in
          (part, λ fb fj q. let (e1, e2, e3, e4) = end fb fj q in (e1, e4))

  retried-Partly :
      (batches : List RadixBatch) (earlier : List Answers)
      → Partly batch_name batches (retried batch_name "" batches earlier)
  unfolding retried
  retried-Partly batches [] = Partly-refl batch_name batches
  retried-Partly batches (a ∷ as') =
      let next = (attempt batch_name "" batches a).batches in
      Partly-trans batch_name batches next (retried batch_name "" next as')
        (attempt-Runs batches a).0 (retried-Partly next as')

  -- The names of the batches stay as they are.
  any-Partly :
      (as' bs : List RadixBatch)
      → Partly batch_name as' bs
      → any (λ b. equal_fold b.name batch_name) bs ≡ any (λ b. equal_fold b.name batch_name) as'
  any-Partly [] [] h = refl
  any-Partly [] (b ∷ bs) h = absurd h
  any-Partly (a ∷ as') [] h = absurd h
  any-Partly (a ∷ as') (b ∷ bs) (one, hs) = rw (any-Partly as' bs hs) (rw (same one) refl)
    where
      same : ((b ≡ a) ⊎ (b ≡ stop_selected batch_name a)) → b.name ≡ a.name
      same (inl e) = ap (λ (x : RadixBatch). x.name) e
      same (inr e) = ap (λ (x : RadixBatch). x.name) e ∙ name-stop_selected batch_name a

  done_of :
      (o : Outcome)
      → answer_of batch_name "" o ≡ done
      → (fb fj : Bool) × (o ≡ finished fb fj) × ((is_empty batch_name ≡ true) ⊎ (fb ≡ true))
  unfolding answer_of
  done_of (external e) h = cc
  done_of (failed es) h = cc
  done_of (finished fb fj) h = (fb, fj, refl, found)
    where
      found : (is_empty batch_name ≡ true) ⊎ (fb ≡ true)
      found = elim (Bool-cases (is_empty batch_name)) [ inl e ↦ inl e | inr e ↦ inr (ground arith) ]

-- A stop of a batch, or of all batches, that succeeds has asked all jobs of the batches that it is
-- about to stop, but those that are finished, and has changed nothing else, however many runs
-- before the last one met an error; a stop of one batch has found it. Whatever the answer is, each
-- batch is left as it was or as a success leaves it. No other client changes the batches meanwhile.
pub stop_radix_batch_job-stops :
    (batch_name : String) (batches : List RadixBatch) (earlier : List Answers) (last : Answers)
    → Partly batch_name batches (stop_radix_batch_job batch_name "" batches earlier last).0
      × ((stop_radix_batch_job batch_name "" batches earlier last).1 ≡ done
          → ((stop_radix_batch_job batch_name "" batches earlier last).0
              ≡ map (stop_selected batch_name) batches)
            × ((is_empty batch_name ≡ true)
                ⊎ (any (λ b. equal_fold b.name batch_name) batches ≡ true)))
unfolding stop_radix_batch_job
stop_radix_batch_job-stops batch_name batches earlier last =
    let before = retried batch_name "" batches earlier in
    let part = retried-Partly batch_name batches earlier in
    let (one, end) = attempt-Runs batch_name before last in
    (
      Partly-trans batch_name batches before (attempt batch_name "" before last).batches part one,
      λ ok.
          let (fb, fj, e, found) =
            done_of batch_name (attempt batch_name "" before last).outcome ok in
          let (stopped_all, is_found) = end fb fj e in
          (
            stopped_all ∙ map-Partly batch_name batches before part,
            elim found [
              | inl every ↦ inl every
              | inr one_found ↦
                  let named = any-Partly batch_name batches before part in
                  inr (sym named ∙ (&&-true _ _ (sym is_found ∙ one_found)).1)
            ],
          ),
    )
