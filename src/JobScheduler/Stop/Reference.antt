-- ===== src/JobScheduler/Stop/Reference.antt =====
-- What a stop of all jobs of a batch, or of all batches, is to do to the stored batches, and what
-- the runs that meet an error do of it.
use radix_operator.Prelude.{
  String, Bool, ◌&&◌, ◌||◌, List, [], ◌∷◌, map, ◌≡◌, refl, ap, ◌⊎◌, inl, inr, is_empty, equal_fold,
  Bool-cases, ◌∙◌, if◌then◌else◌,
}
use radix_operator.Batch.Types.{RadixBatchJob, RadixBatchJobStatus, RadixBatch}
use radix_operator.JobScheduler.Stop.{is_batch_stoppable, is_job_finished, request_stop}

-- Every job that is not finished is asked to stop.
unfoldable pub stop_unfinished : List RadixBatchJobStatus → RadixBatchJob → RadixBatchJob
stop_unfinished statuses job = if is_job_finished statuses job then job else request_stop job

-- The batch is one that the call is about.
abbrev pub selected : String → RadixBatch → Bool
selected batch_name batch = is_empty batch_name || equal_fold batch.name batch_name

unfoldable pub stop_all_jobs : RadixBatch → RadixBatch
stop_all_jobs batch = record batch {
  jobs = map (stop_unfinished batch.status.job_statuses) batch.jobs;
}

unfoldable pub stop_selected : String → RadixBatch → RadixBatch
stop_selected batch_name batch =
    if selected batch_name batch && is_batch_stoppable batch.status.condition.condition_type
    then stop_all_jobs batch
    else batch

is_job_finished-request_stop :
    (statuses : List RadixBatchJobStatus) (job : RadixBatchJob)
    → is_job_finished statuses (request_stop job) ≡ is_job_finished statuses job
unfolding is_job_finished
is_job_finished-request_stop statuses job = refl

-- A second request changes nothing.
stop_unfinished_twice :
    (statuses : List RadixBatchJobStatus) (job : RadixBatchJob)
    → stop_unfinished statuses (stop_unfinished statuses job) ≡ stop_unfinished statuses job
unfolding stop_unfinished
stop_unfinished_twice statuses job = elim (Bool-cases (is_job_finished statuses job)) [
  | inl e ↦ rw (e, e) refl
  | inr e ↦ rw e (rw (is_job_finished-request_stop statuses job) (rw e refl))
]

map_stop_twice :
    (statuses : List RadixBatchJobStatus) (jobs : List RadixBatchJob)
    → map (stop_unfinished statuses) (map (stop_unfinished statuses) jobs)
      ≡ map (stop_unfinished statuses) jobs
map_stop_twice statuses [] = refl
map_stop_twice statuses (job ∷ jobs) =
    rw (stop_unfinished_twice statuses job) (rw (map_stop_twice statuses jobs) refl)

pub stop_selected_twice :
    (batch_name : String) (batch : RadixBatch)
    → stop_selected batch_name (stop_selected batch_name batch) ≡ stop_selected batch_name batch
unfolding stop_selected stop_all_jobs
stop_selected_twice batch_name batch =
    elim (Bool-cases
      (selected batch_name batch && is_batch_stoppable batch.status.condition.condition_type)) [
        | inl e ↦
            rw (e, e)
              (ap (λ (jobs : List RadixBatchJob). record batch { jobs = jobs })
                (map_stop_twice batch.status.job_statuses batch.jobs))
        | inr e ↦ rw (e, e) refl
      ]

pub name-stop_selected :
    (batch_name : String) (batch : RadixBatch) → (stop_selected batch_name batch).name ≡ batch.name
unfolding stop_selected stop_all_jobs
name-stop_selected batch_name batch =
    elim (Bool-cases
      (selected batch_name batch && is_batch_stoppable batch.status.condition.condition_type)) [
        | inl e ↦ rw e refl
        | inr e ↦ rw e refl
      ]

-- Each batch is as it was or as it is to be.
abbrev pub Partly : String → List RadixBatch → List RadixBatch → Type 0
Partly batch_name [] [] = Unit
Partly batch_name [] (b ∷ bs) = ⊥
Partly batch_name (b ∷ bs) [] = ⊥
Partly batch_name (b ∷ bs) (c ∷ cs) =
    ((c ≡ b) ⊎ (c ≡ stop_selected batch_name b)) × Partly batch_name bs cs

pub Partly-refl :
    (batch_name : String) (batches : List RadixBatch) → Partly batch_name batches batches
Partly-refl batch_name [] = tt
Partly-refl batch_name (b ∷ bs) = (inl refl, Partly-refl batch_name bs)

pub Partly-trans :
    (batch_name : String) (as' bs cs : List RadixBatch)
    → Partly batch_name as' bs
    → Partly batch_name bs cs
    → Partly batch_name as' cs
Partly-trans n [] [] [] h k = tt
Partly-trans n [] [] (c ∷ cs) h k = k
Partly-trans n [] (b ∷ bs) cs h k = absurd h
Partly-trans n (a ∷ as') [] cs h k = absurd h
Partly-trans n (a ∷ as') (b ∷ bs) [] h k = k
Partly-trans n (a ∷ as') (b ∷ bs) (c ∷ cs) (h, hs) (k, ks) =
    (go h k, Partly-trans n as' bs cs hs ks)
  where
    go :
        ((b ≡ a) ⊎ (b ≡ stop_selected n a))
        → ((c ≡ b) ⊎ (c ≡ stop_selected n b))
        → (c ≡ a) ⊎ (c ≡ stop_selected n a)
    go (inl e) (inl f) = inl (f ∙ e)
    go (inl e) (inr f) = inr (f ∙ ap (stop_selected n) e)
    go (inr e) (inl f) = inr (f ∙ e)
    go (inr e) (inr f) = inr (f ∙ ap (stop_selected n) e ∙ stop_selected_twice n a)

-- What a partial run leaves to do gives the same batches.
pub map-Partly :
    (batch_name : String) (as' bs : List RadixBatch)
    → Partly batch_name as' bs
    → map (stop_selected batch_name) bs ≡ map (stop_selected batch_name) as'
map-Partly n [] [] h = refl
map-Partly n [] (b ∷ bs) h = absurd h
map-Partly n (a ∷ as') [] h = absurd h
map-Partly n (a ∷ as') (b ∷ bs) (inl e, hs) = rw e (rw (map-Partly n as' bs hs) refl)
map-Partly n (a ∷ as') (b ∷ bs) (inr e, hs) =
    rw e (rw (stop_selected_twice n a) (rw (map-Partly n as' bs hs) refl))
