-- ===== src/PipelineJob/Status/Kept.antt =====
-- What an update of the status of a pipeline job leaves as it is.
use radix_operator.Prelude.{ℕ, String, true, false, ◌≡◌, refl, Option, none, some, arith}
use radix_operator.PipelineJob.Types.{stopped, RadixJobStatus, RadixJob}
use radix_operator.PipelineJob.Queue.Exclusion.{Same}
use radix_operator.PipelineJob.Status.{Outcome, updated, stop_job, stop_deleted, stopped_status}

-- The outcome has the same job, and the very one if nothing was stored.
pub record Kept (rj : RadixJob) (o : Outcome) : Type 0 where
  pub same : Same rj o.radix_job
  pub unchanged : o.is_stored ≡ false → o.radix_job ≡ rj

pub nothing_stored :
    (rj : RadixJob) (e : Option String)
    → Kept rj (record { radix_job = rj; is_stored = false; error = e })
nothing_stored rj e = record {
  same = record { same_name = refl; same_spec = refl };
  unchanged = λ h. refl;
}

pub updated-Kept :
    (answer : Option String) (change : RadixJobStatus → RadixJobStatus) (rj : RadixJob)
    → Kept rj (updated answer change rj)
unfolding updated
updated-Kept (some e) change rj = nothing_stored rj (some e)
updated-Kept none change rj = record {
  same = record { same_name = refl; same_spec = refl };
  unchanged = λ h. absurd (ground arith);
}

stop_deleted-Kept :
    (now : ℕ) (delete_error update_error : Option String) (rj : RadixJob)
    → Kept rj (stop_deleted now delete_error update_error rj)
unfolding stop_deleted
stop_deleted-Kept now (some e) update_error rj = nothing_stored rj (some e)
stop_deleted-Kept now none update_error rj = updated-Kept update_error _ rj

pub stop_job-Kept :
    (now : ℕ) (delete_error update_error : Option String) (rj : RadixJob)
    → Kept rj (stop_job now delete_error update_error rj)
unfolding stop_job
stop_job-Kept now delete_error update_error rj = stop_deleted-Kept now _ update_error rj

pub stop_job-stopped :
    (now : ℕ) (delete_error update_error : Option String) (rj : RadixJob)
    → (stop_job now delete_error update_error rj).is_stored ≡ true
    → (stop_job now delete_error update_error rj).radix_job.status.condition ≡ stopped
unfolding stop_job stop_deleted updated stopped_status
stop_job-stopped now delete_error update_error rj h = ground arith
