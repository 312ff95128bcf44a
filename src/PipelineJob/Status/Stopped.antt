-- ===== src/PipelineJob/Status/Stopped.antt =====
-- A pipeline job that is stopped.
use radix_operator.Prelude.{
  ℕ, String, true, ◌≡◌, refl, Option, none, some, List, [], ◌∷◌, map, all, arith,
}
use radix_operator.PipelineJob.Types.{running, stopped, is_done, RadixJobStep, RadixJob}
use radix_operator.PipelineJob.Status.{
  stop_step, get_stopped_steps, stop_job, stop_deleted, updated, stopped_status,
}

stopped_steps_are_done :
    (steps : List RadixJobStep) → all (λ s. is_done s.condition) (map stop_step steps) ≡ true
unfolding stop_step
stopped_steps_are_done [] = refl
stopped_steps_are_done (s ∷ ss) = let ih = stopped_steps_are_done ss in ground arith

-- After a stop that returns no error, the condition of the pipeline job is Stopped and it has an
-- end time; if it was running, each of its steps has a final condition.
stop_job_stops :
    (now : ℕ) (delete_error update_error : Option String) (rj : RadixJob)
    → (stop_job now delete_error update_error rj).error ≡ none
    → ((stop_job now delete_error update_error rj).radix_job.status.condition ≡ stopped)
      × ((stop_job now delete_error update_error rj).radix_job.status.ended ≡ some now)
unfolding stop_job stop_deleted updated stopped_status
stop_job_stops now delete_error update_error rj fine = ground arith

-- After a stop of a running pipeline job that returns no error, each of its steps has a final
-- condition.
stop_job_ends_steps :
    (now : ℕ) (delete_error update_error : Option String) (rj : RadixJob)
    → rj.status.condition ≡ running
    → (stop_job now delete_error update_error rj).error ≡ none
    → all
        (λ s. is_done s.condition)
        (stop_job now delete_error update_error rj).radix_job.status.steps
      ≡ true
unfolding stop_job stop_deleted updated stopped_status get_stopped_steps
stop_job_ends_steps now none none rj runs fine = rw runs (stopped_steps_are_done rj.status.steps)
stop_job_ends_steps now none (some e) rj runs fine = absurd (ground arith)
stop_job_ends_steps now (some e) u rj runs fine = absurd (ground arith)
