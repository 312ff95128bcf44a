-- ===== src/JobScheduler/Status/Rules.antt =====
-- Which rule of a job component gives the status of a batch.
use radix_operator.Prelude.{
  String, true, false, not, ◌≡◌, refl, ap, some, List, [], ◌∷◌, ◌++◌, all, map, arith, &&-true,
  ◌==◌, Bool-cases, inl, inr,
}
use radix_operator.Batch.Types.{RadixBatchJobPhase, RadixBatch}
use radix_operator.JobScheduler.Status.{
  condition_all, BatchStatusRule, rule_applies, by_condition, status_from_rules,
  get_status_from_status_rules, get_radix_batch_status, has_one_job, condition_type_text,
}

-- The first rule that applies to the phases of the jobs gives the status of the batch, whatever
-- rules follow and whatever the condition of the batch is.
first_rule_decides :
    (phases : List RadixBatchJobPhase) (before after : List BatchStatusRule)
    (rule : BatchStatusRule) (default_status : String)
    → all (λ r. not (rule_applies r phases)) before ≡ true
    → rule_applies rule phases ≡ true
    → get_status_from_status_rules phases (some (before ++ rule ∷ after)) default_status
      ≡ rule.batch_status
unfolding get_status_from_status_rules status_from_rules
first_rule_decides phases [] after rule default_status none_before applies = rw applies refl
first_rule_decides phases (r ∷ rs) after rule default_status none_before applies =
    let parts =
      &&-true (not (rule_applies r phases)) (all (λ x. not (rule_applies x phases)) rs)
        none_before in
    let skip : rule_applies r phases ≡ false = ground (arith, parts.0) in
    rw skip (first_rule_decides phases rs after rule default_status parts.1 applies)

all_rule_without_phases :
    (phases : List RadixBatchJobPhase) (rule : BatchStatusRule) (rules : List BatchStatusRule)
    (default_status : String)
    → phases ≡ []
    → rule.condition ≡ condition_all
    → get_status_from_status_rules phases (some (rule ∷ rules)) default_status ≡ rule.batch_status
unfolding get_status_from_status_rules status_from_rules rule_applies by_condition
all_rule_without_phases phases rule rules default_status empty is_all = rw (empty, is_all) refl

-- A batch of several jobs that has no job status yet gets the status of the first rule of its
-- component, if the condition of that rule is All, whatever the operator and the phases of the
-- rule are.
all_rule_decides_at_once :
    (batch : RadixBatch) (rule : BatchStatusRule) (rules : List BatchStatusRule)
    → has_one_job batch ≡ false
    → batch.status.job_statuses ≡ []
    → rule.condition ≡ condition_all
    → get_radix_batch_status batch (some (rule ∷ rules)) ≡ rule.batch_status
unfolding get_radix_batch_status
all_rule_decides_at_once batch rule rules several no_status is_all =
    let decided =
      all_rule_without_phases (map (λ s. s.phase) batch.status.job_statuses) rule rules
        (condition_type_text batch.status.condition.condition_type)
        (ap (map (λ s. s.phase)) no_status) is_all in
    elim (Bool-cases (batch.type_label == "job")) [
      | inl e ↦ rw (e, several) decided
      | inr e ↦ rw e decided
    ]
