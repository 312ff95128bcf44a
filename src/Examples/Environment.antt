-- ===== src/Examples/Environment.antt =====
-- An environment that is taken out of its application, and its cleanup.
use radix_operator.Prelude.{
  ℕ, ◌+◌, ◌<◌, String, true, ◌≡◌, ◌⊎◌, refl, none, some, List, [], ◌∷◌, Memᴰ, false,
}
use radix_operator.Environment.Sync.{
  RadixEnvironment, RadixEnvironmentReconcileStatus, Calls, Answers, HandlerAnswers, object_found,
  not_found, application_found,
}
use radix_operator.Environment.Sync.Status.{after, OrphanedSince}
use radix_operator.Environment.Cleanup.{DeleteAnswer, run}
use radix_operator.Environment.Cleanup.Orphaned.{run-deletes}

abbrev environment : RadixEnvironment
environment = record {
  name = "app-dev";
  app_name = "app";
  env_name = "dev";
  generation = 1;
  status = record {
    orphaned = false;
    orphaned_timestamp = none;
    reconciled = 0;
    observed_generation = 0;
    reconcile_status = RadixEnvironmentReconcileStatus.unset;
    message = "";
  };
}

abbrev calls : Calls
calls = record { merge_labels = λ old new. new; pod_security = []; text = λ _. "failed" }

abbrev synced : List String → HandlerAnswers
synced environments = record {
  environment = object_found;
  registration = object_found;
  application = application_found environments;
  answers = record {
    namespace = not_found;
    update_namespace = none;
    create_namespace = none;
    apply_admin_roles = none;
    apply_pipeline_role = none;
    apply_limit_range = none;
    update_egress_rules = none;
    update_status = none;
  };
}

-- The last sync is the first of the list.
abbrev history : List (HandlerAnswers × ℕ)
history = (synced ("qa" ∷ []), 30) ∷ (synced ("qa" ∷ []), 20) ∷ (synced ("dev" ∷ []), 10) ∷ []

run-deletes_example :
    Memᴰ
      (after calls history environment)
      (run true (λ _. DeleteAnswer.deleted) 100 200 (after calls history environment ∷ []))
    ⊎ ((t : ℕ) × (t + 100 < 200) × OrphanedSince calls t "dev" history)
run-deletes_example =
    run-deletes calls history environment true (λ _. DeleteAnswer.deleted) 100 200
      (after calls history environment ∷ []) refl (refl, tt) (Memᴰ.head refl)

-- The time of the second sync is that of the status, and the environment is deleted.
orphaned_at_twenty : (after calls history environment).status.orphaned_timestamp ≡ some 20
unfolding radix_operator.Environment.Sync.sync
orphaned_at_twenty = refl

is_deleted :
    run true (λ _. DeleteAnswer.deleted) 100 200 (after calls history environment ∷ []) ≡ []
unfolding run radix_operator.Environment.Sync.sync
is_deleted = refl
