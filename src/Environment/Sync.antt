-- ===== src/Environment/Sync.antt =====
-- The reconciliation of an environment: Sync of operator/environment/handler.go, and OnSync,
-- reconcile, reconcileNamespace and syncStatus of pkg/apis/environment. The answers of the API
-- server are arguments; the role bindings, the limit range and the egress rules give their errors.
pub mod Status
use radix_operator.Prelude.{
  ℕ, String, Bool, true, false, not, ◌&&◌, ◌||◌, Option, none, some, List, [], ◌∷◌, ◌==◌, any,
  find_all, if◌then◌else◌,
}

pub data RadixEnvironmentReconcileStatus : Type 0 where
  unset reconcile_succeeded reconcile_failed : RadixEnvironmentReconcileStatus

pub record RadixEnvironmentStatus : Type 0 where
  pub orphaned : Bool
  pub orphaned_timestamp : Option ℕ
  pub reconciled : ℕ
  pub observed_generation : ℕ
  pub reconcile_status : RadixEnvironmentReconcileStatus
  pub message : String

pub record RadixEnvironment : Type 0 where
  pub name : String
  pub app_name : String
  pub env_name : String
  pub generation : ℕ
  pub status : RadixEnvironmentStatus

-- The labels of a namespace, a map from keys to values.
abbrev pub Labels : Type 0
Labels = List (String × String)

unfoldable pub label_of : String → Labels → Option String
label_of key [] = none
label_of key ((k, v) ∷ labels) = if k == key then some v else label_of key labels

unfoldable pub remove_label : String → Labels → Labels
remove_label key = find_all (λ (k, _). not (k == key))

-- The answer to the request for the namespace.
pub data NamespaceAnswer : Type 0 where
  found : Labels → NamespaceAnswer
  not_found : NamespaceAnswer
  failed : String → NamespaceAnswer

pub data EnvironmentError : Type 0 where
  get_namespace_failed update_namespace_failed create_namespace_failed : String → EnvironmentError
  namespace_of_other_app : Option String → EnvironmentError
  admin_roles_failed pipeline_role_failed limit_range_failed : String → EnvironmentError
  egress_rules_failed : String → EnvironmentError

-- What the code calls: `labels.Merge` of apimachinery, the labels of the pod security standard in
-- the configuration, and the texts of errors.
pub record Calls : Type 0 where
  pub merge_labels : Labels → Labels → Labels
  pub pod_security : Labels
  pub text : EnvironmentError → String

-- The labels that `getCurrentAndDesiredNamespace` sets.
unfoldable pub desired_labels : Calls → RadixEnvironment → Labels → Labels
unfolding remove_label
desired_labels calls env current =
    let own : Labels =
      ("sync", "cluster-wildcard-tls-cert")
      ∷ ("radix-wildcard-sync", "radix-wildcard-tls-cert")
      ∷ ("radix-private-image-hubs-sync", env.app_name)
      ∷ ("radix-app", env.app_name)
      ∷ ("radix-env", env.env_name)
      ∷ [] in
    remove_label "active-cluster-wildcard-sync" (
      remove_label "app-wildcard-sync" (
        remove_label "cluster-wildcard-sync"
          (calls.merge_labels (calls.merge_labels current own) calls.pod_security)))

-- The answers of the API server to the calls of one reconciliation.
pub record Answers : Type 0 where
  pub namespace : NamespaceAnswer
  pub update_namespace : Option String
  pub create_namespace : Option String
  pub apply_admin_roles : Option String
  pub apply_pipeline_role : Option String
  pub apply_limit_range : Option String
  pub update_egress_rules : Option String
  pub update_status : Option String

abbrev has_app_label : RadixEnvironment → Option String → Bool
has_app_label env none = false
has_app_label env (some app) = app == env.app_name

-- The labels of the namespace after the call, if it exists, and the error.
abbrev pub applied :
    (String → EnvironmentError)
    → Option String
    → Option Labels
    → Labels
    → Option Labels × Option EnvironmentError
applied error none current desired = (some desired, none)
applied error (some e) current desired = (current, some (error e))

unfoldable pub reconcile_namespace :
    Calls → Answers → RadixEnvironment → NamespaceAnswer → Option Labels × Option EnvironmentError
unfolding label_of desired_labels
reconcile_namespace calls answers env (failed e) = (none, some (get_namespace_failed e))
reconcile_namespace calls answers env not_found =
    applied create_namespace_failed answers.create_namespace none (desired_labels calls env [])
reconcile_namespace calls answers env (found labels) =
    if has_app_label env (label_of "radix-app" labels)
    then applied update_namespace_failed answers.update_namespace (some labels)
        (desired_labels calls env labels)
    else (some labels, some (namespace_of_other_app (label_of "radix-app" labels)))

-- `if err := f(); err != nil { return err }`, then the rest.
abbrev pub or_else : Option EnvironmentError → Option EnvironmentError → Option EnvironmentError
or_else none rest = rest
or_else (some e) rest = some e

abbrev call_error : (String → EnvironmentError) → Option String → Option EnvironmentError
call_error error none = none
call_error error (some e) = some (error e)

unfoldable pub reconcile : Calls → Answers → RadixEnvironment → Option EnvironmentError
unfolding reconcile_namespace
reconcile calls answers env = or_else (reconcile_namespace calls answers env answers.namespace).1 (
    or_else (call_error admin_roles_failed answers.apply_admin_roles) (
      or_else (call_error pipeline_role_failed answers.apply_pipeline_role) (
        or_else (call_error limit_range_failed answers.apply_limit_range)
          (call_error egress_rules_failed answers.update_egress_rules))))

-- The names of the environments of the application, if there is one.
unfoldable pub exists_in_app_config : Option (List String) → String → Bool
exists_in_app_config none env_name = false
exists_in_app_config (some envs) env_name = any (λ e. e == env_name) envs

abbrev pub orphaned_since : Bool → Option ℕ → ℕ → Option ℕ
orphaned_since true none now = some now
orphaned_since true (some t) now = some t
orphaned_since false t now = none

-- The change of the status.
unfoldable pub change_status :
    Calls
    → Option (List String)
    → ℕ
    → Option EnvironmentError
    → RadixEnvironment
    → RadixEnvironmentStatus
unfolding exists_in_app_config
change_status calls app now error env =
    let is_orphaned = not (exists_in_app_config app env.env_name) in
    let changed = record env.status {
      orphaned = is_orphaned;
      orphaned_timestamp = orphaned_since is_orphaned env.status.orphaned_timestamp now;
      reconciled = now;
      observed_generation = env.generation;
    } in
    elim error [
      | some e ↦ record changed { reconcile_status = reconcile_failed; message = calls.text e }
      | none ↦ record changed { reconcile_status = reconcile_succeeded; message = "" }
    ]

pub data SyncError : Type 0 where
  get_registration_failed : String → SyncError
  get_environment_failed : String → SyncError
  reconcile_error : EnvironmentError → SyncError
  sync_status_failed : String → SyncError

abbrev status_answer : Option EnvironmentError → Option SyncError
status_answer none = none
status_answer (some e) = some (reconcile_error e)

-- The stored environment after `syncStatus`, and what it returns.
unfoldable pub sync_status :
    Calls
    → Option (List String)
    → Answers
    → ℕ
    → Option EnvironmentError
    → RadixEnvironment
    → RadixEnvironment × Option SyncError
unfolding change_status
sync_status calls app answers now error env = elim answers.update_status [
  | some e ↦ (env, some (sync_status_failed e))
  | none ↦ (record env { status = change_status calls app now error env }, status_answer error)
]

-- `OnSync`; without a registration nothing is done.
unfoldable pub on_sync :
    Calls
    → Bool
    → Option (List String)
    → Answers
    → ℕ
    → RadixEnvironment
    → RadixEnvironment × Option SyncError
unfolding reconcile sync_status
on_sync calls has_registration app answers now env =
    if has_registration
    then sync_status calls app answers now (reconcile calls answers env) env
    else (env, none)

-- The answers to the requests of the handler.
pub data ObjectAnswer : Type 0 where
  object_found : ObjectAnswer
  object_not_found : ObjectAnswer
  object_failed : String → ObjectAnswer

-- The answer for the application: the environments that it names, or an error.
pub data ApplicationAnswer : Type 0 where
  application_found : List String → ApplicationAnswer
  application_failed : ApplicationAnswer

-- The error of the request for the application is ignored.
abbrev pub application_of : ApplicationAnswer → Option (List String)
application_of (application_found envs) = some envs
application_of application_failed = none

pub record HandlerAnswers : Type 0 where
  pub environment : ObjectAnswer
  pub registration : ObjectAnswer
  pub application : ApplicationAnswer
  pub answers : Answers

module _ (calls : Calls) where
  unfoldable pub with_registration :
      HandlerAnswers → ℕ → RadixEnvironment → ObjectAnswer → RadixEnvironment × Option SyncError
  unfolding on_sync
  with_registration h now env (object_failed e) = (env, some (get_registration_failed e))
  with_registration h now env object_not_found =
      on_sync calls false (application_of h.application) h.answers now env
  with_registration h now env object_found =
      on_sync calls true (application_of h.application) h.answers now env

  unfoldable pub with_environment :
      HandlerAnswers → ℕ → RadixEnvironment → ObjectAnswer → RadixEnvironment × Option SyncError
  unfolding with_registration
  with_environment h now env object_not_found = (env, none)
  with_environment h now env (object_failed e) = (env, some (get_environment_failed e))
  with_environment h now env object_found = with_registration h now env h.registration

  -- `Sync` of the handler.
  unfoldable pub sync : HandlerAnswers → ℕ → RadixEnvironment → RadixEnvironment × Option SyncError
  unfolding with_environment
  sync h now env = with_environment h now env h.environment
