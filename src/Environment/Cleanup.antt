-- ===== src/Environment/Cleanup.antt =====
-- The task that deletes orphaned environments, operator/scheduler/tasks/environments_cleanup.go,
-- over the environments that the API server stores.
pub mod Orphaned
use radix_operator.Prelude.{
  ℕ, ◌+◌, String, Bool, true, false, not, ◌&&◌, Option, none, some, List, [], ◌∷◌, ◌==◌, ltb,
  find_all,
}
use radix_operator.Environment.Sync.{RadixEnvironment}

-- `t != nil && t.Before(now - retentionPeriod)`
abbrev pub is_older : Option ℕ → ℕ → ℕ → Bool
is_older none retention_period now = false
is_older (some t) retention_period now = ltb (t + retention_period) now

unfoldable pub is_outdated : ℕ → ℕ → RadixEnvironment → Bool
is_outdated retention_period now env =
    env.status.orphaned && is_older env.status.orphaned_timestamp retention_period now

unfoldable pub get_outdated_orphaned_environments :
    ℕ → ℕ → List RadixEnvironment → List RadixEnvironment
unfolding is_outdated
get_outdated_orphaned_environments retention_period now =
    find_all (is_outdated retention_period now)

-- The answer to a deletion; NotFound is no error.
pub data DeleteAnswer : Type 0 where
  deleted not_found : DeleteAnswer
  failed : String → DeleteAnswer

unfoldable pub without_environment : String → List RadixEnvironment → List RadixEnvironment
without_environment name = find_all (λ e. not (e.name == name))

-- One round of the loop.
unfoldable pub delete_environment :
    DeleteAnswer → String → List RadixEnvironment → List RadixEnvironment
unfolding without_environment
delete_environment deleted name stored = without_environment name stored
delete_environment not_found name stored = without_environment name stored
delete_environment (failed e) name stored = stored

unfoldable pub delete_environments :
    (String → DeleteAnswer) → List RadixEnvironment → List RadixEnvironment → List RadixEnvironment
unfolding delete_environment
delete_environments answers [] stored = stored
delete_environments answers (env ∷ envs) stored =
    delete_environments answers envs (delete_environment (answers env.name) env.name stored)

-- `Run`; `lists` says that the environments can be listed.
unfoldable pub run :
    Bool → (String → DeleteAnswer) → ℕ → ℕ → List RadixEnvironment → List RadixEnvironment
unfolding delete_environments get_outdated_orphaned_environments
run false answers retention_period now stored = stored
run true answers retention_period now stored =
    delete_environments answers (get_outdated_orphaned_environments retention_period now stored)
      stored
