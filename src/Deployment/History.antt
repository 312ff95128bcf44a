-- ===== src/Deployment/History.antt =====
-- The history of the deployments of an environment: `maintainHistoryLimit` and
-- `getRadixDeploymentsReferencedByJobs` of pkg/apis/deployment/deployment.go. The limit is a
-- natural number: the code takes a negative one as it takes 0. `sort` is
-- `sortRDsByActiveFromTimestampAsc`, and `delete_fails` is the answer of the API server to a
-- deletion. A batch is the name of the deployment that its job reference holds.
pub mod Names
pub mod Kept
use radix_operator.Prelude.{
  ℕ, ◌-◌, String, Bool, not, ◌||◌, Option, none, some, List, [], ◌∷◌, ◌==◌, any, nat_beq, leb,
  if◌then◌else◌, length, take, find_all,
}
use radix_operator.Deployment.Types.{RadixDeployment, is_active}

-- The API server without the deployment of the name.
unfoldable pub delete_stored : String → List RadixDeployment → List RadixDeployment
delete_stored name = find_all (λ k. not (k.name == name))

module _ (delete_fails : String → Bool) (referenced : List String) where
  -- One round of the loop.
  unfoldable pub delete_old_one : RadixDeployment → List RadixDeployment → List RadixDeployment
  unfolding delete_stored
  delete_old_one rd stored =
      if any (λ name. name == rd.name) referenced
      then stored
      else if is_active rd.status.condition
      then stored
      else if delete_fails rd.name
      then stored
      else delete_stored rd.name stored

  unfoldable pub delete_old : List RadixDeployment → List RadixDeployment → List RadixDeployment
  unfolding delete_old_one
  delete_old [] stored = stored
  delete_old (rd ∷ rds) stored = delete_old rds (delete_old_one rd stored)

module _ (delete_fails : String → Bool) (sort : List RadixDeployment → List RadixDeployment) where
  -- From the answer to the list of the batches.
  unfoldable pub delete_beyond :
      Option (List String) → ℕ → List RadixDeployment → List RadixDeployment
  unfolding delete_old
  delete_beyond none num_to_delete stored = stored
  delete_beyond (some referenced) num_to_delete stored =
      delete_old delete_fails referenced (take num_to_delete (sort stored)) stored

  unfoldable pub maintain_history_limit :
      Option (List String) → ℕ → List RadixDeployment → List RadixDeployment
  unfolding delete_beyond
  maintain_history_limit referenced limit stored =
      if nat_beq limit 0
      then stored
      else if leb (length stored) limit
      then stored
      else delete_beyond referenced (length stored - limit) stored
