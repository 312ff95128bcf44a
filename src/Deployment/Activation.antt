-- ===== src/Deployment/Activation.antt =====
-- Which deployment of an environment is active: `trySetActiveCondition`, `setOtherRDsToInactive`
-- and `isLatest` of pkg/apis/deployment/deployment.go. The deployments of the namespace, as the
-- API server stores them, are a list. A status update replaces the deployment of its name by the
-- updated copy. `update_error` is the answer of the API server to the update of a deployment: none
-- if it succeeds. `sort` is `sortRDsByActiveFromTimestampDesc`.
pub mod Unique
pub mod Others
pub mod Active
use radix_operator.Prelude.{
  ℕ, String, Bool, true, false, not, ◌&&◌, Option, none, some, List, [], ◌∷◌, map, ◌==◌, any,
  equal_fold, if◌then◌else◌,
}
use radix_operator.Deployment.Types.{
  RadixDeployCondition, active, inactive, is_active, is_inactive, RadixDeploymentReconcileStatus,
  reconcile_succeeded, reconcile_failed, RadixDeployStatus, RadixDeployment, get_active_from,
  is_rd1_active_before_rd2,
}

unfoldable pub is_latest : RadixDeployment → List RadixDeployment → Bool
unfolding is_rd1_active_before_rd2
is_latest deploy all_rds =
    not (any (λ rd. not (rd.name == deploy.name) && is_rd1_active_before_rd2 deploy rd) all_rds)

-- The stored deployments after the status update of one.
unfoldable pub store_update : RadixDeployment → List RadixDeployment → List RadixDeployment
store_update rd = map (λ k. if k.name == rd.name then rd else k)

-- The update that makes the deployment active.
unfoldable pub set_active : ℕ → RadixDeployment → RadixDeployment
set_active now rd = record rd {
  status = record rd.status {
    active_from = if is_active rd.status.condition then rd.status.active_from else now;
    condition = active;
  };
}

-- The update that ends the time of a deployment when that of its successor begins.
unfoldable pub set_inactive : RadixDeployment → RadixDeployment → RadixDeployment
unfolding get_active_from
set_inactive prev rd = record rd {
  status = record rd.status {
    condition = inactive;
    active_to = get_active_from prev;
    active_from = get_active_from rd;
  };
}

-- The state of the loop of `setOtherRDsToInactive`.
pub record Loop : Type 0 where
  pub prev : RadixDeployment
  pub stored : List RadixDeployment
  pub error : Option String

deactivate_stored : Option String → RadixDeployment → RadixDeployment → List RadixDeployment → Loop
unfolding store_update set_inactive
deactivate_stored (some e) prev rd stored = record { prev = prev; stored = stored; error = some e }
deactivate_stored none prev rd stored = record {
  prev = rd;
  stored = store_update (set_inactive prev rd) stored;
  error = none;
}

-- The deployment that the syncer holds, the stored ones, the result and the error.
pub record Outcome : Type 0 where
  pub own : RadixDeployment
  pub stored : List RadixDeployment
  pub is_active_condition : Bool
  pub error : Option String

-- The result of `trySetActiveCondition` from that of the loop.
activated : RadixDeployment → List RadixDeployment × Option String → Outcome
activated own (stored, none) = record {
  own = own;
  stored = stored;
  is_active_condition = true;
  error = none;
}
activated own (stored, some e) = record {
  own = own;
  stored = stored;
  is_active_condition = false;
  error = some e;
}

-- `if err != nil { return err }` in the loop.
unless_failed :
    Option String
    → List RadixDeployment
    → List RadixDeployment × Option String
    → List RadixDeployment × Option String
unless_failed (some e) stored rest = (stored, some e)
unless_failed none stored rest = rest

module _ (update_error : String → Option String) where
  -- One round of the loop.
  unfoldable pub deactivate_one :
      RadixDeployment → RadixDeployment → RadixDeployment → List RadixDeployment → Loop
  unfolding deactivate_stored
  deactivate_one own prev rd stored =
      if equal_fold rd.name own.name
      then record { prev = own; stored = stored; error = none }
      else if is_inactive rd.status.condition
      then record { prev = rd; stored = stored; error = none }
      else deactivate_stored (update_error rd.name) prev rd stored

  unfoldable pub deactivate_others :
      RadixDeployment
      → RadixDeployment
      → List RadixDeployment
      → List RadixDeployment
      → List RadixDeployment × Option String
  unfolding deactivate_one unless_failed
  deactivate_others own prev [] stored = (stored, none)
  deactivate_others own prev (rd ∷ rds) stored =
      let round = deactivate_one own prev rd stored in
      unless_failed round.error round.stored (deactivate_others own round.prev rds round.stored)

  unfoldable pub set_other_rds_to_inactive :
      RadixDeployment
      → List RadixDeployment
      → List RadixDeployment
      → List RadixDeployment × Option String
  unfolding deactivate_others
  set_other_rds_to_inactive own [] stored = (stored, none)
  set_other_rds_to_inactive own (first ∷ rest) stored =
      deactivate_others own first (first ∷ rest) stored

  -- After the list of the deployments: the answer to the update of the own one.
  activate :
      Option String
      → ℕ
      → (List RadixDeployment → List RadixDeployment)
      → RadixDeployment
      → List RadixDeployment
      → Outcome
  unfolding set_other_rds_to_inactive activated set_active store_update
  activate (some e) now sort own stored = record {
    own = own;
    stored = stored;
    is_active_condition = false;
    error = some e;
  }
  activate none now sort own stored =
      let own' = set_active now own in
      activated own' (set_other_rds_to_inactive own' (sort stored) (store_update own' stored))

  -- `list_error` is the answer to the request for the deployments.
  unfoldable pub try_set_active_condition :
      Option String
      → ℕ
      → (List RadixDeployment → List RadixDeployment)
      → RadixDeployment
      → List RadixDeployment
      → Outcome
  unfolding activate is_latest
  try_set_active_condition (some e) now sort own stored = record {
    own = own;
    stored = stored;
    is_active_condition = false;
    error = some e;
  }
  try_set_active_condition none now sort own stored =
      if is_latest own stored
      then activate (update_error own.name) now sort own stored
      else record { own = own; stored = stored; is_active_condition = false; error = none }
