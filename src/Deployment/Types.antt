-- ===== src/Deployment/Types.antt =====
-- The RadixDeployment of pkg/apis/radix/v1/radixdeploytypes.go, with its metadata and status, and
-- the order of deployments in pkg/apis/deployment/deployment.go. The zero time is 0.
use radix_operator.Prelude.{ℕ, String, Bool, true, false, ltb, nat_beq, if◌then◌else◌}

pub data RadixDeployCondition : Type 0 where
  unset active inactive : RadixDeployCondition

abbrev pub is_active : RadixDeployCondition → Bool
is_active active = true
is_active unset = false
is_active inactive = false

abbrev pub is_inactive : RadixDeployCondition → Bool
is_inactive inactive = true
is_inactive unset = false
is_inactive active = false

pub data RadixDeploymentReconcileStatus : Type 0 where
  unset reconcile_succeeded reconcile_failed : RadixDeploymentReconcileStatus

pub record RadixDeployStatus : Type 0 where
  pub active_from : ℕ
  pub active_to : ℕ
  pub condition : RadixDeployCondition
  pub reconciled : ℕ
  pub observed_generation : ℕ
  pub reconcile_status : RadixDeploymentReconcileStatus
  pub message : String

pub record RadixDeployment : Type 0 where
  pub name : String
  pub creation_timestamp : ℕ
  pub generation : ℕ
  pub status : RadixDeployStatus

unfoldable pub get_active_from : RadixDeployment → ℕ
get_active_from rd =
    if nat_beq rd.status.active_from 0 then rd.creation_timestamp else rd.status.active_from

unfoldable pub is_rd1_active_before_rd2 : RadixDeployment → RadixDeployment → Bool
unfolding get_active_from
is_rd1_active_before_rd2 rd1 rd2 = ltb (get_active_from rd1) (get_active_from rd2)
