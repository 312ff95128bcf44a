-- ===== src/Kube/Pod.antt =====
-- The Kubernetes pod, with the fields that the operator reads. Exit codes are those of a process,
-- which are not negative.
use radix_operator.Prelude.{ℕ, String, Option, List}

pub data PodPhase : Type 0 where
  pending running succeeded failed unknown : PodPhase

pub record Terminated : Type 0 where
  pub exit_code : ℕ
  pub reason : String
  pub message : String
  pub started_at : ℕ
  pub finished_at : ℕ

pub record Waiting : Type 0 where
  pub reason : String
  pub message : String

-- `running` holds `StartedAt`.
pub record ContainerState : Type 0 where
  pub running : Option ℕ
  pub waiting : Option Waiting
  pub terminated : Option Terminated

pub record ContainerStatus : Type 0 where
  pub name : String
  pub restart_count : ℕ
  pub image_id : String
  pub state : ContainerState

pub record Container : Type 0 where
  pub name : String
  pub image : String

pub record PodCondition : Type 0 where
  pub last_transition_time : ℕ
  pub reason : String
  pub message : String

pub record Pod : Type 0 where
  pub name : String
  pub creation_timestamp : ℕ
  pub containers : List Container
  pub phase : PodPhase
  pub container_statuses : List ContainerStatus
  pub conditions : List PodCondition
