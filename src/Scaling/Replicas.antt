-- ===== src/Scaling/Replicas.antt =====
-- The number of replicas of a Kubernetes deployment: `getDeployComponentReplicas`,
-- `isComponentStopped` and the end of `getDesiredUpdatedDeploymentConfig` of
-- pkg/apis/deployment/kubedeployment.go. A Go `int` is not negative here, as the schema of the
-- resource demands.
use radix_operator.Prelude.{ℕ, Bool, true, false, ◌-◌, Option, none, some, ltb, if◌then◌else◌}
use Prim.Native.Nat.{◌%◌}
use radix_operator.Scaling.Types.{HorizontalScaling}

pub data ℤ : Type 0 where
  pos : ℕ → ℤ
  negsuc : ℕ → ℤ

-- `int32(n)`, which keeps the lowest 32 bits.
unfoldable pub int32 : ℕ → ℤ
int32 n =
    let bits = n % 4294967296 in
    if ltb bits 2147483648 then pos bits else negsuc (4294967295 - bits)

unfoldable pub less : ℤ → ℤ → Bool
less (pos a) (pos b) = ltb a b
less (pos a) (negsuc b) = false
less (negsuc a) (pos b) = true
less (negsuc a) (negsuc b) = ltb b a

-- The fields of a component of a deployment that give the number of its replicas.
pub record ReplicaConfig : Type 0 where
  pub replicas_override : Option ℕ
  pub replicas : Option ℕ
  pub horizontal_scaling : Option HorizontalScaling

default_replicas : ℤ
default_replicas = pos 1

component_replicas : Option ℕ → ℤ
unfolding int32 default_replicas
component_replicas none = default_replicas
component_replicas (some n) = int32 n

above_max : ℕ → ℤ → ℤ
unfolding less
above_max max n = if less (pos max) n then pos max else n

below_min : Option ℕ → ℕ → ℤ → ℤ
unfolding less above_max
below_min none max n = above_max max n
below_min (some min) max n = if less n (pos min) then pos min else above_max max n

scaled_replicas : Option HorizontalScaling → ℤ → ℤ
unfolding below_min
scaled_replicas none n = n
scaled_replicas (some hs) n = below_min hs.min_replicas hs.max_replicas n

or_override : Option ℕ → ReplicaConfig → ℤ
unfolding int32 component_replicas scaled_replicas
or_override (some n) c = int32 n
or_override none c = scaled_replicas c.horizontal_scaling (component_replicas c.replicas)

unfoldable pub get_deploy_component_replicas : ReplicaConfig → ℤ
unfolding or_override
get_deploy_component_replicas c = or_override c.replicas_override c

kept_replicas : Option ℤ → ℤ → ℤ
unfolding less
kept_replicas none desired = desired
kept_replicas (some current) desired = if less (pos 0) current then current else desired

is_scaled : Option ℕ → Option HorizontalScaling → Bool
is_scaled none (some hs) = true
is_scaled _ _ = false

-- The replicas of an existing Kubernetes deployment after its update, from those it has.
unfoldable pub get_desired_updated_replicas : Option ℤ → ReplicaConfig → ℤ
unfolding kept_replicas is_scaled get_deploy_component_replicas
get_desired_updated_replicas current c =
    let desired = get_deploy_component_replicas c in
    if is_scaled c.replicas_override c.horizontal_scaling
    then kept_replicas current desired
    else desired
