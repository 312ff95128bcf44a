-- ===== src/Scaling/Merge/Bounds.antt =====
-- The bounds in the result of `getRadixCommonComponentHorizontalScaling` of
-- pkg/apis/deployment/radixcomponent.go.
use radix_operator.Prelude.{
  ℕ, String, Bool, false, not, ◌&&◌, ◌≡◌, Option, none, some, [], ltb, leb, nat_beq, arith,
  if◌then◌else◌, ◌≤◌,
}
use radix_operator.Scaling.Types.{HorizontalScaling, normalize_config, or_one}
use radix_operator.Scaling.Validation.{validate_horizontal_scaling_part}
use radix_operator.Scaling.Accepted.{accepted_bounds}
use radix_operator.Scaling.Merge.{override, below, merge_scaling}

-- The minimum is set, and equals the maximum.
unfoldable pub is_fixed : Option ℕ → ℕ → Bool
is_fixed none max = false
is_fixed (some min) max = nat_beq min max

merged :
    (own_min : Option ℕ) (min max own_max : ℕ)
    → (1 ≤ own_max) × (or_one own_min ≤ own_max)
    → min ≤ max
    → leb
        (or_one (override own_min (some min)))
        (if ltb 0 own_max && below (override own_min (some min)) own_max then own_max else max)
      ≡ not (is_fixed own_min own_max && ltb max own_max)
unfolding override below is_fixed
merged none min max own_max h k = ground arith
merged (some n) min max own_max h k = ground arith

-- If the configurations of a component and of its environment are both accepted, then the
-- minimum of the merged configuration is at most its maximum, except if the environment sets
-- its minimum to its maximum and this is above the maximum of the component: then it is not.
pub merge_scaling-bounds :
    (is_keda_cron : String → Bool) (c e : HorizontalScaling)
    → validate_horizontal_scaling_part is_keda_cron c ≡ []
    → validate_horizontal_scaling_part is_keda_cron e ≡ []
    → leb (or_one (merge_scaling c e).min_replicas) (merge_scaling c e).max_replicas
      ≡ not (is_fixed e.min_replicas e.max_replicas && ltb c.max_replicas e.max_replicas)
unfolding merge_scaling normalize_config
merge_scaling-bounds k c e h1 h2 =
    merged e.min_replicas (or_one c.min_replicas) c.max_replicas e.max_replicas
      (accepted_bounds k e h2) (accepted_bounds k c h1).1
