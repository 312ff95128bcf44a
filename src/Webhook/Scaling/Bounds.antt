-- ===== src/Webhook/Scaling/Bounds.antt =====
-- The bounds on the replicas of an accepted application in its deployments:
-- webhook/validation/radixapplication/validate_horizontalscaling.go with
-- pkg/apis/deployment/radixcomponent.go.
use radix_operator.Prelude.{
  String, Bool, not, ◌&&◌, ◌≡◌, Option, some, [], Memᴰ, leb, ltb, join-nil, concat_map-nil,
}
use radix_operator.Scaling.Types.{HorizontalScaling, or_one}
use radix_operator.Scaling.Validation.{validate_horizontal_scaling_part}
use radix_operator.Scaling.Merge.{merge_scaling}
use radix_operator.Scaling.Merge.Bounds.{is_fixed, merge_scaling-bounds}
use radix_operator.Webhook.Types.{EnvironmentConfig, RadixComponent, Application}
use radix_operator.Webhook.Scaling.{
  validate_if_set, validate_scaling_of, horizontal_scaling_validator,
}

set-nil :
    (is_keda_cron : String → Bool) (o : Option HorizontalScaling) (hs : HorizontalScaling)
    → o ≡ some hs
    → validate_if_set is_keda_cron o ≡ []
    → validate_horizontal_scaling_part is_keda_cron hs ≡ []
unfolding validate_if_set
set-nil k o hs e h = let h' : validate_if_set k (some hs) ≡ [] = rw e at h in h'

-- If the horizontal scaling of an application is accepted, then in the deployment of a component
-- in an environment, where both configure it, the minimum is at most the maximum, except if the
-- environment sets its minimum to its maximum and this is above the maximum of the component: then
-- the minimum is above the maximum.
pub accepted_scaling-bounds :
    (is_keda_cron : String → Bool) (ra : Application) (c : RadixComponent)
    (config : EnvironmentConfig) (hs e : HorizontalScaling)
    → horizontal_scaling_validator is_keda_cron ra ≡ []
    → Memᴰ c ra.components
    → Memᴰ config c.environment_config
    → c.horizontal_scaling ≡ some hs
    → config.horizontal_scaling ≡ some e
    → leb (or_one (merge_scaling hs e).min_replicas) (merge_scaling hs e).max_replicas
      ≡ not (is_fixed e.min_replicas e.max_replicas && ltb hs.max_replicas e.max_replicas)
unfolding horizontal_scaling_validator validate_scaling_of
accepted_scaling-bounds k ra c config hs e h m i own env =
    let checks = join-nil _ (concat_map-nil (validate_scaling_of k) ra.components h m) in
    merge_scaling-bounds k hs e (set-nil k c.horizontal_scaling hs own checks.0) (
      set-nil k config.horizontal_scaling e env (
        concat_map-nil (λ g. validate_if_set k g.horizontal_scaling) c.environment_config checks.1.0
          i))
