-- ===== src/Webhook/Scaling.antt =====
-- `horizontalScalingValidator` of
-- webhook/validation/radixapplication/validate_horizontalscaling.go.
pub mod Bounds
use radix_operator.Prelude.{String, Bool, Option, none, some, List, [], ◌∷◌, concat_map, join}
use radix_operator.Scaling.Types.{HorizontalScaling}
use radix_operator.Scaling.Validation.{ScalingError, validate_horizontal_scaling_part}
use radix_operator.Webhook.Types.{EnvironmentConfig, RadixComponent, Application}

module _ (is_keda_cron : String → Bool) where
  validate_if_set : Option HorizontalScaling → List ScalingError
  unfolding validate_horizontal_scaling_part
  validate_if_set none = []
  validate_if_set (some hs) = validate_horizontal_scaling_part is_keda_cron hs

  -- The body of the loop over the components.
  validate_scaling_of : RadixComponent → List ScalingError
  unfolding validate_if_set
  validate_scaling_of c = join (
      validate_if_set c.horizontal_scaling
      ∷ concat_map (λ config. validate_if_set config.horizontal_scaling) c.environment_config
      ∷ [])

  unfoldable pub horizontal_scaling_validator : Application → List ScalingError
  unfolding validate_scaling_of
  horizontal_scaling_validator ra = concat_map validate_scaling_of ra.components
