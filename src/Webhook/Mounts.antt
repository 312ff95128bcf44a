-- ===== src/Webhook/Mounts.antt =====
-- `volumeMountValidator` of webhook/validation/radixapplication/validate_volumemounts.go, without its
-- warnings.
pub mod Accepted
use radix_operator.Prelude.{
  String, Bool, not, ◌||◌, Option, none, some, List, [], ◌∷◌, is_empty, concat_map, join,
}
use radix_operator.Webhook.VolumeMounts.{VolumeMount, VolumeMountError, validate_volume_mounts}
use radix_operator.Webhook.Types.{
  EnvironmentConfig, RadixComponent, JobEnvironmentConfig, RadixJobComponent, Application,
}

-- `if err != nil { errs = append(errs, err) }`
unfoldable pub errors_of : Option VolumeMountError → List VolumeMountError
errors_of none = []
errors_of (some e) = e ∷ []

-- `len(identity.GetAzure().GetClientId()) > 0`
abbrev pub has_client_id : String → Bool
has_client_id client_id = not (is_empty client_id)

-- The body of the loop over the components.
unfoldable pub validate_component_mounts : RadixComponent → List VolumeMountError
unfolding errors_of validate_volume_mounts
validate_component_mounts c = join (
    errors_of (validate_volume_mounts c.volume_mounts (has_client_id c.client_id))
    ∷ concat_map
        (λ config. errors_of (
          validate_volume_mounts config.volume_mounts
            (has_client_id c.client_id || has_client_id config.client_id)))
        c.environment_config
    ∷ [])

-- The body of the loop over the jobs.
unfoldable pub validate_job_mounts : RadixJobComponent → List VolumeMountError
unfolding errors_of validate_volume_mounts
validate_job_mounts job = join (
    errors_of (validate_volume_mounts job.volume_mounts (has_client_id job.client_id))
    ∷ concat_map
        (λ config. errors_of (
          validate_volume_mounts config.volume_mounts
            (has_client_id job.client_id || has_client_id config.client_id)))
        job.environment_config
    ∷ [])

unfoldable pub volume_mount_validator : Application → List VolumeMountError
unfolding validate_component_mounts validate_job_mounts
volume_mount_validator ra = join (
    concat_map validate_component_mounts ra.components
    ∷ concat_map validate_job_mounts ra.jobs
    ∷ [])
