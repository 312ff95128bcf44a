-- ===== src/Webhook/Mounts/Accepted.antt =====
-- The volume mounts of an application that
-- webhook/validation/radixapplication/validate_volumemounts.go accepts.
use radix_operator.Prelude.{
  Bool, true, false, ◌||◌, ◌≡◌, refl, Option, none, some, List, [], map, any, All, Distinct,
  is_blank, join-nil, concat_map-nil, All-intro, Bool-cases, ◌⊎◌, inl, inr,
}
use radix_operator.Webhook.VolumeMounts.{
  VolumeMount, VolumeMountError, has_deprecated_volume, volume_source_count, validate_volume_mounts,
}
use radix_operator.Webhook.VolumeMounts.Accepted.{identity_complete, accepted_volume_mounts}
use radix_operator.Webhook.Types.{RadixComponent, RadixJobComponent, Application}
use radix_operator.Webhook.Mounts.{
  errors_of, has_client_id, validate_component_mounts, validate_job_mounts, volume_mount_validator,
}

-- Different names and paths, none of them blank, one source each, and all that the identity needs.
unfoldable pub MountsFit : Bool → List VolumeMount → Type 0
MountsFit has_identity mounts =
    Distinct (map (λ v. v.name) mounts)
    × Distinct (map (λ v. v.path) mounts)
    × All
        (λ v.
          (is_blank v.name ≡ false)
          × (is_blank v.path ≡ false)
          × (volume_source_count v ≡ 1)
          × (identity_complete has_identity v.blob_fuse2 ≡ true))
        mounts

errors_of-nil : (e : Option VolumeMountError) → errors_of e ≡ [] → e ≡ none
unfolding errors_of
errors_of-nil none h = refl
errors_of-nil (some e) h = cc

-- A mount has a deprecated source, or all of them fit.
abbrev pub Fit : Bool → List VolumeMount → Type 0
Fit has_identity mounts = (any has_deprecated_volume mounts ≡ true) ⊎ MountsFit has_identity mounts

mounts-Fit :
    (has_identity : Bool) (mounts : List VolumeMount)
    → errors_of (validate_volume_mounts mounts has_identity) ≡ []
    → Fit has_identity mounts
unfolding MountsFit
mounts-Fit i mounts h = elim (Bool-cases (any has_deprecated_volume mounts)) [
  | inl deprecated ↦ inl deprecated
  | inr new ↦ inr (accepted_volume_mounts i mounts (errors_of-nil _ h) new)
]

component-Fit :
    (c : RadixComponent)
    → validate_component_mounts c ≡ []
    → Fit (has_client_id c.client_id) c.volume_mounts
      × All
          (λ config.
            Fit (has_client_id c.client_id || has_client_id config.client_id) config.volume_mounts)
          c.environment_config
unfolding validate_component_mounts
component-Fit c h =
    let checks = join-nil _ h in
    (
      mounts-Fit _ c.volume_mounts checks.0,
      All-intro _ c.environment_config (λ config m.
          mounts-Fit _ config.volume_mounts (concat_map-nil _ c.environment_config checks.1.0 m)),
    )

job-Fit :
    (job : RadixJobComponent)
    → validate_job_mounts job ≡ []
    → Fit (has_client_id job.client_id) job.volume_mounts
      × All
          (λ config.
            Fit
              (has_client_id job.client_id || has_client_id config.client_id)
              config.volume_mounts)
          job.environment_config
unfolding validate_job_mounts
job-Fit job h =
    let checks = join-nil _ h in
    (
      mounts-Fit _ job.volume_mounts checks.0,
      All-intro _ job.environment_config (λ config m.
          mounts-Fit _ config.volume_mounts (concat_map-nil _ job.environment_config checks.1.0 m)),
    )

-- If `volumeMountValidator` reports no error, then each list of volume mounts of a component, of a
-- job or of one of their environments has a mount with a deprecated source, or all of its mounts
-- have different names and paths, not blank, exactly one source, and what the Azure identity needs,
-- where an environment also has the identity of its component or job.
pub accepted_mounts-Fit :
    (ra : Application)
    → volume_mount_validator ra ≡ []
    → All
        (λ c.
          Fit (has_client_id c.client_id) c.volume_mounts
          × All
              (λ config.
                Fit
                  (has_client_id c.client_id || has_client_id config.client_id)
                  config.volume_mounts)
              c.environment_config)
        ra.components
      × All
          (λ job.
            Fit (has_client_id job.client_id) job.volume_mounts
            × All
                (λ config.
                  Fit
                    (has_client_id job.client_id || has_client_id config.client_id)
                    config.volume_mounts)
                job.environment_config)
          ra.jobs
unfolding volume_mount_validator
accepted_mounts-Fit ra h =
    let checks = join-nil _ h in
    (
      All-intro _ ra.components (λ c m.
          component-Fit c (concat_map-nil validate_component_mounts ra.components checks.0 m)),
      All-intro _ ra.jobs
          (λ job m. job-Fit job (concat_map-nil validate_job_mounts ra.jobs checks.1.0 m)),
    )
