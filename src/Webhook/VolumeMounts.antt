-- ===== src/Webhook/VolumeMounts.antt =====
-- `validateVolumeMounts` and what it calls, of
-- webhook/validation/radixapplication/validate_volumemounts.go, over the volume mounts of
-- pkg/apis/radix/v1/radixapptypes.go. An error is its sentinel, without the words before it; the
-- warnings are left out.
pub mod Accepted
use radix_operator.Prelude.{
  ℕ, String, Bool, true, false, not, ◌&&◌, ◌||◌, Option, none, some, List, [], ◌∷◌, ◌==◌, ◌+++◌,
  find_all, length, some?, is_empty, is_blank, is_storage_account_name, ltb, nat_beq, if◌then◌else◌,
}

-- `prefetch_count` is that of the block cache, none without one.
pub record BlobFuse2VolumeMount : Type 0 where
  pub protocol : String
  pub container : String
  pub storage_account : String
  pub use_azure_identity : Option Bool
  pub subscription_id : String
  pub resource_group : String
  pub prefetch_count : Option ℕ

-- `size_limit` is a quantity as a number.
pub record EmptyDirVolumeMount : Type 0 where
  pub size_limit : ℕ

pub record VolumeMount : Type 0 where
  pub mount_type : String
  pub name : String
  pub path : String
  pub storage : String
  pub blob_fuse2 : Option BlobFuse2VolumeMount
  pub empty_dir : Option EmptyDirVolumeMount

pub data VolumeMountError : Type 0 where
  missing_name missing_path duplicate_name duplicate_path : VolumeMountError
  multiple_types missing_type invalid_type missing_storage : VolumeMountError
  invalid_protocol missing_container invalid_storage_account : VolumeMountError
  missing_azure_identity missing_subscription_id : VolumeMountError
  missing_resource_group missing_storage_account : VolumeMountError
  invalid_prefetch_count missing_size_limit : VolumeMountError

-- A run of checks with early returns: `if c { return e }`, then the rest.
abbrev pub unless : Bool → VolumeMountError → Option VolumeMountError → Option VolumeMountError
unless true e rest = some e
unless false e rest = rest

abbrev pub has_deprecated_volume : VolumeMount → Bool
has_deprecated_volume v = not (is_empty v.mount_type)

abbrev pub is_true : Option Bool → Bool
is_true none = false
is_true (some b) = b

unfoldable pub validate_blob_fuse2_block_cache : Option ℕ → Option VolumeMountError
validate_blob_fuse2_block_cache none = none
validate_blob_fuse2_block_cache (some n) =
    unless (not (nat_beq n 0 || ltb 10 n)) invalid_prefetch_count none

-- The checks of a mount that uses the identity.
unfoldable pub validate_azure_identity :
    Bool → BlobFuse2VolumeMount → Option VolumeMountError → Option VolumeMountError
validate_azure_identity has_identity b rest = unless (not has_identity) missing_azure_identity (
    unless (is_empty b.subscription_id) missing_subscription_id (
      unless (is_empty b.resource_group) missing_resource_group
        (unless (is_empty b.storage_account) missing_storage_account rest)))

unfoldable pub validate_volume_mount_blob_fuse2 :
    Bool → BlobFuse2VolumeMount → Option VolumeMountError
unfolding validate_azure_identity validate_blob_fuse2_block_cache is_storage_account_name
validate_volume_mount_blob_fuse2 has_identity b =
    unless (not (b.protocol == "fuse2" || is_empty b.protocol)) invalid_protocol (
      unless (is_empty b.container) missing_container (
        unless (not (is_empty b.storage_account) && not (is_storage_account_name b.storage_account))
          invalid_storage_account
          (if is_true b.use_azure_identity
            then validate_azure_identity has_identity b
                (validate_blob_fuse2_block_cache b.prefetch_count)
            else validate_blob_fuse2_block_cache b.prefetch_count)))

unfoldable pub validate_volume_mount_empty_dir : EmptyDirVolumeMount → Option VolumeMountError
validate_volume_mount_empty_dir d = unless (nat_beq d.size_limit 0) missing_size_limit none

unfoldable pub validate_volume_mount_deprecated_source : VolumeMount → Option VolumeMountError
validate_volume_mount_deprecated_source v =
    unless (not (v.mount_type == "azure-blob")) invalid_type
      (unless (is_empty v.storage) missing_storage none)

abbrev pub volume_source_count : VolumeMount → ℕ
volume_source_count v =
    length
      (find_all (λ b. b) (has_deprecated_volume v ∷ some? v.blob_fuse2 ∷ some? v.empty_dir ∷ []))

-- Whether several of the mounts pass the test.
abbrev pub several : (VolumeMount → Bool) → List VolumeMount → Bool
several p mounts = ltb 1 (length (find_all p mounts))

-- The checks of a mount before the `switch`, then the `switch`.
unfoldable pub check_mount :
    List VolumeMount → VolumeMount → Option VolumeMountError → Option VolumeMountError
unfolding is_blank
check_mount mounts v by_source = unless (is_blank v.name) missing_name (
    unless (is_blank v.path) missing_path (
      unless (several (λ m. m.name == v.name) mounts) duplicate_name (
        unless (several (λ m. m.path == v.path) mounts) duplicate_path (
          unless (ltb 1 (volume_source_count v)) multiple_types
            (unless (nat_beq (volume_source_count v) 0) missing_type by_source)))))

-- `if err := ...; err != nil { return err }`
unfoldable pub or_else : Option VolumeMountError → Option VolumeMountError → Option VolumeMountError
or_else (some e) rest = some e
or_else none rest = rest

-- The cases of the `switch` for a mount without a deprecated source; `rest` is the rest of the
-- loop.
unfoldable pub check_source :
    Bool
    → Option BlobFuse2VolumeMount
    → Option EmptyDirVolumeMount
    → Option VolumeMountError
    → Option VolumeMountError
unfolding or_else validate_volume_mount_blob_fuse2 validate_volume_mount_empty_dir
check_source has_identity (some b) d rest =
    or_else (validate_volume_mount_blob_fuse2 has_identity b) rest
check_source has_identity none (some d) rest = or_else (validate_volume_mount_empty_dir d) rest
check_source has_identity none none rest = rest

-- The loop. The case of a deprecated source returns.
unfoldable pub check_mounts : Bool → List VolumeMount → List VolumeMount → Option VolumeMountError
unfolding check_mount check_source validate_volume_mount_deprecated_source
check_mounts has_identity mounts [] = none
check_mounts has_identity mounts (v ∷ rest) =
    let next = check_mounts has_identity mounts rest in
    check_mount mounts v (
      if has_deprecated_volume v
      then validate_volume_mount_deprecated_source v
      else check_source has_identity v.blob_fuse2 v.empty_dir next)

-- The error of `validateVolumeMounts`.
unfoldable pub validate_volume_mounts : List VolumeMount → Bool → Option VolumeMountError
unfolding check_mounts
validate_volume_mounts mounts has_identity = check_mounts has_identity mounts mounts
