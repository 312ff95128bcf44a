-- ===== src/Webhook/VolumeMounts/Accepted.antt =====
-- The volume mounts that webhook/validation/radixapplication/validate_volumemounts.go accepts.
use radix_operator.Prelude.{
  suc, String, Bool, true, false, not, ◌&&◌, ◌||◌, ◌≡◌, refl, Option, none, some, List, [], ◌∷◌,
  map, ◌==◌, find_all, length, Distinct, Memᴰ, any, beq_refl, beq_comm, arith, ltb, nat_beq,
  if◌then◌else◌, is_empty, is_blank, is_storage_account_name, All, All-intro, All_of_mem,
}
use radix_operator.Webhook.VolumeMounts.{
  VolumeMount, BlobFuse2VolumeMount, EmptyDirVolumeMount, VolumeMountError, unless,
  has_deprecated_volume, is_true, check_mount, check_source, check_mounts, or_else,
  validate_volume_mounts, volume_source_count, several, validate_azure_identity,
  validate_blob_fuse2_block_cache, validate_volume_mount_blob_fuse2,
}

unless-none :
    (b : Bool) (e : VolumeMountError) (rest : Option VolumeMountError)
    → unless b e rest ≡ none
    → (b ≡ false) × (rest ≡ none)
unless-none true e rest h = cc
unless-none false e rest h = (refl, h)

length-find_all :
    (p : VolumeMount → Bool) (m : VolumeMount) (ms : List VolumeMount)
    → length (find_all p (m ∷ ms))
      ≡ (if p m then suc (length (find_all p ms)) else length (find_all p ms))
length-find_all p m ms = ground arith

module _ (key : VolumeMount → String) where
  -- A key that one mount has.
  count_zero :
      (k : String) (ms : List VolumeMount)
      → length (find_all (λ m. key m == k) ms) ≡ 0
      → any (λ y. k == y) (map key ms) ≡ false
  count_zero k [] h = refl
  count_zero k (m ∷ ms) h =
      let n = length-find_all (λ m. key m == k) m ms in
      let ih = count_zero k ms in let c = beq_comm k (key m) in ground arith

  several_tail :
      (k : String) (m : VolumeMount) (ms : List VolumeMount)
      → several (λ v. key v == k) (m ∷ ms) ≡ false
      → several (λ v. key v == k) ms ≡ false
  several_tail k m ms h = let n = length-find_all (λ v. key v == k) m ms in ground arith

  apart-Distinct :
      (ms : List VolumeMount)
      → ((v : VolumeMount) → Memᴰ v ms → several (λ m. key m == key v) ms ≡ false)
      → Distinct (map key ms)
  apart-Distinct [] h = tt
  apart-Distinct (m ∷ ms) h =
      let n = length-find_all (λ v. key v == key m) m ms in
      let e = beq_refl (key m) in
      let own = h m (Memᴰ.head refl) in
      (
        count_zero (key m) ms (ground arith),
        apart-Distinct ms (λ v i. several_tail (key v) m ms (h v (Memᴰ.tail i))),
      )

-- A mount that uses the identity of the component has one, and all that goes with it.
unfoldable pub identity_complete : Bool → Option BlobFuse2VolumeMount → Bool
identity_complete has_identity none = true
identity_complete has_identity (some b) =
    not (is_true b.use_azure_identity)
    || (has_identity
        && not (is_empty b.subscription_id)
        && not (is_empty b.resource_group)
        && not (is_empty b.storage_account))

-- What the checks before the `switch` give.
pub record Checked (mounts : List VolumeMount) (v : VolumeMount) : Type 0 where
  pub named : is_blank v.name ≡ false
  pub placed : is_blank v.path ≡ false
  pub own_name : several (λ m. m.name == v.name) mounts ≡ false
  pub own_path : several (λ m. m.path == v.path) mounts ≡ false
  pub one_source : volume_source_count v ≡ 1

check_mount-Checked :
    (mounts : List VolumeMount) (v : VolumeMount) (rest : Option VolumeMountError)
    → check_mount mounts v rest ≡ none
    → Checked mounts v × (rest ≡ none)
unfolding check_mount
check_mount-Checked mounts v rest h =
    let (a, h1) = unless-none _ _ _ h in
    let (b, h2) = unless-none _ _ _ h1 in
    let (c, h3) = unless-none _ _ _ h2 in
    let (d, h4) = unless-none _ _ _ h3 in
    let (e, h5) = unless-none (ltb 1 (volume_source_count v)) _ _ h4 in
    let (f, h6) = unless-none (nat_beq (volume_source_count v) 0) _ _ h5 in
    (record { named = a; placed = b; own_name = c; own_path = d; one_source = ground arith }, h6)

or_else-none : (a b : Option VolumeMountError) → or_else a b ≡ none → (a ≡ none) × (b ≡ none)
unfolding or_else
or_else-none none b h = (refl, h)
or_else-none (some e) b h = cc

azure_identity_complete :
    (has_identity use_identity : Bool) (b : BlobFuse2VolumeMount) (rest : Option VolumeMountError)
    → (if use_identity then validate_azure_identity has_identity b rest else rest) ≡ none
    → (not use_identity
        || (has_identity
            && not (is_empty b.subscription_id)
            && not (is_empty b.resource_group)
            && not (is_empty b.storage_account)))
      ≡ true
unfolding validate_azure_identity
azure_identity_complete i false b rest h = refl
azure_identity_complete i true b rest h =
    let (a, h1) = unless-none (not i) _ _ h in
    let (c, h2) = unless-none (is_empty b.subscription_id) _ _ h1 in
    let (d, h3) = unless-none (is_empty b.resource_group) _ _ h2 in
    let (e, h4) = unless-none (is_empty b.storage_account) _ _ h3 in ground arith

blob_fuse2-identity_complete :
    (has_identity : Bool) (b : BlobFuse2VolumeMount)
    → validate_volume_mount_blob_fuse2 has_identity b ≡ none
    → identity_complete has_identity (some b) ≡ true
unfolding validate_volume_mount_blob_fuse2 identity_complete
blob_fuse2-identity_complete i b h =
    let (p, h1) = unless-none (not (b.protocol == "fuse2" || is_empty b.protocol)) _ _ h in
    let (c, h2) = unless-none (is_empty b.container) _ _ h1 in
    let (a, h3) =
      unless-none
        (not (is_empty b.storage_account) && not (is_storage_account_name b.storage_account)) _ _
        h2 in
    azure_identity_complete i (is_true b.use_azure_identity) b
      (validate_blob_fuse2_block_cache b.prefetch_count) h3

check_source-none :
    (has_identity : Bool) (v : VolumeMount) (rest : Option VolumeMountError)
    → check_source has_identity v.blob_fuse2 v.empty_dir rest ≡ none
    → (identity_complete has_identity v.blob_fuse2 ≡ true) × (rest ≡ none)
unfolding check_source identity_complete
check_source-none i v rest h = go v.blob_fuse2 v.empty_dir h
  where
    go :
        (b : Option BlobFuse2VolumeMount) (d : Option EmptyDirVolumeMount)
        → check_source i b d rest ≡ none
        → (identity_complete i b ≡ true) × (rest ≡ none)
    go (some b) d k = let (x, y) = or_else-none _ _ k in (blob_fuse2-identity_complete i b x, y)
    go none (some d) k = (refl, (or_else-none _ _ k).1)
    go none none k = (refl, k)

check_mounts-Checked :
    (has_identity : Bool) (mounts vs : List VolumeMount)
    → check_mounts has_identity mounts vs ≡ none
    → any has_deprecated_volume vs ≡ false
    → All (λ v. Checked mounts v × (identity_complete has_identity v.blob_fuse2 ≡ true)) vs
unfolding check_mounts
check_mounts-Checked i mounts [] h new = tt
check_mounts-Checked i mounts (v ∷ vs) h new =
    let (checked, h1) = check_mount-Checked mounts v _ h in
    let own : has_deprecated_volume v ≡ false = ground arith in
    let others : any has_deprecated_volume vs ≡ false = ground arith in
    let (identity, rest) = check_source-none i v _ (rw own at h1) in
    ((checked, identity), check_mounts-Checked i mounts vs rest others)

-- If the volume mounts are accepted and none of them has a deprecated source, then each has a name,
-- a path and exactly one source, and with the Azure identity also all that it needs; no two of
-- them have a name or a path in common.
pub accepted_volume_mounts :
    (has_identity : Bool) (mounts : List VolumeMount)
    → validate_volume_mounts mounts has_identity ≡ none
    → any has_deprecated_volume mounts ≡ false
    → Distinct (map (λ v. v.name) mounts)
      × Distinct (map (λ v. v.path) mounts)
      × All
          (λ v.
            (is_blank v.name ≡ false)
            × (is_blank v.path ≡ false)
            × (volume_source_count v ≡ 1)
            × (identity_complete has_identity v.blob_fuse2 ≡ true))
          mounts
unfolding validate_volume_mounts
accepted_volume_mounts i mounts h new =
    let checks = check_mounts-Checked i mounts mounts h new in
    let check : (v : VolumeMount)
        → Memᴰ v mounts
        → Checked mounts v × (identity_complete i v.blob_fuse2 ≡ true) =
      λ v m.
        All_of_mem (λ k. Checked mounts k × (identity_complete i k.blob_fuse2 ≡ true)) mounts checks
          m in
    (
      apart-Distinct (λ v. v.name) mounts (λ v m. (check v m).0.own_name),
      apart-Distinct (λ v. v.path) mounts (λ v m. (check v m).0.own_path),
      All-intro _ mounts
          (λ v m. let (c, identity) = check v m in (c.named, c.placed, c.one_source, identity)),
    )
