-- ===== src/Deployment/Activation/Others.antt =====
-- What the loop of `setOtherRDsToInactive`, pkg/apis/deployment/deployment.go, leaves of the other
-- deployments, and its error.
use radix_operator.Prelude.{
  String, true, false, ◌≡◌, refl, Option, none, some, List, [], ◌∷◌, Memᴰ, ◌⊎◌, inl, inr,
  equal_fold, Bool-cases,
}
use radix_operator.Deployment.Types.{RadixDeployment, is_inactive}
use radix_operator.Deployment.Activation.{
  set_inactive, deactivate_stored, unless_failed, deactivate_one, deactivate_others,
  set_other_rds_to_inactive,
}
use radix_operator.Deployment.Activation.Unique.{store_update-cases}

module _ (update_error : String → Option String) (own : RadixDeployment)
    (before : List RadixDeployment) where
  -- Every other deployment is inactive or as it was before.
  abbrev pub Kept : List RadixDeployment → Type 0
  Kept stored =
      (k : RadixDeployment)
      → Memᴰ k stored
      → equal_fold k.name own.name ≡ false
      → (is_inactive k.status.condition ≡ true) ⊎ Memᴰ k before

  deactivate_stored-Kept :
      (answer : Option String) (prev rd : RadixDeployment) (stored : List RadixDeployment)
      → Kept stored
      → Kept (deactivate_stored answer prev rd stored).stored
  unfolding deactivate_stored
  deactivate_stored-Kept (some e) prev rd stored kept k m other = kept k m other
  deactivate_stored-Kept none prev rd stored kept k m other =
      elim (store_update-cases (set_inactive prev rd) stored m) [
        | inl e ↦ inl (rw e)
        | inr (old, differs) ↦ kept k old other
      ]

  deactivate_one-Kept :
      (prev rd : RadixDeployment) (stored : List RadixDeployment)
      → Kept stored
      → Kept (deactivate_one update_error own prev rd stored).stored
  unfolding deactivate_one
  deactivate_one-Kept prev rd stored kept = elim (Bool-cases (equal_fold rd.name own.name)) [
    | inl same ↦ rw same kept
    | inr other ↦ elim (Bool-cases (is_inactive rd.status.condition)) [
      | inl off ↦ rw (other, off) kept
      | inr on ↦ rw (other, on) (deactivate_stored-Kept (update_error rd.name) prev rd stored kept)
    ]
  ]

  unless_failed-Kept :
      (e : Option String) (stored : List RadixDeployment)
      (rest : List RadixDeployment × Option String)
      → Kept stored
      → Kept rest.0
      → Kept (unless_failed e stored rest).0
  unfolding unless_failed
  unless_failed-Kept (some e) stored rest h h' = h
  unless_failed-Kept none stored rest h h' = h'

  deactivate_others-Kept :
      (prev : RadixDeployment) (rds stored : List RadixDeployment)
      → Kept stored
      → Kept (deactivate_others update_error own prev rds stored).0
  unfolding deactivate_others
  deactivate_others-Kept prev [] stored kept = kept
  deactivate_others-Kept prev (rd ∷ rds) stored kept =
      let kept' = deactivate_one-Kept prev rd stored kept in
      unless_failed-Kept (deactivate_one update_error own prev rd stored).error
        (deactivate_one update_error own prev rd stored).stored _ kept'
        (deactivate_others-Kept (deactivate_one update_error own prev rd stored).prev rds
          (deactivate_one update_error own prev rd stored).stored kept')

  pub set_other_rds_to_inactive-Kept :
      (rds stored : List RadixDeployment)
      → Kept stored
      → Kept (set_other_rds_to_inactive update_error own rds stored).0
  unfolding set_other_rds_to_inactive
  set_other_rds_to_inactive-Kept [] stored kept = kept
  set_other_rds_to_inactive-Kept (rd ∷ rds) stored kept =
      deactivate_others-Kept rd (rd ∷ rds) stored kept

module _ (update_error : String → Option String) where
  -- The error of the loop is that of the update of a deployment of the list.
  abbrev pub IsUpdateError : Option String → List RadixDeployment → Type 0
  IsUpdateError error rds =
      (error ≡ none) ⊎ ((rd : RadixDeployment) × Memᴰ rd rds × (error ≡ update_error rd.name))

  deactivate_stored-error :
      (answer : Option String) (prev rd : RadixDeployment) (stored : List RadixDeployment)
      → (deactivate_stored answer prev rd stored).error ≡ answer
  unfolding deactivate_stored
  deactivate_stored-error (some e) prev rd stored = refl
  deactivate_stored-error none prev rd stored = refl

  deactivate_one-error :
      (own prev rd : RadixDeployment) (stored : List RadixDeployment)
      → ((deactivate_one update_error own prev rd stored).error ≡ none)
        ⊎ ((deactivate_one update_error own prev rd stored).error ≡ update_error rd.name)
  unfolding deactivate_one
  deactivate_one-error own prev rd stored = elim (Bool-cases (equal_fold rd.name own.name)) [
    | inl same ↦ inl (rw same refl)
    | inr other ↦ elim (Bool-cases (is_inactive rd.status.condition)) [
      | inl off ↦ inl (rw (other, off) refl)
      | inr on ↦
          inr (rw (other, on) (deactivate_stored-error (update_error rd.name) prev rd stored))
    ]
  ]

  unless_failed-IsUpdateError :
      (e : Option String) (stored : List RadixDeployment)
      (rest : List RadixDeployment × Option String) (rd : RadixDeployment)
      (rds : List RadixDeployment)
      → (e ≡ none) ⊎ (e ≡ update_error rd.name)
      → IsUpdateError rest.1 rds
      → IsUpdateError (unless_failed e stored rest).1 (rd ∷ rds)
  unfolding unless_failed
  unless_failed-IsUpdateError (some e) stored rest rd rds (inl h) r = cc
  unless_failed-IsUpdateError (some e) stored rest rd rds (inr h) r = inr (rd, Memᴰ.head refl, h)
  unless_failed-IsUpdateError none stored rest rd rds h (inl fine) = inl fine
  unless_failed-IsUpdateError none stored rest rd rds h (inr (k, m, e)) = inr (k, Memᴰ.tail m, e)

  deactivate_others-IsUpdateError :
      (own prev : RadixDeployment) (rds stored : List RadixDeployment)
      → IsUpdateError (deactivate_others update_error own prev rds stored).1 rds
  unfolding deactivate_others
  deactivate_others-IsUpdateError own prev [] stored = inl refl
  deactivate_others-IsUpdateError own prev (rd ∷ rds) stored =
      unless_failed-IsUpdateError (deactivate_one update_error own prev rd stored).error
        (deactivate_one update_error own prev rd stored).stored _ rd rds
        (deactivate_one-error own prev rd stored)
        (deactivate_others-IsUpdateError own (deactivate_one update_error own prev rd stored).prev
          rds (deactivate_one update_error own prev rd stored).stored)

  pub set_other_rds_to_inactive-IsUpdateError :
      (own : RadixDeployment) (rds stored : List RadixDeployment)
      → IsUpdateError (set_other_rds_to_inactive update_error own rds stored).1 rds
  unfolding set_other_rds_to_inactive
  set_other_rds_to_inactive-IsUpdateError own [] stored = inl refl
  set_other_rds_to_inactive-IsUpdateError own (rd ∷ rds) stored =
      deactivate_others-IsUpdateError own rd (rd ∷ rds) stored
