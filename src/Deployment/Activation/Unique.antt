-- ===== src/Deployment/Activation/Unique.antt =====
-- The other deployments in the loop of `setOtherRDsToInactive`, pkg/apis/deployment/deployment.go.
use radix_operator.Prelude.{
  String, true, false, ◌≡◌, refl, Option, none, some, List, [], ◌∷◌, Memᴰ, ◌⊎◌, inl, inr,
  if◌then◌else◌, ◌==◌, beq_refl, equal_fold, mem_of_mem-map, arith, Bool-cases,
}
use radix_operator.Deployment.Types.{RadixDeployment, is_inactive}
use radix_operator.Deployment.Activation.{
  store_update, set_inactive, deactivate_stored, unless_failed, deactivate_one, deactivate_others,
}

pub store_update-cases :
    (rd : RadixDeployment) (stored : List RadixDeployment) {k : RadixDeployment}
    → Memᴰ k (store_update rd stored)
    → (k ≡ rd) ⊎ (Memᴰ k stored × ((k.name == rd.name) ≡ false))
unfolding store_update
store_update-cases rd stored {k} m =
    let (j, in_stored, e) = mem_of_mem-map (λ x. if x.name == rd.name then rd else x) stored m in
    pick j in_stored e
  where
    pick :
        (j : RadixDeployment)
        → Memᴰ j stored
        → k ≡ (if j.name == rd.name then rd else j)
        → (k ≡ rd) ⊎ (Memᴰ k stored × ((k.name == rd.name) ≡ false))
    pick j in_stored e = elim (Bool-cases (j.name == rd.name)) [
      | inl same ↦ inl (rw same at e)
      | inr other ↦ let e' : k ≡ j = rw other at e in inr (rw e' in_stored, rw e' other)
    ]

module _ (update_error : String → Option String) (own : RadixDeployment) where
  -- Every other deployment that is stored is inactive or still to come in the loop.
  abbrev pub Left : List RadixDeployment → List RadixDeployment → Type 0
  Left rds stored =
      (k : RadixDeployment)
      → Memᴰ k stored
      → equal_fold k.name own.name ≡ false
      → (is_inactive k.status.condition ≡ true) ⊎ Memᴰ k rds

  past_head :
      (k rd : RadixDeployment) (rds : List RadixDeployment)
      → (k ≡ rd → is_inactive k.status.condition ≡ true)
      → (is_inactive k.status.condition ≡ true) ⊎ Memᴰ k (rd ∷ rds)
      → (is_inactive k.status.condition ≡ true) ⊎ Memᴰ k rds
  past_head k rd rds h (inl off) = inl off
  past_head k rd rds h (inr (Memᴰ.head e)) = inl (h e)
  past_head k rd rds h (inr (Memᴰ.tail m)) = inr m

  deactivate_stored-Left :
      (answer : Option String) (prev rd : RadixDeployment) (rds stored : List RadixDeployment)
      → Left (rd ∷ rds) stored
      → (deactivate_stored answer prev rd stored).error ≡ none
      → Left rds (deactivate_stored answer prev rd stored).stored
  unfolding deactivate_stored
  deactivate_stored-Left (some e) prev rd rds stored left fine k m other = cc
  deactivate_stored-Left none prev rd rds stored left fine k m other =
      elim (store_update-cases (set_inactive prev rd) stored m) [
        | inl e ↦ inl (rw e)
        | inr (old, differs) ↦
            past_head k rd rds
              (λ e. let t : (k.name == rd.name) ≡ true = rw e (beq_refl rd.name) in cc)
              (left k old other)
      ]

  deactivate_one-Left :
      (prev rd : RadixDeployment) (rds stored : List RadixDeployment)
      → Left (rd ∷ rds) stored
      → (deactivate_one update_error own prev rd stored).error ≡ none
      → Left rds (deactivate_one update_error own prev rd stored).stored
  unfolding deactivate_one
  deactivate_one-Left prev rd rds stored left fine =
      elim (Bool-cases (equal_fold rd.name own.name)) [
        | inl same ↦ rw same (λ k m other.
            past_head k rd rds (λ e. let t : equal_fold k.name own.name ≡ true = rw e same in cc)
              (left k m other))
        | inr differs ↦ elim (Bool-cases (is_inactive rd.status.condition)) [
          | inl off ↦
              rw (differs, off) (λ k m other. past_head k rd rds (λ e. rw e off) (left k m other))
          | inr on ↦
              rw (differs, on)
                (deactivate_stored-Left (update_error rd.name) prev rd rds stored left
                  (rw (differs, on) at fine))
        ]
      ]

  unless_failed-Left :
      (e : Option String) (stored : List RadixDeployment)
      (rest : List RadixDeployment × Option String)
      → (e ≡ none → rest.1 ≡ none → Left [] rest.0)
      → (unless_failed e stored rest).1 ≡ none
      → Left [] (unless_failed e stored rest).0
  unfolding unless_failed
  unless_failed-Left (some e) stored rest h fine = absurd (ground arith)
  unless_failed-Left none stored rest h fine = h refl fine

  pub deactivate_others-Left :
      (prev : RadixDeployment) (rds stored : List RadixDeployment)
      → Left rds stored
      → (deactivate_others update_error own prev rds stored).1 ≡ none
      → Left [] (deactivate_others update_error own prev rds stored).0
  unfolding deactivate_others
  deactivate_others-Left prev [] stored left fine = left
  deactivate_others-Left prev (rd ∷ rds) stored left fine =
      unless_failed-Left (deactivate_one update_error own prev rd stored).error
        (deactivate_one update_error own prev rd stored).stored _
        (λ ok.
          deactivate_others-Left (deactivate_one update_error own prev rd stored).prev rds
            (deactivate_one update_error own prev rd stored).stored
            (deactivate_one-Left prev rd rds stored left ok))
        fine
