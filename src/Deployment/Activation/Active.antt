-- ===== src/Deployment/Activation/Active.antt =====
-- The deployment that `trySetActiveCondition` makes active, and all the others.
use radix_operator.Prelude.{
  String, true, false, ◌≡◌, Option, none, List, Memᴰ, All, some?, ◌||◌, ◌⊎◌, equal_fold,
}
use radix_operator.Deployment.Types.{RadixDeployment, is_active, is_inactive}
use radix_operator.Deployment.Activation.{Outcome}

-- Nothing has changed, and the deployment is not said to be active.
abbrev pub Unchanged : RadixDeployment → List RadixDeployment → Outcome → Type 0
Unchanged own stored r = (r.own ≡ own) × (r.stored ≡ stored) × (r.is_active_condition ≡ false)

-- The deployment is active and stored, and every other one is inactive.
abbrev pub OnlyActive : Outcome → Type 0
OnlyActive r =
    (is_active r.own.status.condition ≡ true)
    × Memᴰ r.own r.stored
    × (r.is_active_condition ≡ true)
    × (r.error ≡ none)
    × All (λ k. (equal_fold k.name r.own.name || is_inactive k.status.condition) ≡ true) r.stored

-- An update of a listed deployment has failed: the deployment is active and stored, every other one
-- is inactive or as it was before, and the error is returned.
abbrev pub Interrupted :
    (String → Option String) → List RadixDeployment → List RadixDeployment → Outcome → Type 0
Interrupted update_error listed stored r =
    (is_active r.own.status.condition ≡ true)
    × Memᴰ r.own r.stored
    × (r.is_active_condition ≡ false)
    × (some? r.error ≡ true)
    × ((rd : RadixDeployment) × Memᴰ rd listed × (r.error ≡ update_error rd.name))
    × All
        (λ k.
          ((equal_fold k.name r.own.name || is_inactive k.status.condition) ≡ true) ⊎ Memᴰ k stored)
        r.stored
