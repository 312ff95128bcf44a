-- ===== src/Examples/Deployment.antt =====
-- An environment with an active deployment, to which a second one is added.
use radix_operator.Prelude.{
  ℕ, String, Bool, true, false, ◌≡◌, refl, Option, none, some, List, [], ◌∷◌, Memᴰ, ◌⊎◌, inl, ◌≤◌,
  length, equal_fold,
}
use radix_operator.Deployment.Types.{
  RadixDeployCondition, unset, active, inactive, RadixDeploymentReconcileStatus, RadixDeployment,
}
use radix_operator.Deployment.Activation.{try_set_active_condition}
use radix_operator.Deployment.History.{maintain_history_limit}
use radix_operator.Deployment.History.Names.{DistinctNames}
use radix_operator.Deployment.History.Kept.{
  mem-maintain_history_limit, length-maintain_history_limit,
}

abbrev rd : String → ℕ → ℕ → ℕ → RadixDeployCondition → RadixDeployment
rd name created from to condition = record {
  name = name;
  creation_timestamp = created;
  generation = 1;
  status = record {
    active_from = from;
    active_to = to;
    condition = condition;
    reconciled = 0;
    observed_generation = 0;
    reconcile_status = RadixDeploymentReconcileStatus.unset;
    message = "";
  };
}

abbrev first : RadixDeployment
first = rd "first" 10 11 0 active

abbrev second : RadixDeployment
second = rd "second" 20 0 0 unset

abbrev accepted : String → Option String
accepted name = none

abbrev listing : Option String
listing = none

abbrev unsorted : List RadixDeployment → List RadixDeployment
unsorted rds = rds

-- The two deployments, the latest one first.
abbrev two : List RadixDeployment
two = second ∷ first ∷ []

-- The later deployment becomes active, and the other one inactive.
outcome_of_second :
    let r = try_set_active_condition accepted listing 21 unsorted second two in
    (r.is_active_condition ≡ true)
    × (r.stored ≡ rd "second" 20 21 0 active ∷ rd "first" 10 11 21 inactive ∷ [])
unfolding try_set_active_condition equal_fold
outcome_of_second = (refl, refl)

abbrev deletes : String → Bool
deletes name = false

-- The oldest deployment first.
abbrev history : List RadixDeployment
history =
    rd "a" 1 1 2 inactive ∷ rd "b" 2 2 3 inactive ∷ rd "c" 3 3 4 inactive ∷ rd "d" 4 4 0 active ∷ []

history-DistinctNames : DistinctNames history
unfolding DistinctNames
history-DistinctNames = ((refl, (refl, (refl, tt))), ((refl, (refl, tt)), ((refl, tt), (tt, tt))))

-- The first deployment is referred to by a batch.
mem-maintain_history_limit_example :
    Memᴰ
      (rd "a" 1 1 2 inactive)
      (maintain_history_limit deletes unsorted (some ("a" ∷ [])) 2 history)
unfolding maintain_history_limit
mem-maintain_history_limit_example =
    mem-maintain_history_limit deletes unsorted (rd "a" 1 1 2 inactive) (some ("a" ∷ [])) 2 history
      history-DistinctNames (λ x m. m) (Memᴰ.head refl)
      (λ names e. inl (let same : names ≡ "a" ∷ [] = cc in rw same refl))

length-maintain_history_limit_example :
    (2 ≤ length (maintain_history_limit deletes unsorted (some ("a" ∷ [])) 2 history))
    ⊎ (maintain_history_limit deletes unsorted (some ("a" ∷ [])) 2 history ≡ history)
length-maintain_history_limit_example =
    length-maintain_history_limit deletes unsorted (some ("a" ∷ [])) 2 history history-DistinctNames
