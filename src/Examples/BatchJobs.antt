-- ===== src/Examples/BatchJobs.antt =====
-- A batch with a job whose request is below its limit.
use radix_operator.Prelude.{
  String, false, ◌≡◌, refl, Option, none, some, [], ◌∷◌, Memᴰ, All, ◌⊎◌, ◌==◌, if◌then◌else◌,
}
use radix_operator.Webhook.Types.{ResourceRequirements}
use radix_operator.Webhook.Batches.{
  Quantity, pos, exceeds, BatchJob, validate_batch, cpu_resource_requirement_too_high,
}
use radix_operator.Webhook.Batches.Accepted.{Fits, limit_of, accepted_batch_resources}

-- Two texts are read, in billionths.
abbrev parse : String → Option Quantity
parse value =
    if value == "100m"
    then some (pos 100000000)
    else if value == "2k"
    then some (pos 2000000000000)
    else none

abbrev resources : String → ResourceRequirements
resources limit = record { limits = ("cpu", limit) ∷ []; requests = ("cpu", "100m") ∷ [] }

abbrev job : String → BatchJob
job limit = record { name = "one"; resources = some (resources limit) }

accepted_batch_resources_example :
    All (λ (name, value). (q : Quantity) × Fits parse name value q) (resources "100m").limits
    × All
        (λ (name, value).
          (q : Quantity) × Fits parse name value q
          × ((limit_of name (resources "100m").limits ≡ none)
              ⊎ ((limit : String) × (l : Quantity) × (limit_of name (resources "100m").limits
                    ≡ some limit)
                  × Fits parse name limit l
                  × (exceeds q l ≡ false))))
        (resources "100m").requests
unfolding validate_batch
accepted_batch_resources_example =
    accepted_batch_resources parse (job "100m" ∷ []) (job "100m") (resources "100m") refl
      (Memᴰ.head refl) refl

too_much : validate_batch parse (job "2k" ∷ []) ≡ cpu_resource_requirement_too_high "cpu" ∷ []
unfolding validate_batch
too_much = refl
