-- ===== src/Webhook/Batches.antt =====
-- The validation of the resources of the jobs of a batch, webhook/validation/radixbatchjob/
-- validate_rb.go. A map of resources is the list of its entries, in the order in which Go visits
-- it. An error names the resource, without the job and the words.
pub mod Accepted
use radix_operator.Prelude.{
  ℕ, suc, String, Bool, true, false, not, ◌||◌, ◌&&◌, Option, none, some, List, [], ◌∷◌, ◌++◌, ◌==◌,
  ltb, if◌then◌else◌,
}
use radix_operator.Webhook.Types.{ResourceRequirements}

-- A quantity in billionths, `n` or `- (n + 1)`.
pub data Quantity : Type 0 where
  pos : ℕ → Quantity
  negsuc : ℕ → Quantity

-- `a.Cmp(b) > 0`
abbrev pub exceeds : Quantity → Quantity → Bool
exceeds (pos a) (pos b) = ltb b a
exceeds (pos a) (negsuc b) = true
exceeds (negsuc a) (pos b) = false
exceeds (negsuc a) (negsuc b) = ltb a b

-- `q.Sign() > 0`
abbrev pub is_positive : Quantity → Bool
is_positive (pos a) = ltb 0 a
is_positive (negsuc a) = false

-- 1k
abbrev pub maximum_cpu_quantity : Quantity
maximum_cpu_quantity = pos 1000000000000

pub data BatchError : Type 0 where
  invalid_resource_type invalid_resource_format : String → BatchError
  zero_or_negative_resource_quantity cpu_resource_requirement_too_high : String → BatchError
  requested_resource_exceeds_limit : String → BatchError

pub record BatchJob : Type 0 where
  pub name : String
  pub resources : Option ResourceRequirements

-- `if c { errs = append(errs, e) }`, before the later errors.
abbrev pub error_if : Bool → BatchError → List BatchError → List BatchError
error_if true e errs = e ∷ errs
error_if false e errs = errs

abbrev pub is_valid_resource_type : String → Bool
is_valid_resource_type name = name == "cpu" || name == "memory"

-- A resource whose type is valid, from the answer of `resource.ParseQuantity`.
abbrev pub by_quantity :
    String
    → Option Quantity
    → List (String × Quantity) × List BatchError
    → List (String × Quantity) × List BatchError
by_quantity name none (qs, errs) = (qs, invalid_resource_format name ∷ errs)
by_quantity name (some q) (qs, errs) = (
  (name, q) ∷ qs,
  error_if (not (is_positive q)) (zero_or_negative_resource_quantity name) (
      error_if (name == "cpu" && exceeds q maximum_cpu_quantity)
        (cpu_resource_requirement_too_high name) errs),
)

unfoldable pub find_quantity : String → List (String × Quantity) → Option Quantity
find_quantity name [] = none
find_quantity name ((n, q) ∷ qs) = if n == name then some q else find_quantity name qs

abbrev pub exceeds_limit : Quantity → Option Quantity → Bool
exceeds_limit q none = false
exceeds_limit q (some limit) = exceeds q limit

-- The loop over the requests.
unfoldable pub check_requests :
    List (String × Quantity) → List (String × Quantity) → List BatchError
unfolding find_quantity
check_requests limits [] = []
check_requests limits ((name, q) ∷ requests) =
    error_if (exceeds_limit q (find_quantity name limits)) (requested_resource_exceeds_limit name)
      (check_requests limits requests)

module _ (parse_quantity : String → Option Quantity) where
  unfoldable pub validate_resource_list :
      List (String × String) → List (String × Quantity) × List BatchError
  validate_resource_list [] = ([], [])
  validate_resource_list ((name, value) ∷ resources) =
      let rest = validate_resource_list resources in
      if is_valid_resource_type name
      then by_quantity name (parse_quantity value) rest
      else (rest.0, invalid_resource_type name ∷ rest.1)

  unfoldable pub validate_resource_requirements : ResourceRequirements → List BatchError
  unfolding validate_resource_list check_requests
  validate_resource_requirements r =
      let (limits, limit_errs) = validate_resource_list r.limits in
      let (requests, request_errs) = validate_resource_list r.requests in
      limit_errs ++ (request_errs ++ check_requests limits requests)

  abbrev pub validate_resources : Option ResourceRequirements → List BatchError
  validate_resources none = []
  validate_resources (some r) = validate_resource_requirements r

  -- `createResourceRequirementsValidator`
  unfoldable pub validate_batch : List BatchJob → List BatchError
  unfolding validate_resource_requirements
  validate_batch [] = []
  validate_batch (job ∷ jobs) = validate_resources job.resources ++ validate_batch jobs
