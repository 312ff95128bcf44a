-- ===== src/Webhook/Components/Resources.antt =====
-- The resources that `validateResourceRequirements` of
-- webhook/validation/radixapplication/validate.go accepts.
use radix_operator.Prelude.{
  ℕ, String, true, false, not, ◌&&◌, ◌≡◌, ◌≤◌, refl, Option, none, some, [], ◌∷◌, ◌==◌, Memᴰ,
  is_empty, ltb, report, report-nil, join, join-nil, if◌then◌else◌, concat_map-nil, arith, some?,
  find_first-some,
}
use radix_operator.Webhook.Types.{
  ResourceRequirements, invalid_resource_format, cpu_resource_requirement_format,
  invalid_resource_type,
}
use radix_operator.Webhook.Components.{
  maximum_cpu, is_valid_resource_type, quantity, limit_quantity, exceeds, validate_limit,
  validate_request, validate_resource_requirements,
}

parsed : (q : Option ℕ) → some? q ≡ true → (n : ℕ) × (q ≡ some n)
parsed none h = cc
parsed (some n) h = (n, refl)

validate_limit-parsed :
    (parse_quantity : String → Option ℕ) (l : String × String)
    → is_empty l.1 ≡ false
    → validate_limit parse_quantity l ≡ []
    → some? (parse_quantity l.1) ≡ true
unfolding validate_limit
validate_limit-parsed parse l e h =
    let h' : (if is_empty l.1
          then []
          else join (
              report (not (some? (parse l.1))) invalid_resource_format
              ∷ report (l.0 == "cpu" && ltb maximum_cpu (quantity parse (parse l.1)))
                  cpu_resource_requirement_format
              ∷ report (not (is_valid_resource_type l.0)) invalid_resource_type
              ∷ []))
        ≡ [] =
      h in
    let f = report-nil (not (some? (parse l.1))) _ (join-nil _ (rw e at h')).0 in ground arith

-- If the resources are accepted, then a request of a resource that has a limit is at most the
-- limit, as quantities.
request_within_limit :
    (parse_quantity : String → Option ℕ) (resources : ResourceRequirements)
    (request limit : String × String)
    → validate_resource_requirements parse_quantity resources ≡ []
    → Memᴰ request resources.requests
    → limit_quantity parse_quantity request.0 resources.limits ≡ some limit
    → (q : ℕ) × (max : ℕ) × (parse_quantity request.1 ≡ some q)
      × (parse_quantity limit.1 ≡ some max)
      × q ≤ max
unfolding validate_resource_requirements validate_request limit_quantity exceeds quantity
request_within_limit parse resources r l h m found =
    let checks = join-nil _ h in
    let own =
      join-nil _ (
        concat_map-nil (validate_request parse resources.limits) resources.requests checks.1.0 m) in
    let (i, t) = find_first-some (λ k. not (is_empty k.1) && k.0 == r.0) resources.limits found in
    let set : is_empty l.1 ≡ false = ground arith in
    let limit_parsed =
      validate_limit-parsed parse l set
        (concat_map-nil (validate_limit parse) resources.limits checks.0 i) in
    let (max, max_is) = parsed (parse l.1) limit_parsed in
    let e = report-nil (not (some? (parse r.1))) _ own.0 in
    let (q, q_is) = parsed (parse r.1) (ground arith) in
    let within : exceeds parse (quantity parse (parse r.1))
          (limit_quantity parse r.0 resources.limits)
        ≡ false =
      report-nil _ _ own.1.0 in
    let within' : exceeds parse (quantity parse (some q)) (some l) ≡ false =
      rw q_is at (rw found at within) in
    let within2 : ltb max q ≡ false = rw max_is at within' in (q, max, q_is, max_is, ground arith)
