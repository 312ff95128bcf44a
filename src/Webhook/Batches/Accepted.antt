-- ===== src/Webhook/Batches/Accepted.antt =====
-- What the resources of the jobs of an accepted batch are.
use radix_operator.Prelude.{
  String, Bool, true, false, not, ◌&&◌, Option, none, some, List, [], ◌∷◌, ◌++◌, ◌≡◌, refl, sym,
  ◌∙◌, ap, ◌⊎◌, inl, inr, All, All-intro, ◌==◌, Memᴰ, arith, Bool-cases, Option-cases, append-nil,
  eq_iff, if◌then◌else◌,
}
use radix_operator.Webhook.Types.{ResourceRequirements}
use radix_operator.Webhook.Batches.{
  Quantity, exceeds, is_positive, maximum_cpu_quantity, BatchError, BatchJob, error_if,
  is_valid_resource_type, find_quantity, exceeds_limit, check_requests, validate_resource_list,
  validate_resource_requirements, validate_resources, validate_batch, invalid_resource_type,
  invalid_resource_format, zero_or_negative_resource_quantity, cpu_resource_requirement_too_high,
  requested_resource_exceeds_limit,
}

error_if-nil :
    (b : Bool) (e : BatchError) (errs : List BatchError)
    → error_if b e errs ≡ []
    → (b ≡ false) × (errs ≡ [])
error_if-nil true e errs h = absurd (never h)
  where
    never : (e ∷ errs) ≡ [] → ⊥
    never q = cc
error_if-nil false e errs h = (refl, h)

-- The limit of the name in the map.
abbrev pub limit_of : String → List (String × String) → Option String
limit_of name [] = none
limit_of name ((n, v) ∷ limits) = if n == name then some v else limit_of name limits

module _ (parse_quantity : String → Option Quantity) where
  -- The resource is processor time or memory, its quantity is read, is above 0, and is not too high.
  abbrev pub Fits : String → String → Quantity → Type 0
  Fits name value q =
      (is_valid_resource_type name ≡ true)
      × (parse_quantity value ≡ some q)
      × (is_positive q ≡ true)
      × ((name == "cpu" && exceeds q maximum_cpu_quantity) ≡ false)

  -- Every resource of the list is there with its quantity.
  mem-validate_resource_list :
      (resources : List (String × String)) {name value : String}
      → (validate_resource_list parse_quantity resources).1 ≡ []
      → Memᴰ (name, value) resources
      → (q : Quantity) × Fits name value q
        × Memᴰ (name, q) (validate_resource_list parse_quantity resources).0
  unfolding validate_resource_list
  mem-validate_resource_list [] h m = elim m [ ]
  mem-validate_resource_list ((n, v) ∷ resources) {name} {value} h m =
      elim (Bool-cases (is_valid_resource_type n)) [
        | inr bad ↦ absurd (never (rw bad at h))
        | inl good ↦ elim (Option-cases (parse_quantity v)) [
          | inl unread ↦ absurd (never_read (rw (good, unread) at h))
          | inr (q, read) ↦
              let (positive, h1) =
                error_if-nil (not (is_positive q)) (zero_or_negative_resource_quantity n) _
                  (rw (good, read) at h) in
              let (fine, h2) =
                error_if-nil (n == "cpu" && exceeds q maximum_cpu_quantity)
                  (cpu_resource_requirement_too_high n) rest.1 h1 in
              rw (good, read)
                (step q (good, read, ground (arith, positive), fine) m
                  (mem-validate_resource_list resources h2))
        ]
      ]
    where
      rest : List (String × Quantity) × List BatchError
      rest = validate_resource_list parse_quantity resources

      never : (invalid_resource_type n ∷ rest.1) ≡ [] → ⊥
      never q = cc

      never_read : (invalid_resource_format n ∷ rest.1) ≡ [] → ⊥
      never_read q = cc

      step :
          (q : Quantity)
          → Fits n v q
          → Memᴰ (name, value) ((n, v) ∷ resources)
          → (Memᴰ (name, value) resources
              → (x : Quantity) × Fits name value x × Memᴰ (name, x) rest.0)
          → (x : Quantity) × Fits name value x × Memᴰ (name, x) ((n, q) ∷ rest.0)
      step q (good, read, positive, fine) (Memᴰ.head e) ih =
          let en : name ≡ n = ap (λ ((k, _) : String × String). k) e in
          let ev : value ≡ v = ap (λ ((_, k) : String × String). k) e in
          (
            q,
            (rw en good, rw ev read, positive, rw en fine),
            Memᴰ.head (ap (λ (k : String). (k, q)) en),
          )
      step q f (Memᴰ.tail m') ih = let (x, fits, there) = ih m' in (x, fits, Memᴰ.tail there)

  mem-check_requests :
      (limits requests : List (String × Quantity)) {name : String} {q limit : Quantity}
      → check_requests limits requests ≡ []
      → Memᴰ (name, q) requests
      → find_quantity name limits ≡ some limit
      → exceeds q limit ≡ false
  unfolding check_requests
  mem-check_requests limits [] h m found = elim m [ ]
  mem-check_requests limits ((n, k) ∷ requests) {name} {q} {limit} h m found =
      let (within, h1) =
        error_if-nil (exceeds_limit k (find_quantity n limits)) (requested_resource_exceeds_limit n)
          (check_requests limits requests) h in
      go within m (λ m'. mem-check_requests limits requests h1 m' found)
    where
      go :
          exceeds_limit k (find_quantity n limits) ≡ false
          → Memᴰ (name, q) ((n, k) ∷ requests)
          → (Memᴰ (name, q) requests → exceeds q limit ≡ false)
          → exceeds q limit ≡ false
      go within (Memᴰ.head e) ih =
          let en : name ≡ n = ap (λ ((a, _) : String × Quantity). a) e in
          let eq : q ≡ k = ap (λ ((_, a) : String × Quantity). a) e in
          rw eq (rw (← en, found) at within)
      go within (Memᴰ.tail m') ih = ih m'

  find_quantity-validate_resource_list :
      (name : String) (resources : List (String × String)) {value : String}
      → (validate_resource_list parse_quantity resources).1 ≡ []
      → limit_of name resources ≡ some value
      → (q : Quantity) × Fits name value q
        × (find_quantity name (validate_resource_list parse_quantity resources).0 ≡ some q)
  unfolding validate_resource_list find_quantity
  find_quantity-validate_resource_list name [] h found = cc
  find_quantity-validate_resource_list name ((n, v) ∷ resources) {value} h found =
      elim (Bool-cases (is_valid_resource_type n)) [
        | inr bad ↦ absurd (never (rw bad at h))
        | inl good ↦ elim (Option-cases (parse_quantity v)) [
          | inl unread ↦ absurd (never_read (rw (good, unread) at h))
          | inr (q, read) ↦
              let (positive, h1) =
                error_if-nil (not (is_positive q)) (zero_or_negative_resource_quantity n) _
                  (rw (good, read) at h) in
              let (fine, h2) =
                error_if-nil (n == "cpu" && exceeds q maximum_cpu_quantity)
                  (cpu_resource_requirement_too_high n) rest.1 h1 in
              let ih = find_quantity-validate_resource_list name resources h2 in
              rw (good, read)
                (elim (Bool-cases (n == name)) [
                  | inl e ↦
                      let en : n ≡ name = (eq_iff n name).0 e in
                      let same : some v ≡ some value = rw e at found in
                      let ev : v ≡ value = cc in
                      (
                        q,
                        (rw (← en) good, rw (← ev) read, ground (arith, positive), rw (← en) fine),
                        rw e refl,
                      )
                  | inr e ↦ let (x, fits, there) = ih (rw e at found) in (x, fits, rw e there)
                ])
        ]
      ]
    where
      rest : List (String × Quantity) × List BatchError
      rest = validate_resource_list parse_quantity resources

      never : (invalid_resource_type n ∷ rest.1) ≡ [] → ⊥
      never q = cc

      never_read : (invalid_resource_format n ∷ rest.1) ≡ [] → ⊥
      never_read q = cc

  mem-validate_batch :
      (jobs : List BatchJob) {job : BatchJob}
      → validate_batch parse_quantity jobs ≡ []
      → Memᴰ job jobs
      → validate_resources parse_quantity job.resources ≡ []
  unfolding validate_batch
  mem-validate_batch [] h m = elim m [ ]
  mem-validate_batch (j ∷ jobs) {job} h (Memᴰ.head e) =
      ap (λ (k : BatchJob). validate_resources parse_quantity k.resources) e
      ∙ (append-nil (validate_resources parse_quantity j.resources)
          (validate_batch parse_quantity jobs) h).0
  mem-validate_batch (j ∷ jobs) h (Memᴰ.tail m) =
      mem-validate_batch jobs
        (append-nil (validate_resources parse_quantity j.resources)
          (validate_batch parse_quantity jobs) h).1
        m

-- In a batch that the webhook accepts, every request and every limit of a job is of processor time
-- or memory, is read as a quantity above 0, and is at most 1000 if it is of processor time; the
-- request is at most the limit of its name, if there is one.
pub accepted_batch_resources :
    (parse_quantity : String → Option Quantity) (jobs : List BatchJob) (job : BatchJob)
    (r : ResourceRequirements)
    → validate_batch parse_quantity jobs ≡ []
    → Memᴰ job jobs
    → job.resources ≡ some r
    → All (λ (name, value). (q : Quantity) × Fits parse_quantity name value q) r.limits
      × All
          (λ (name, value).
            (q : Quantity) × Fits parse_quantity name value q
            × ((limit_of name r.limits ≡ none)
                ⊎ ((limit : String) × (l : Quantity) × (limit_of name r.limits ≡ some limit)
                    × Fits parse_quantity name limit l
                    × (exceeds q l ≡ false))))
          r.requests
unfolding validate_resource_requirements
accepted_batch_resources parse_quantity jobs job r accepted mj e =
    let of_job : validate_resource_requirements parse_quantity r ≡ [] =
      ap (validate_resources parse_quantity) (sym e)
      ∙ mem-validate_batch parse_quantity jobs accepted mj in
    let limits = validate_resource_list parse_quantity r.limits in
    let requests = validate_resource_list parse_quantity r.requests in
    let (h1, h2) = append-nil limits.1 (requests.1 ++ check_requests limits.0 requests.0) of_job in
    let (h3, h4) = append-nil requests.1 (check_requests limits.0 requests.0) h2 in
    (
      All-intro _ r.limits (λ (name, value) m.
          let (q, fits, there) = mem-validate_resource_list parse_quantity r.limits h1 m in
          (q, fits)),
      All-intro _ r.requests (λ (name, value) m.
          let (q, fits, there) = mem-validate_resource_list parse_quantity r.requests h3 m in
          (
            q,
            fits,
            elim (Option-cases (limit_of name r.limits)) [
              | inl unlimited ↦ inl unlimited
              | inr (limit, limited) ↦
                  let (l, fits_l, found) =
                    find_quantity-validate_resource_list parse_quantity name r.limits h1 limited in
                  inr (
                    limit,
                    l,
                    limited,
                    fits_l,
                    mem-check_requests parse_quantity limits.0 requests.0 h4 there found,
                  )
            ],
          )),
    )
