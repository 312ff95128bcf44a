-- ===== src/JobScheduler/Payloads/Resolved.antt =====
-- The references of the jobs of a batch to the secrets with their payloads.
use radix_operator.Prelude.{
  String, Bool, true, not, some, List, [], ◌∷◌, map, Memᴰ, ◌≡◌, refl, ap, ◌⊎◌, inl, inr, is_empty,
  Bool-cases, find_all, find_all_of_mem, All, Distinct,
}
use radix_operator.JobScheduler.Payloads.{
  lookup, PayloadSecret, BatchJob, PayloadError, has_no_entries, Packing, Packed, packing,
  too_large, creation_failed, pack_jobs, start_packing, create_secrets, reverse_onto, create_unless,
  finish_packing, create_radix_batch_job_payload_secrets,
}
use radix_operator.JobScheduler.Payloads.Stored.{
  At, Stored, Fresh, KeepsStored, All-imp, pack_jobs-KeepsStored,
}
use radix_operator.JobScheduler.Payloads.Kept.{text_of, pack_jobs-SameJobs, finish_packing-jobs}

-- Without an error all secrets with an entry are created.
create_secrets-all :
    (creation_fails : PayloadSecret → Bool) (secrets : List PayloadSecret)
    → (create_secrets creation_fails secrets).1 ≡ []
    → (create_secrets creation_fails secrets).0
      ≡ find_all (λ s. not (has_no_entries s.entries)) secrets
unfolding create_secrets
create_secrets-all fails [] h = refl
create_secrets-all fails (x ∷ secrets) h =
    let ih = create_secrets-all fails secrets in
    elim (Bool-cases (has_no_entries x.entries)) [
      | inl e ↦ rw e (ih (rw e at h))
      | inr e ↦ elim (Bool-cases (fails x)) [
        | inl f ↦ absurd (some_error (rw (e, f) at h))
        | inr f ↦ rw (e, f) (ap (λ (ss : List PayloadSecret). x ∷ ss) (ih (rw (e, f) at h)))
      ]
    ]
  where
    some_error : creation_failed ∷ [] ≡ [] → ⊥
    some_error q = cc

mem-reverse_onto_right :
    {s : PayloadSecret} (xs ys : List PayloadSecret) → Memᴰ s ys → Memᴰ s (reverse_onto xs ys)
mem-reverse_onto_right [] ys m = m
mem-reverse_onto_right (x ∷ xs) ys m = mem-reverse_onto_right xs (x ∷ ys) (Memᴰ.tail m)

mem-reverse_onto :
    {s : PayloadSecret} (xs ys : List PayloadSecret) → Memᴰ s xs → Memᴰ s (reverse_onto xs ys)
mem-reverse_onto [] ys m = elim m [ ]
mem-reverse_onto (x ∷ xs) ys (Memᴰ.head e) = mem-reverse_onto_right xs (x ∷ ys) (Memᴰ.head e)
mem-reverse_onto (x ∷ xs) ys (Memᴰ.tail m) = mem-reverse_onto xs (x ∷ ys) m

All-reverse_onto :
    (P : BatchJob → Type 0) (xs ys : List BatchJob)
    → All P xs
    → All P ys
    → All P (reverse_onto xs ys)
All-reverse_onto P [] ys h k = k
All-reverse_onto P (x ∷ xs) ys h k = All-reverse_onto P xs (x ∷ ys) h.1 (h.0, k)

-- The job has no payload, or it refers to one of the secrets, which has its payload.
abbrev pub Resolves : List PayloadSecret → BatchJob → Type 0
Resolves secrets x = (is_empty x.payload ≡ true) ⊎ ((s : PayloadSecret) × Memᴰ s secrets × At s x)

has_entry :
    (k : String) (m : List (String × String)) {v : String}
    → lookup k m ≡ some v
    → not (has_no_entries m) ≡ true
unfolding lookup
has_entry k [] h = cc
has_entry k (e ∷ m) h = refl

module _ (creation_fails : PayloadSecret → Bool) (p : Packing) where
  abbrev all_secrets : List PayloadSecret
  all_secrets = reverse_onto p.filled (p.secret ∷ [])

  mem_created :
      (x : BatchJob) (s : PayloadSecret)
      → (create_secrets creation_fails all_secrets).1 ≡ []
      → At s x
      → Memᴰ s all_secrets
      → Memᴰ s (create_secrets creation_fails all_secrets).0
  mem_created x s none_failed a m = rw (create_secrets-all creation_fails all_secrets none_failed) (
      find_all_of_mem (λ t. not (has_no_entries t.entries)) all_secrets m
        (has_entry x.name s.entries a.1))

  Resolves-Stored :
      (x : BatchJob)
      → (create_secrets creation_fails all_secrets).1 ≡ []
      → Stored p x
      → Resolves (create_secrets creation_fails all_secrets).0 x
  Resolves-Stored x none_failed (inl blank) = inl blank
  Resolves-Stored x none_failed (inr (inl a)) = inr (
    p.secret,
    mem_created x p.secret none_failed a
        (mem-reverse_onto_right p.filled (p.secret ∷ []) (Memᴰ.head refl)),
    a,
  )
  Resolves-Stored x none_failed (inr (inr (s, m, a))) =
      inr (s, mem_created x s none_failed a (mem-reverse_onto p.filled (p.secret ∷ []) m), a)

finish_packing-Resolves :
    (creation_fails : PayloadSecret → Bool) (r : Packed)
    → KeepsStored [] r
    → (finish_packing creation_fails r).errs ≡ []
    → All
        (Resolves (finish_packing creation_fails r).secrets)
        (finish_packing creation_fails r).jobs
unfolding finish_packing
finish_packing-Resolves fails (too_large e) h none_failed = tt
finish_packing-Resolves fails (packing p) h none_failed = go p.errs refl none_failed
  where
    go :
        (errs : List PayloadError)
        → p.errs ≡ errs
        → (create_unless fails errs (all_secrets fails p) (reverse_onto p.done [])).errs ≡ []
        → All
            (Resolves
              (create_unless fails errs (all_secrets fails p) (reverse_onto p.done [])).secrets)
            (create_unless fails errs (all_secrets fails p) (reverse_onto p.done [])).jobs
    go [] e ok =
        unfold create_unless in
        rw ok (
          All-reverse_onto (Resolves (create_secrets fails (all_secrets fails p)).0) p.done []
            (All-imp (λ x. Stored p x × Fresh [] x)
              (Resolves (create_secrets fails (all_secrets fails p)).0) p.done
              (λ x k. Resolves-Stored fails p x ok k.0) (h e))
            tt)
    go (x ∷ xs) e ok = unfold create_unless in tt

-- If the jobs of a batch have different names and all is well, each of them has no payload or
-- refers to a created secret that holds its payload under its name, whatever the number of
-- secrets, and the names and the payloads of the jobs are kept in their order.
pub created_payloads_resolve :
    (creation_fails : PayloadSecret → Bool) (batch_name : String) (jobs : List BatchJob)
    (has_payload_path : Bool)
    → Distinct (map (λ j. j.name) jobs)
    → (create_radix_batch_job_payload_secrets creation_fails batch_name jobs has_payload_path).errs
      ≡ []
    → All
        (Resolves
          (create_radix_batch_job_payload_secrets creation_fails batch_name jobs
            has_payload_path).secrets)
        (create_radix_batch_job_payload_secrets creation_fails batch_name jobs
          has_payload_path).jobs
      × (map text_of
            (create_radix_batch_job_payload_secrets creation_fails batch_name jobs
              has_payload_path).jobs
          ≡ map text_of jobs)
unfolding create_radix_batch_job_payload_secrets
created_payloads_resolve fails batch_name jobs path distinct none_failed =
    let start = start_packing batch_name in
    let r = pack_jobs path 0 jobs start in
    (
      finish_packing-Resolves fails r (pack_jobs-KeepsStored path 0 jobs start distinct (λ _. tt))
          none_failed,
      finish_packing-jobs fails (map text_of jobs) r
          (pack_jobs-SameJobs path 0 jobs start (map text_of jobs) refl) none_failed,
    )
