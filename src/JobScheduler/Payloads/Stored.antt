-- ===== src/JobScheduler/Payloads/Stored.antt =====
-- The loop over the jobs stores the payload of each job that it is done with.
use radix_operator.Prelude.{
  ℕ, suc, ◌+◌, String, Bool, true, false, not, some, List, [], ◌∷◌, map, Memᴰ, ◌≡◌, refl, ◌⊎◌, inl,
  inr, ◌==◌, eq_iff, is_empty, any, ltb, arith, Bool-cases, All, Distinct, beq_refl, beq_comm,
  append-nil, ◌∙◌, if◌then◌else◌,
}
use radix_operator.JobScheduler.Payloads.{
  put, lookup, PayloadSecret, BatchJob, PayloadError, max_payload_secret_size,
  payload_secret_aux_data_size, secret_entry_size, has_no_entries, Packing, Packed, packing,
  too_large, missing_payload_path, store_payload, next_secret, pack_payload, keep_job, pack_job,
  pack_jobs,
}

lookup-put :
    (k j v : String) (m : List (String × String))
    → lookup j (put k v m) ≡ (if k == j then some v else lookup j m)
unfolding lookup put
lookup-put k j v [] = refl
lookup-put k j v ((i, w) ∷ m) =
    ground (arith, eq_iff k j, eq_iff i k, eq_iff i j, lookup-put k j v m)

-- The secret holds the payload of the job, and the job refers to it.
abbrev pub At : PayloadSecret → BatchJob → Type 0
At s x =
    (x.payload_secret_ref
      ≡ some (record { batch_name = s.batch_name; index = s.index; key = x.name }))
    × (lookup x.name s.entries ≡ some x.payload)

abbrev pub Stored : Packing → BatchJob → Type 0
Stored p x =
    (is_empty x.payload ≡ true) ⊎ At p.secret x ⊎ ((s : PayloadSecret) × Memᴰ s p.filled × At s x)

abbrev pub Fresh : List String → BatchJob → Type 0
Fresh names x = any (λ n. n == x.name) names ≡ false

abbrev pub AllStored : Packing → List String → Type 0
AllStored p names = All (λ x. Stored p x × Fresh names x) p.done

-- What the rest of the loop needs, unless there is an error.
abbrev pub KeepsStored : List String → Packed → Type 0
KeepsStored names (packing p) = p.errs ≡ [] → AllStored p names
KeepsStored names (too_large e) = Unit

pub All-imp :
    (P Q : BatchJob → Type 0) (xs : List BatchJob)
    → ((x : BatchJob) → P x → Q x)
    → All P xs
    → All Q xs
All-imp P Q [] f h = tt
All-imp P Q (x ∷ xs) f h = (f x h.0, All-imp P Q xs f h.1)

module _ (job : BatchJob) (names : List String) where
  Fresh-next : (x : BatchJob) → Fresh (job.name ∷ names) x → Fresh names x
  Fresh-next x h = ground arith

  Stored-other :
      (size : ℕ) (p : Packing) (x : BatchJob)
      → Stored p x × Fresh (job.name ∷ names) x
      → Stored (store_payload job size p) x × Fresh names x
  unfolding store_payload
  Stored-other size p x (inl blank, f) = (inl blank, Fresh-next x f)
  Stored-other size p x (inr (inl (r, l)), f) = (
    inr (inl (r, rw (lookup-put job.name x.name job.payload p.secret.entries) (ground arith))),
    Fresh-next x f,
  )
  Stored-other size p x (inr (inr e), f) = (inr (inr e), Fresh-next x f)

  Stored-in_next :
      (p : Packing) (x : BatchJob)
      → Stored p x × Fresh (job.name ∷ names) x
      → Stored (next_secret p) x × Fresh (job.name ∷ names) x
  unfolding next_secret
  Stored-in_next p x (inl blank, f) = (inl blank, f)
  Stored-in_next p x (inr (inl e), f) = (inr (inr (p.secret, Memᴰ.head refl, e)), f)
  Stored-in_next p x (inr (inr (s, m, e)), f) = (inr (inr (s, Memᴰ.tail m, e)), f)

  module _ (fresh : Fresh names job) where
    store_payload-AllStored :
        (size : ℕ) (p : Packing)
        → AllStored p (job.name ∷ names)
        → AllStored (store_payload job size p) names
    unfolding store_payload
    store_payload-AllStored size p h = (
      (
        inr (
            inl (
              refl,
              rw (lookup-put job.name job.name job.payload p.secret.entries)
                  (rw (beq_refl job.name) refl),
            )),
        fresh,
      ),
      All-imp (λ x. Stored p x × Fresh (job.name ∷ names) x)
          (λ x. Stored (store_payload job size p) x × Fresh names x) p.done (Stored-other size p) h,
    )

    next_secret-AllStored :
        (p : Packing)
        → AllStored p (job.name ∷ names)
        → AllStored (next_secret p) (job.name ∷ names)
    unfolding next_secret
    next_secret-AllStored p h =
        All-imp (λ x. Stored p x × Fresh (job.name ∷ names) x)
          (λ x. Stored (next_secret p) x × Fresh (job.name ∷ names) x) p.done (Stored-in_next p) h

    pack_payload-KeepsStored :
        (i : ℕ) (p : Packing)
        → (p.errs ≡ [] → AllStored p (job.name ∷ names))
        → KeepsStored names (pack_payload i job p)
    unfolding pack_payload store_payload next_secret
    pack_payload-KeepsStored i p h =
        elim (Bool-cases (
          ltb max_payload_secret_size (
            payload_secret_aux_data_size
            + p.accumulated
            + secret_entry_size job.name job.payload))) [
              | inl big ↦ elim (Bool-cases (has_no_entries p.secret.entries)) [
                | inl none_yet ↦ rw (big, none_yet) tt
                | inr some_yet ↦
                    rw (big, some_yet)
                      λ e.
                        store_payload-AllStored (secret_entry_size job.name job.payload)
                          (next_secret p) (next_secret-AllStored p (h e))
              ]
              | inr small ↦
                  rw small
                    λ e. store_payload-AllStored (secret_entry_size job.name job.payload) p (h e)
            ]

    keep_job-AllStored :
        (p : Packing)
        → is_empty job.payload ≡ true
        → AllStored p (job.name ∷ names)
        → AllStored (keep_job job p) names
    unfolding keep_job
    keep_job-AllStored p blank h = (
      (inl blank, fresh),
      All-imp (λ x. Stored p x × Fresh (job.name ∷ names) x) (λ x. Stored p x × Fresh names x)
          p.done (λ x k. (k.0, Fresh-next x k.1)) h,
    )

    -- A job with a payload and no path for it is an error.
    pack_job-KeepsStored :
        (path : Bool) (i : ℕ) (p : Packing)
        → (p.errs ≡ [] → AllStored p (job.name ∷ names))
        → KeepsStored names (pack_job path i job p)
    unfolding pack_job keep_job
    pack_job-KeepsStored path i p h = elim (Bool-cases (is_empty job.payload)) [
      | inl blank ↦ rw blank (λ e. keep_job-AllStored p blank (h e))
      | inr full ↦ elim (Bool-cases (not path)) [
        | inl missing ↦
            rw (full, missing)
              (λ e. absurd (not_nil (append-nil p.errs (missing_payload_path i ∷ []) e).1))
        | inr there ↦ rw (full, there) (pack_payload-KeepsStored i p h)
      ]
    ]
      where
        not_nil : {e : PayloadError} → e ∷ [] ≡ [] → ⊥
        not_nil q = cc

fresh_of_distinct :
    (n : String) (names : List String)
    → any (λ m. n == m) names ≡ false
    → any (λ m. m == n) names ≡ false
fresh_of_distinct n [] h = refl
fresh_of_distinct n (m ∷ names) h =
    let ih = fresh_of_distinct n names (ground arith) in
    let other : (m == n) ≡ false = beq_comm m n ∙ ground arith in rw other ih

pub pack_jobs-KeepsStored :
    (path : Bool) (i : ℕ) (jobs : List BatchJob) (p : Packing)
    → Distinct (map (λ j. j.name) jobs)
    → (p.errs ≡ [] → AllStored p (map (λ j. j.name) jobs))
    → KeepsStored [] (pack_jobs path i jobs p)
unfolding pack_jobs
pack_jobs-KeepsStored path i [] p d h = h
pack_jobs-KeepsStored path i (job ∷ jobs) p d h =
    go (pack_job path i job p)
      (pack_job-KeepsStored job (map (λ j. j.name) jobs)
        (fresh_of_distinct job.name (map (λ j. j.name) jobs) d.0) path i p h)
      (λ p'. pack_jobs-KeepsStored path (suc i) jobs p' d.1)
  where
    go :
        (r : Packed)
        → KeepsStored (map (λ j. j.name) jobs) r
        → ((p' : Packing)
            → (p'.errs ≡ [] → AllStored p' (map (λ j. j.name) jobs))
            → KeepsStored [] (pack_jobs path (suc i) jobs p'))
        → KeepsStored []
            (elim r [ packing p' ↦ pack_jobs path (suc i) jobs p' | too_large e ↦ too_large e ])
    go (packing p') k ih = ih p' k
    go (too_large e) k ih = tt
