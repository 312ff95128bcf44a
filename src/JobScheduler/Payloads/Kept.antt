-- ===== src/JobScheduler/Payloads/Kept.antt =====
-- The loop over the jobs keeps their names and payloads.
use radix_operator.Prelude.{
  ℕ, suc, ◌+◌, String, Bool, not, Option, List, [], ◌∷◌, map, ◌≡◌, refl, sym, inl, inr, is_empty,
  ltb, Bool-cases, ◌∙◌,
}
use radix_operator.JobScheduler.Payloads.{
  PayloadSecret, BatchJob, PayloadError, PayloadSecretRef, max_payload_secret_size,
  payload_secret_aux_data_size, secret_entry_size, has_no_entries, Packing, Packed, packing,
  too_large, store_payload, next_secret, pack_payload, keep_job, pack_job, pack_jobs, reverse_onto,
  create_unless, finish_packing,
}

-- The names and the payloads of the jobs stay as they are, in their order.
abbrev pub text_of : BatchJob → String × String
text_of j = (j.name, j.payload)

text-reverse_onto :
    (xs ys : List BatchJob)
    → map text_of (reverse_onto xs ys) ≡ reverse_onto (map text_of xs) (map text_of ys)
text-reverse_onto [] ys = refl
text-reverse_onto (x ∷ xs) ys = text-reverse_onto xs (x ∷ ys)

replace_job :
    (done rest : List BatchJob) (job : BatchJob) (ref : Option PayloadSecretRef)
    → map text_of (reverse_onto done ((record job { payload_secret_ref = ref }) ∷ rest))
      ≡ map text_of (reverse_onto done (job ∷ rest))
replace_job done rest job ref =
    text-reverse_onto done ((record job { payload_secret_ref = ref }) ∷ rest)
    ∙ sym (text-reverse_onto done (job ∷ rest))

abbrev SameJobs : List (String × String) → List BatchJob → Packed → Type 0
SameJobs texts rest (packing p) = map text_of (reverse_onto p.done rest) ≡ texts
SameJobs texts rest (too_large e) = Unit

module _ (job : BatchJob) (rest : List BatchJob) (texts : List (String × String)) where
  pack_job-SameJobs :
      (path : Bool) (i : ℕ) (p : Packing)
      → map text_of (reverse_onto p.done (job ∷ rest)) ≡ texts
      → SameJobs texts rest (pack_job path i job p)
  unfolding pack_job keep_job pack_payload store_payload next_secret
  pack_job-SameJobs path i p h = elim (Bool-cases (is_empty job.payload)) [
    | inl blank ↦ rw blank h
    | inr full ↦ elim (Bool-cases (not path)) [
      | inl missing ↦ rw (full, missing) h
      | inr there ↦
          elim (Bool-cases (
            ltb max_payload_secret_size (
              payload_secret_aux_data_size
              + p.accumulated
              + secret_entry_size job.name job.payload))) [
                | inl big ↦ elim (Bool-cases (has_no_entries p.secret.entries)) [
                  | inl none_yet ↦ rw (full, there, big, none_yet) tt
                  | inr some_yet ↦
                      rw (full, there, big, some_yet) (replace_job p.done rest job _ ∙ h)
                ]
                | inr small ↦ rw (full, there, small) (replace_job p.done rest job _ ∙ h)
              ]
    ]
  ]

pub pack_jobs-SameJobs :
    (path : Bool) (i : ℕ) (jobs : List BatchJob) (p : Packing) (texts : List (String × String))
    → map text_of (reverse_onto p.done jobs) ≡ texts
    → SameJobs texts [] (pack_jobs path i jobs p)
unfolding pack_jobs
pack_jobs-SameJobs path i [] p texts h = h
pack_jobs-SameJobs path i (job ∷ jobs) p texts h =
    go (pack_job path i job p) (pack_job-SameJobs job jobs texts path i p h)
      (λ p'. pack_jobs-SameJobs path (suc i) jobs p' texts)
  where
    go :
        (r : Packed)
        → SameJobs texts jobs r
        → ((p' : Packing)
            → map text_of (reverse_onto p'.done jobs) ≡ texts
            → SameJobs texts [] (pack_jobs path (suc i) jobs p'))
        → SameJobs texts []
            (elim r [ packing p' ↦ pack_jobs path (suc i) jobs p' | too_large e ↦ too_large e ])
    go (packing p') k ih = ih p' k
    go (too_large e) k ih = tt

-- Without an error the answer has all jobs.
pub finish_packing-jobs :
    (creation_fails : PayloadSecret → Bool) (texts : List (String × String)) (r : Packed)
    → SameJobs texts [] r
    → (finish_packing creation_fails r).errs ≡ []
    → map text_of (finish_packing creation_fails r).jobs ≡ texts
unfolding finish_packing
finish_packing-jobs fails texts (too_large e) h ok = absurd (some_error ok)
  where
    some_error : e ∷ [] ≡ [] → ⊥
    some_error q = cc
finish_packing-jobs fails texts (packing p) h ok = go p.errs ok
  where
    go :
        (errs : List PayloadError)
        → (create_unless fails errs
            (reverse_onto p.filled (p.secret ∷ []))
            (reverse_onto p.done [])).errs
          ≡ []
        → map text_of
            (create_unless fails errs
              (reverse_onto p.filled (p.secret ∷ []))
              (reverse_onto p.done [])).jobs
          ≡ texts
    go [] e = unfold create_unless in rw e h
    go (x ∷ xs) e = unfold create_unless in cc
