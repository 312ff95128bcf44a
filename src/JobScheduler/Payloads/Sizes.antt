-- ===== src/JobScheduler/Payloads/Sizes.antt =====
-- The sizes of the payload secrets that are created for a batch.
use radix_operator.Prelude.{
  ℕ, suc, ◌+◌, ◌≤◌, ◌<◌, String, Bool, not, List, [], ◌∷◌, Memᴰ, ◌≡◌, refl, ◌⊎◌, inl, inr, ◌==◌,
  is_empty, ltb, length, arith, Bool-cases, All, All_of_mem,
}
use radix_operator.JobScheduler.Payloads.{
  put, PayloadSecret, BatchJob, PayloadError, max_payload_secret_size, payload_secret_aux_data_size,
  secret_entry_size, has_no_entries, Packing, Packed, packing, too_large, store_payload,
  next_secret, pack_payload, keep_job, pack_job, pack_jobs, start_packing, create_secrets,
  reverse_onto, create_unless, finish_packing, create_radix_batch_job_payload_secrets,
}

entries_size : List (String × String) → ℕ
entries_size [] = 0
entries_size ((k, v) ∷ entries) = secret_entry_size k v + entries_size entries

-- The estimate of the code for the size of a secret.
unfoldable pub secret_size : PayloadSecret → ℕ
unfolding entries_size
secret_size s = payload_secret_aux_data_size + entries_size s.entries

entries_size-put :
    (k v : String) (m : List (String × String))
    → entries_size (put k v m) ≤ entries_size m + secret_entry_size k v
unfolding entries_size put
entries_size-put k v [] = omega arith
entries_size-put k v ((j, w) ∷ m) = elim (Bool-cases (j == k)) [
  | inl e ↦ rw e (omega arith)
  | inr e ↦ rw e (let ih = entries_size-put k v m in omega arith)
]

-- A secret is within the limit, or it has one payload only and is not the first secret.
abbrev pub Bounded : PayloadSecret → Type 0
Bounded s = (secret_size s ≤ max_payload_secret_size) ⊎ ((length s.entries ≡ 1) × (0 < s.index))

abbrev InBounds : Packing → Type 0
InBounds p =
    All Bounded p.filled
    × Bounded p.secret
    × (secret_size p.secret ≤ payload_secret_aux_data_size + p.accumulated)

abbrev KeepsBounds : Packed → Type 0
KeepsBounds (packing p') = InBounds p'
KeepsBounds (too_large e) = Unit

module _ (job : BatchJob) (p : Packing) (h : InBounds p) where
  store_payload-InBounds :
      payload_secret_aux_data_size + p.accumulated + secret_entry_size job.name job.payload
        ≤ max_payload_secret_size
      → InBounds (store_payload job (secret_entry_size job.name job.payload) p)
  unfolding store_payload secret_size
  store_payload-InBounds fits =
      let grown = entries_size-put job.name job.payload p.secret.entries in
      let size = h.2 in (h.0, inl (omega arith), omega arith)

  store_in_next-InBounds :
      InBounds (store_payload job (secret_entry_size job.name job.payload) (next_secret p))
  unfolding store_payload next_secret secret_size entries_size put
  store_in_next-InBounds = ((h.1, h.0), inr (refl, omega arith), omega arith)

  pack_payload-InBounds : (i : ℕ) → KeepsBounds (pack_payload i job p)
  unfolding pack_payload
  pack_payload-InBounds i =
      elim (Bool-cases (
        ltb max_payload_secret_size (
          payload_secret_aux_data_size + p.accumulated + secret_entry_size job.name job.payload))) [
            | inl big ↦ elim (Bool-cases (has_no_entries p.secret.entries)) [
              | inl none_yet ↦ rw (big, none_yet) tt
              | inr some_yet ↦ rw (big, some_yet) store_in_next-InBounds
            ]
            | inr small ↦ rw small (store_payload-InBounds (ground arith))
          ]

  pack_job-InBounds : (path : Bool) (i : ℕ) → KeepsBounds (pack_job path i job p)
  unfolding pack_job keep_job
  pack_job-InBounds path i = elim (Bool-cases (is_empty job.payload)) [
    | inl blank ↦ rw blank h
    | inr full ↦ elim (Bool-cases (not path)) [
      | inl missing ↦ rw (full, missing) h
      | inr there ↦ rw (full, there) (pack_payload-InBounds i)
    ]
  ]

pack_jobs-InBounds :
    (path : Bool) (i : ℕ) (jobs : List BatchJob) (p : Packing)
    → InBounds p
    → KeepsBounds (pack_jobs path i jobs p)
unfolding pack_jobs
pack_jobs-InBounds path i [] p h = h
pack_jobs-InBounds path i (job ∷ jobs) p h =
    go (pack_job path i job p) (pack_job-InBounds job p h path i)
      (λ p'. pack_jobs-InBounds path (suc i) jobs p')
  where
    go :
        (r : Packed)
        → KeepsBounds r
        → ((p' : Packing) → InBounds p' → KeepsBounds (pack_jobs path (suc i) jobs p'))
        → KeepsBounds
            (elim r [ packing p' ↦ pack_jobs path (suc i) jobs p' | too_large e ↦ too_large e ])
    go (packing p') k ih = ih p' k
    go (too_large e) k ih = tt

mem-create_secrets :
    (creation_fails : PayloadSecret → Bool) {s : PayloadSecret} (secrets : List PayloadSecret)
    → Memᴰ s (create_secrets creation_fails secrets).0
    → Memᴰ s secrets
unfolding create_secrets
mem-create_secrets fails [] m = elim m [ ]
mem-create_secrets fails {s} (x ∷ secrets) m = elim (Bool-cases (has_no_entries x.entries)) [
  | inl e ↦ Memᴰ.tail (mem-create_secrets fails secrets (rw e at m))
  | inr e ↦ elim (Bool-cases (fails x)) [
    | inl f ↦ absurd (nothing (rw (e, f) at m))
    | inr f ↦ go (rw (e, f) at m) (mem-create_secrets fails secrets)
  ]
]
  where
    nothing : Memᴰ s [] → ⊥
    nothing k = elim k [ ]

    go :
        Memᴰ s (x ∷ (create_secrets fails secrets).0)
        → (Memᴰ s (create_secrets fails secrets).0 → Memᴰ s secrets)
        → Memᴰ s (x ∷ secrets)
    go (Memᴰ.head q) ih = Memᴰ.head q
    go (Memᴰ.tail k) ih = Memᴰ.tail (ih k)

All-reverse_onto :
    (xs ys : List PayloadSecret)
    → All Bounded xs
    → All Bounded ys
    → All Bounded (reverse_onto xs ys)
All-reverse_onto [] ys h k = k
All-reverse_onto (x ∷ xs) ys h k = All-reverse_onto xs (x ∷ ys) h.1 (h.0, k)

mem-create_unless :
    (creation_fails : PayloadSecret → Bool) (errs : List PayloadError) {s : PayloadSecret}
    (secrets : List PayloadSecret) (jobs : List BatchJob)
    → Memᴰ s (create_unless creation_fails errs secrets jobs).secrets
    → Memᴰ s secrets
unfolding create_unless
mem-create_unless fails [] secrets jobs m = mem-create_secrets fails secrets m
mem-create_unless fails (e ∷ es) secrets jobs m = elim m [ ]

mem-finish_packing :
    (creation_fails : PayloadSecret → Bool) (r : Packed) {s : PayloadSecret}
    → KeepsBounds r
    → Memᴰ s (finish_packing creation_fails r).secrets
    → Bounded s
unfolding finish_packing
mem-finish_packing fails (too_large e) h m = elim m [ ]
mem-finish_packing fails (packing p) h m =
    All_of_mem Bounded (reverse_onto p.filled (p.secret ∷ []))
      (All-reverse_onto p.filled (p.secret ∷ []) h.0 (h.1, tt))
      (mem-create_unless fails p.errs (reverse_onto p.filled (p.secret ∷ []))
        (reverse_onto p.done []) m)

-- Every secret that is created for the payloads of a batch is within the size limit by the
-- estimate of the code, unless it holds one payload only and is not the first secret of the batch.
pub created_secrets_bounded :
    (creation_fails : PayloadSecret → Bool) (batch_name : String) (jobs : List BatchJob)
    (has_payload_path : Bool) (s : PayloadSecret)
    → Memᴰ s
        (create_radix_batch_job_payload_secrets creation_fails batch_name jobs
          has_payload_path).secrets
    → (secret_size s ≤ max_payload_secret_size) ⊎ ((length s.entries ≡ 1) × (0 < s.index))
unfolding create_radix_batch_job_payload_secrets
created_secrets_bounded fails batch_name jobs path s m =
    mem-finish_packing fails (pack_jobs path 0 jobs (start_packing batch_name))
      (pack_jobs-InBounds path 0 jobs (start_packing batch_name) start) m
  where
    start : InBounds (start_packing batch_name)
    start = unfold secret_size entries_size in (tt, inl (omega arith), omega arith)
