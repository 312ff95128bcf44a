-- ===== src/PipelineJob/History/Buckets.antt =====
-- What the buckets of `getRadixJobCandidatesForDeletion` hold, pkg/apis/job/job_history.go.
use radix_operator.Prelude.{
  String, true, ◌&&◌, &&-true, ◌≡◌, sym, ap, ◌⊎◌, inl, inr, List, [], ◌∷◌, ◌++◌, Memᴰ, ◌==◌, eq_iff,
  mem-append_cases, arith, Bool-cases,
}
use radix_operator.PipelineJob.Types.{RadixJobCondition, RadixJob}
use radix_operator.PipelineJob.History.{same_condition, Bucket, add_to_bucket, add_to_buckets}

same_condition_sound : (a b : RadixJobCondition) → same_condition a b ≡ true → a ≡ b
same_condition_sound a b h = ground arith

-- A bucket of the condition and the environment has the job.
unfoldable pub Held : RadixJobCondition → String → RadixJob → List Bucket → Type 0
Held condition env j [] = ⊥
Held condition env j (b ∷ bs) =
    (Memᴰ j b.jobs × (b.condition ≡ condition) × (b.env ≡ env)) ⊎ Held condition env j bs

pub bucket_has_job :
    (b : Bucket) (j : RadixJob) (bs : List Bucket)
    → Memᴰ b bs
    → Memᴰ j b.jobs
    → Held b.condition b.env j bs
unfolding Held
bucket_has_job b j [] m k = elim m [ ]
bucket_has_job b j (c ∷ bs) (Memᴰ.head e) k =
    inl (rw (← e) k, ap (λ x. x.condition) (sym e), ap (λ x. x.env) (sym e))
bucket_has_job b j (c ∷ bs) (Memᴰ.tail m) k = inr (bucket_has_job b j bs m k)

-- The job that was put in, under this condition and environment.
abbrev pub Added : RadixJobCondition → RadixJob → RadixJob → Type 0
Added condition j rj = (j ≡ rj) × (condition ≡ rj.status.condition)

pub mem-one : {a c : RadixJob} → Memᴰ a (c ∷ []) → a ≡ c
mem-one (Memᴰ.head x) = x
mem-one (Memᴰ.tail x) = elim x [ ]

-- The bucket to which the job is appended.
appended :
    (rj : RadixJob) (e : String) (j : RadixJob) (b : Bucket) (bs : List Bucket)
    (condition : RadixJobCondition) (env : String)
    → (same_condition b.condition rj.status.condition && b.env == e) ≡ true
    → Memᴰ j (b.jobs ++ rj ∷ []) × (b.condition ≡ condition) × (b.env ≡ env)
    → Held condition env j (b ∷ bs) ⊎ (Added condition j rj × (env ≡ e))
unfolding Held
appended rj e j b bs condition env same (m, c, v) = elim (mem-append_cases b.jobs (rj ∷ []) m) [
  | inl old ↦ inl (inl (old, c, v))
  | inr new ↦
      let parts = &&-true (same_condition b.condition rj.status.condition) (b.env == e) same in
      let c' = same_condition_sound b.condition rj.status.condition parts.0 in
      let v' : b.env ≡ e = (eq_iff b.env e).0 parts.1 in inr ((mem-one new, cc), cc)
]

add_to_bucket_cases :
    (rj : RadixJob) (e : String) (buckets : List Bucket) (condition : RadixJobCondition)
    (env : String) (j : RadixJob)
    → Held condition env j (add_to_bucket rj e buckets)
    → Held condition env j buckets ⊎ (Added condition j rj × (env ≡ e))
unfolding add_to_bucket Held
add_to_bucket_cases rj e [] condition env j (inl (m, c, v)) = inr ((mem-one m, sym c), sym v)
add_to_bucket_cases rj e [] condition env j (inr x) = elim x [ ]
add_to_bucket_cases rj e (b ∷ bs) condition env j held =
    elim (Bool-cases (same_condition b.condition rj.status.condition && b.env == e)) [
      | inl same ↦ merged same (rw same at held)
      | inr differs ↦ kept (add_to_bucket_cases rj e bs condition env j) (rw differs at held)
    ]
  where
    merged :
        (same_condition b.condition rj.status.condition && b.env == e) ≡ true
        → (Memᴰ j (b.jobs ++ rj ∷ []) × (b.condition ≡ condition) × (b.env ≡ env))
          ⊎ Held condition env j bs
        → Held condition env j (b ∷ bs) ⊎ (Added condition j rj × (env ≡ e))
    merged same (inl here) = appended rj e j b bs condition env same here
    merged same (inr there) = inl (inr there)

    kept :
        (Held condition env j (add_to_bucket rj e bs)
          → Held condition env j bs ⊎ (Added condition j rj × (env ≡ e)))
        → (Memᴰ j b.jobs × (b.condition ≡ condition) × (b.env ≡ env))
          ⊎ Held condition env j (add_to_bucket rj e bs)
        → Held condition env j (b ∷ bs) ⊎ (Added condition j rj × (env ≡ e))
    kept in_rest (inl here) = inl (inl here)
    kept in_rest (inr there) = elim (in_rest there) [ inl old ↦ inl (inr old) | inr new ↦ inr new ]

pub add_to_buckets_cases :
    (rj : RadixJob) (envs : List String) (buckets : List Bucket) (condition : RadixJobCondition)
    (env : String) (j : RadixJob)
    → Held condition env j (add_to_buckets rj envs buckets)
    → Held condition env j buckets ⊎ (Added condition j rj × Memᴰ env envs)
unfolding add_to_buckets
add_to_buckets_cases rj [] buckets condition env j held = inl held
add_to_buckets_cases rj (e ∷ envs) buckets condition env j held =
    elim (add_to_buckets_cases rj envs (add_to_bucket rj e buckets) condition env j held) [
      | inr (new, m) ↦ inr (new, Memᴰ.tail m)
      | inl old ↦ elim (add_to_bucket_cases rj e buckets condition env j old) [
        | inl older ↦ inl older
        | inr (new, is_e) ↦ inr (new, Memᴰ.head is_e)
      ]
    ]
