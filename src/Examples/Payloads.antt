-- ===== src/Examples/Payloads.antt =====
-- The payloads of two jobs of a batch, and the name of one of the jobs.
use radix_operator.Prelude.{
  ◌≤◌, ◌<◌, String, false, ◌≡◌, ◌⊎◌, ◌↔◌, refl, none, some, List, [], ◌∷◌, map, All, Memᴰ, length,
  true,
}
use radix_operator.JobScheduler.Names.{scheduled_job_name, parse_batch_and_job_name}
use radix_operator.JobScheduler.Names.RoundTrip.{parse_batch_and_job_name_iff, has_dash}
use radix_operator.JobScheduler.Payloads.{
  BatchJob, PayloadSecret, max_payload_secret_size, create_radix_batch_job_payload_secrets,
  secret_entry_size,
}
use radix_operator.JobScheduler.Payloads.Sizes.{secret_size, created_secrets_bounded}
use radix_operator.JobScheduler.Payloads.Resolved.{Resolves, created_payloads_resolve}
use radix_operator.JobScheduler.Payloads.Kept.{text_of}

abbrev job : String → String → BatchJob
job name payload = record { name = name; payload = payload; payload_secret_ref = none }

abbrev jobs : List BatchJob
jobs = job "one" "data" ∷ job "two" "" ∷ job "three" "more data" ∷ []

abbrev secret : PayloadSecret
secret = record {
  batch_name = "batch";
  index = 0;
  entries = ("one", "data") ∷ ("three", "more data") ∷ [];
}

created_secrets_bounded_example :
    (secret_size secret ≤ max_payload_secret_size)
    ⊎ ((length secret.entries ≡ 1) × (0 < secret.index))
unfolding create_radix_batch_job_payload_secrets secret_entry_size
created_secrets_bounded_example =
    created_secrets_bounded (λ _. false) "batch" jobs true secret (Memᴰ.head refl)

created_payloads_resolve_example :
    All
      (Resolves (create_radix_batch_job_payload_secrets (λ _. false) "batch" jobs true).secrets)
      (create_radix_batch_job_payload_secrets (λ _. false) "batch" jobs true).jobs
    × (map text_of (create_radix_batch_job_payload_secrets (λ _. false) "batch" jobs true).jobs
        ≡ map text_of jobs)
unfolding create_radix_batch_job_payload_secrets secret_entry_size
created_payloads_resolve_example =
    created_payloads_resolve (λ _. false) "batch" jobs true (refl, (refl, (refl, tt))) refl

parse_batch_and_job_name_iff_example :
    (parse_batch_and_job_name "batch-compute-20240101-xyz-job1"
      ≡ some ("batch-compute-20240101-xyz", "job1"))
    ↔ (("batch-compute-20240101-xyz-job1" ≡ scheduled_job_name "batch-compute-20240101-xyz" "job1")
        × (has_dash "job1" ≡ false))
parse_batch_and_job_name_iff_example =
    parse_batch_and_job_name_iff "batch-compute-20240101-xyz-job1" "batch-compute-20240101-xyz"
      "job1"

-- The name is read.
parsed :
    parse_batch_and_job_name "batch-compute-20240101-xyz-job1"
    ≡ some ("batch-compute-20240101-xyz", "job1")
unfolding parse_batch_and_job_name
parsed = refl
