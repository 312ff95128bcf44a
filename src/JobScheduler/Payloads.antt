-- ===== src/JobScheduler/Payloads.antt =====
-- The payloads of a new batch: createRadixBatchJobPayloadSecrets and createSecrets of
-- job-scheduler/api/v1/handlers/internal/handler.go, and the end of buildRadixBatchJobs. A
-- payload is the text that is left when its spaces are trimmed; its characters and those of a name
-- stand for bytes. The name of a secret is the
-- pair of the batch and the number from which the code formats it.
pub mod Sizes
pub mod Stored
pub mod Kept
pub mod Resolved
use radix_operator.Prelude.{
  ℕ, suc, ◌+◌, ◌*◌, String, Bool, true, false, not, Option, none, some, List, [], ◌∷◌, ◌++◌, ◌==◌,
  is_empty, ltb, if◌then◌else◌,
}
use Prim.Native.Nat.{◌/◌}
use Prim.Native.String.{len}

-- The entries of a secret, a Go map from keys to payloads.
unfoldable pub put : String → String → List (String × String) → List (String × String)
put key payload [] = (key, payload) ∷ []
put key payload ((k, v) ∷ entries) =
    if k == key then (key, payload) ∷ entries else (k, v) ∷ put key payload entries

unfoldable pub lookup : String → List (String × String) → Option String
lookup key [] = none
lookup key ((k, v) ∷ entries) = if k == key then some v else lookup key entries

pub record PayloadSecret : Type 0 where
  pub batch_name : String
  pub index : ℕ
  pub entries : List (String × String)

pub record PayloadSecretRef : Type 0 where
  pub batch_name : String
  pub index : ℕ
  pub key : String

-- A job that is built, with the trimmed payload of its description.
pub record BatchJob : Type 0 where
  pub name : String
  pub payload : String
  pub payload_secret_ref : Option PayloadSecretRef

pub data PayloadError : Type 0 where
  missing_payload_path : ℕ → PayloadError
  payload_too_large : ℕ → ℕ → PayloadError
  creation_failed : PayloadError

-- 1024 * 512
abbrev pub max_payload_secret_size : ℕ
max_payload_secret_size = 524288

abbrev pub payload_secret_aux_data_size : ℕ
payload_secret_aux_data_size = 600

abbrev pub payload_secret_entry_aux_data_size : ℕ
payload_secret_entry_aux_data_size = 128

-- `len(base64.RawStdEncoding.EncodeToString(payload))`: six bits to a character, no padding.
unfoldable pub base64_length : ℕ → ℕ
base64_length n = (n * 8 + 5) / 6

unfoldable pub secret_entry_size : String → String → ℕ
unfolding base64_length
secret_entry_size key payload =
    base64_length (len payload) + len key + payload_secret_entry_aux_data_size

abbrev pub build_payload_secret : String → ℕ → PayloadSecret
build_payload_secret batch_name index = record {
  batch_name = batch_name;
  index = index;
  entries = [];
}

abbrev pub has_no_entries : List (String × String) → Bool
has_no_entries [] = true
has_no_entries (_ ∷ _) = false

-- The variables of the loop. `filled` are the secrets before the one that is filled now, the
-- last first; `done` are the jobs that the loop is done with, the last first.
pub record Packing : Type 0 where
  pub filled : List PayloadSecret
  pub secret : PayloadSecret
  pub accumulated : ℕ
  pub done : List BatchJob
  pub errs : List PayloadError

pub data Packed : Type 0 where
  packing : Packing → Packed
  too_large : PayloadError → Packed

abbrev pub length_filled : List PayloadSecret → ℕ
length_filled [] = 0
length_filled (s ∷ ss) = suc (length_filled ss)

-- `payloadsSecret.Data[radixBatchJob.Name] = payload`, and the reference of the job.
unfoldable pub store_payload : BatchJob → ℕ → Packing → Packing
unfolding put
store_payload job size p = record p {
  secret = record p.secret { entries = put job.name job.payload p.secret.entries };
  accumulated = p.accumulated + size;
  done =
      (record job {
        payload_secret_ref =
            some
              (record { batch_name = p.secret.batch_name; index = p.secret.index; key = job.name });
      })
      ∷ p.done;
}

-- A new secret; `len(payloadSecrets)` counts the filled ones and the current one.
unfoldable pub next_secret : Packing → Packing
next_secret p = record p {
  filled = p.secret ∷ p.filled;
  secret = build_payload_secret p.secret.batch_name (suc (length_filled p.filled));
  accumulated = 0;
}

unfoldable pub pack_payload : ℕ → BatchJob → Packing → Packed
unfolding store_payload next_secret
pack_payload job_index job p =
    let size = secret_entry_size job.name job.payload in
    if ltb max_payload_secret_size (payload_secret_aux_data_size + p.accumulated + size)
    then (if has_no_entries p.secret.entries
        then too_large (payload_too_large job_index size)
        else packing (store_payload job size (next_secret p)))
    else packing (store_payload job size p)

unfoldable pub keep_job : BatchJob → Packing → Packing
keep_job job p = record p { done = job ∷ p.done }

-- One round of the loop.
unfoldable pub pack_job : Bool → ℕ → BatchJob → Packing → Packed
unfolding pack_payload keep_job
pack_job has_payload_path job_index job p =
    if is_empty job.payload
    then packing (keep_job job p)
    else if not has_payload_path
    then packing (record (keep_job job p) { errs = p.errs ++ missing_payload_path job_index ∷ [] })
    else pack_payload job_index job p

unfoldable pub pack_jobs : Bool → ℕ → List BatchJob → Packing → Packed
unfolding pack_job
pack_jobs has_payload_path job_index [] p = packing p
pack_jobs has_payload_path job_index (job ∷ jobs) p =
    elim (pack_job has_payload_path job_index job p) [
      | packing p' ↦ pack_jobs has_payload_path (suc job_index) jobs p'
      | too_large e ↦ too_large e
    ]

abbrev pub start_packing : String → Packing
start_packing batch_name = record {
  filled = [];
  secret = build_payload_secret batch_name 0;
  accumulated = 0;
  done = [];
  errs = [];
}

-- The secrets that the API server has when `createSecrets` returns, with the error. A deletion of
-- secrets that were created before a failure is not made by the code.
unfoldable pub create_secrets :
    (PayloadSecret → Bool) → List PayloadSecret → List PayloadSecret × List PayloadError
create_secrets creation_fails [] = ([], [])
create_secrets creation_fails (secret ∷ secrets) =
    let (created, errs) = create_secrets creation_fails secrets in
    if has_no_entries secret.entries
    then (created, errs)
    else if creation_fails secret
    then ([], creation_failed ∷ [])
    else (secret ∷ created, errs)

abbrev pub reverse_onto {ℓ} : {A : Type ℓ} → List A → List A → List A
reverse_onto [] ys = ys
reverse_onto (x ∷ xs) ys = reverse_onto xs (x ∷ ys)

-- The answer of `buildRadixBatchJobs`, the created secrets and the errors: with an error there
-- are no jobs.
pub record Created : Type 0 where
  pub jobs : List BatchJob
  pub secrets : List PayloadSecret
  pub errs : List PayloadError

abbrev jobs_unless : List PayloadError → List BatchJob → List BatchJob
jobs_unless [] jobs = jobs
jobs_unless (_ ∷ _) jobs = []

-- The end of the function, from the errors of the loop.
unfoldable pub create_unless :
    (PayloadSecret → Bool) → List PayloadError → List PayloadSecret → List BatchJob → Created
unfolding create_secrets
create_unless creation_fails [] secrets jobs =
    let (created, errs) = create_secrets creation_fails secrets in
    record { jobs = jobs_unless errs jobs; secrets = created; errs = errs }
create_unless creation_fails (e ∷ es) secrets jobs = record {
  jobs = [];
  secrets = [];
  errs = e ∷ es;
}

unfoldable pub finish_packing : (PayloadSecret → Bool) → Packed → Created
unfolding create_unless
finish_packing creation_fails (too_large e) = record { jobs = []; secrets = []; errs = e ∷ [] }
finish_packing creation_fails (packing p) =
    create_unless creation_fails p.errs (reverse_onto p.filled (p.secret ∷ []))
      (reverse_onto p.done [])

unfoldable pub create_radix_batch_job_payload_secrets :
    (PayloadSecret → Bool) → String → List BatchJob → Bool → Created
unfolding pack_jobs finish_packing
create_radix_batch_job_payload_secrets creation_fails batch_name jobs has_payload_path =
    finish_packing creation_fails (pack_jobs has_payload_path 0 jobs (start_packing batch_name))
