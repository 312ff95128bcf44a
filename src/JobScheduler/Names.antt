-- ===== src/JobScheduler/Names.antt =====
-- The names of scheduled jobs: ParseBatchAndJobNameFromScheduledJobName of
-- job-scheduler/internal/batch.go, and the name that job-scheduler/pkg/batch/batch.go composes
-- from the name of a batch and that of its job.
pub mod RoundTrip
use radix_operator.Prelude.{
  ℕ, zero, suc, String, Bool, Option, none, some, List, [], ◌∷◌, ◌+++◌, nat_beq, ltb, length,
  if◌then◌else◌,
}
use Prim.Native.Char.{Char, code}
use Prim.Native.String as Text

abbrev pub is_dash : Char → Bool
is_dash c = nat_beq (code c) b'-'

-- The parts of the text with a character before the first one.
unfoldable pub push_front : Char → List String → List String
push_front c [] = Text.◌∷◌ c Text.[] ∷ []
push_front c (part ∷ parts) = Text.◌∷◌ c part ∷ parts

-- `strings.Split(s, "-")`
unfoldable pub split : String → List String
unfolding push_front
split Text.[] = "" ∷ []
split (Text.◌∷◌ c s) = if is_dash c then "" ∷ split s else push_front c (split s)

-- `strings.Join(parts, "-")`
unfoldable pub join_dash : List String → String
join_dash [] = ""
join_dash (part ∷ []) = part
join_dash (part ∷ next ∷ parts) = part +++ ("-" +++ join_dash (next ∷ parts))

-- `parts[:len(parts)-1]`
unfoldable pub without_last : List String → List String
without_last [] = []
without_last (part ∷ []) = []
without_last (part ∷ next ∷ parts) = part ∷ without_last (next ∷ parts)

-- `parts[len(parts)-1]`
unfoldable pub last_part : List String → String
last_part [] = ""
last_part (part ∷ []) = part
last_part (part ∷ next ∷ parts) = last_part (next ∷ parts)

-- The name of a scheduled job: `fmt.Sprintf("%s-%s", radixBatch.Name, radixBatchJob.Name)`.
unfoldable pub scheduled_job_name : String → String → String
scheduled_job_name batch_name job_name = batch_name +++ ("-" +++ job_name)

unfoldable pub parse_batch_and_job_name : String → Option (String × String)
unfolding split join_dash without_last last_part
parse_batch_and_job_name name =
    let parts = split name in
    if ltb (length parts) 2 then none else some (join_dash (without_last parts), last_part parts)
