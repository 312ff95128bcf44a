-- ===== src/Controllers/Workers.antt =====
-- The workers of a controller and their locks: `processNext` and `processWorkItem` of
-- operator/common/controller.go, and `TryGetLock` and `ReleaseLock` of operator/common/utils.go. A
-- step of a worker is one call of the lock or of the work queue; the steps of several workers
-- come in any order. The work queue is client-go's: its calls are recorded, and `Get` gives
-- any item. The handler's `Sync`, with its retries, is any result.
pub mod Counts
pub mod Locks
use radix_operator.Prelude.{
  ℕ, String, Bool, true, false, ◌≡◌, ◌<◌, Option, none, some, List, [], ◌∷◌, ◌++◌, any, ◌==◌,
  length, if◌then◌else◌,
}

pub record ObjectName : Type 0 where
  pub namespace : String
  pub name : String

-- `NamespacePartitionKey` and `NamePartitionKey`
abbrev pub namespace_partition_key : ObjectName → String
namespace_partition_key obj = obj.namespace

abbrev pub name_partition_key : ObjectName → String
name_partition_key obj = obj.name

-- The calls of the work queue by the workers.
pub data Call : Type 0 where
  add_after add_rate_limited forget done : ObjectName → Call

-- Where the function of a worker stands: before `TryGetLock`, in `Sync`, before `ReleaseLock`, and
-- before `Done`.
pub data Phase : Type 0 where
  taken syncing synced leaving : Phase

pub record Worker : Type 0 where
  pub phase : Phase
  pub item : ObjectName

-- `locks` are the keys of the map of the locker, `calls` the calls so far, the last one first.
pub record State : Type 0 where
  pub locks : List String
  pub workers : List Worker
  pub calls : List Call

abbrev pub is_locked : String → List String → Bool
is_locked key locks = any (λ k. k == key) locks

-- `TryGetLock`: the result, and the keys afterwards.
unfoldable pub try_get_lock : String → List String → Bool × List String
try_get_lock key locks = if is_locked key locks then (false, locks) else (true, key ∷ locks)

-- `ReleaseLock`
unfoldable pub release_lock : String → List String → List String
release_lock key [] = []
release_lock key (k ∷ ks) = let rest = release_lock key ks in if k == key then rest else k ∷ rest

-- The call after `Sync`, from its error.
unfoldable pub after_sync : Option String → ObjectName → Call
after_sync none item = forget item
after_sync (some e) item = add_rate_limited item

-- A worker after `TryGetLock`, with the calls that it makes.
unfoldable pub after_try : Bool → ObjectName → List Call → Worker × List Call
after_try true item calls = (record { phase = syncing; item = item }, calls)
after_try false item calls = (record { phase = leaving; item = item }, add_after item ∷ calls)

module _ (lock_key : ObjectName → String) (threadiness : ℕ) where
  -- One step. The worker that moves stands between the workers `before` and `after`.
  pub data Step : State → State → Type 0 where
    -- `processNext` has an item of the queue, and the group of goroutines has room.
    process_next :
        (item : ObjectName) (s : State)
        → length s.workers < threadiness
        → Step s (record s { workers = record { phase = taken; item = item } ∷ s.workers })
    try_lock :
        (item : ObjectName) (before after : List Worker) (locks : List String) (calls : List Call)
        → Step
            (record {
              locks = locks;
              workers = before ++ record { phase = taken; item = item } ∷ after;
              calls = calls;
            })
            (record {
              locks = (try_get_lock (lock_key item) locks).1;
              workers =
                  before ++ (after_try (try_get_lock (lock_key item) locks).0 item calls).0 ∷ after;
              calls = (after_try (try_get_lock (lock_key item) locks).0 item calls).1;
            })
    -- `Sync` ends, with an error or without.
    process_work_item :
        (error : Option String) (item : ObjectName) (before after : List Worker)
        (locks : List String) (calls : List Call)
        → Step
            (record {
              locks = locks;
              workers = before ++ record { phase = syncing; item = item } ∷ after;
              calls = calls;
            })
            (record {
              locks = locks;
              workers = before ++ record { phase = synced; item = item } ∷ after;
              calls = after_sync error item ∷ calls;
            })
    release :
        (item : ObjectName) (before after : List Worker) (locks : List String) (calls : List Call)
        → Step
            (record {
              locks = locks;
              workers = before ++ record { phase = synced; item = item } ∷ after;
              calls = calls;
            })
            (record {
              locks = release_lock (lock_key item) locks;
              workers = before ++ record { phase = leaving; item = item } ∷ after;
              calls = calls;
            })
    leave :
        (item : ObjectName) (before after : List Worker) (locks : List String) (calls : List Call)
        → Step
            (record {
              locks = locks;
              workers = before ++ record { phase = leaving; item = item } ∷ after;
              calls = calls;
            })
            (record { locks = locks; workers = before ++ after; calls = done item ∷ calls })

  -- The states that a controller reaches.
  pub data Reach : State → Type 0 where
    start : Reach (record { locks = []; workers = []; calls = [] })
    next : {s t : State} → Reach s → Step s t → Reach t
