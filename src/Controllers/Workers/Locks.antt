-- ===== src/Controllers/Workers/Locks.antt =====
-- The locks and the calls of the work queue in the states that a controller reaches:
-- operator/common/controller.go and operator/common/utils.go.
use radix_operator.Prelude.{ℕ, String, ◌&&◌, ◌≡◌, ◌+◌, ◌≤◌, List, ◌==◌, length}
use radix_operator.Controllers.Workers.{ObjectName, Worker, State, is_locked}
use radix_operator.Controllers.Workers.Counts.{
  one_if, holds_lock, has_decided, same_object, is_decision, is_done_call, number_of,
}

module _ (lock_key : ObjectName → String) (threadiness : ℕ) where
  -- The workers that hold the lock of a key.
  abbrev pub holders : String → List Worker → ℕ
  holders k = number_of (λ w. holds_lock w.phase && lock_key w.item == k)

  -- The workers that have decided about an item, but not called `Done`.
  abbrev pub deciders : ObjectName → List Worker → ℕ
  deciders item = number_of (λ w. has_decided w.phase && same_object w.item item)

  -- What holds of the workers, the locks and the calls.
  pub record Fits (s : State) : Type 0 where
    pub lock_held : (k : String) → holders k s.workers ≡ one_if (is_locked k s.locks)
    pub decided :
        (item : ObjectName)
        → number_of (is_decision item) s.calls
          ≡ number_of (is_done_call item) s.calls + deciders item s.workers
    pub bounded : length s.workers ≤ threadiness
