-- ===== src/Examples/Controllers.antt =====
-- Two workers with objects of one namespace, the second of which finds the lock busy.
use radix_operator.Prelude.{[], ◌∷◌}
use radix_operator.Controllers.Workers.{ObjectName, add_after, syncing, leaving, State}

abbrev first : ObjectName
first = record { namespace = "app"; name = "job-1" }

abbrev second : ObjectName
second = record { namespace = "app"; name = "job-2" }

abbrev state : State
state = record {
  locks = "app" ∷ [];
  workers =
      record { phase = leaving; item = second } ∷ record { phase = syncing; item = first } ∷ [];
  calls = add_after second ∷ [];
}
