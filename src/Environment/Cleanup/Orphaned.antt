-- ===== src/Environment/Cleanup/Orphaned.antt =====
-- Which environments the cleanup deletes.
use radix_operator.Prelude.{
  ℕ, ◌+◌, ◌<◌, String, Bool, true, false, not, Option, none, some, List, [], ◌∷◌, map, ◌==◌, ◌≡◌,
  refl, ◌⊎◌, inl, inr, Memᴰ, any, Distinct, any_name-find_all, arith, Bool-cases, ltb→lt, &&-true,
  find_all, find_all_of_mem, beq_comm,
}
use radix_operator.Environment.Sync.{RadixEnvironment, Calls, HandlerAnswers}
use radix_operator.Environment.Sync.Status.{after, OrphanedSince, orphaned_timestamp-after}
use radix_operator.Environment.Cleanup.{
  is_older, is_outdated, get_outdated_orphaned_environments, DeleteAnswer, deleted, not_found,
  failed, without_environment, delete_environment, delete_environments, run,
}

-- The environment is among those to delete by its name.
abbrev named : List RadixEnvironment → RadixEnvironment → Bool
named envs e = any (λ x. x.name == e.name) envs

outdated_time :
    (retention_period now : ℕ) (e : RadixEnvironment)
    → is_outdated retention_period now e ≡ true
    → (t : ℕ) × (e.status.orphaned_timestamp ≡ some t) × (t + retention_period < now)
unfolding is_outdated
outdated_time period now e h = go e.status.orphaned_timestamp refl
  where
    old : is_older e.status.orphaned_timestamp period now ≡ true
    old = (&&-true e.status.orphaned (is_older e.status.orphaned_timestamp period now) h).1

    go :
        (stamp : Option ℕ)
        → e.status.orphaned_timestamp ≡ stamp
        → (t : ℕ) × (e.status.orphaned_timestamp ≡ some t) × (t + period < now)
    go none eq = absurd (never (rw eq at old))
      where
        never : false ≡ true → ⊥
        never q = cc
    go (some t) eq = (t, eq, ltb→lt (t + period) now (rw eq at old))

module _ (answers : String → DeleteAnswer) (e : RadixEnvironment) where
  kept_by_one :
      (answer : DeleteAnswer) (name : String) (stored : List RadixEnvironment)
      → (name == e.name) ≡ false
      → Memᴰ e stored
      → Memᴰ e (delete_environment answer name stored)
  unfolding delete_environment without_environment
  kept_by_one deleted name stored other m =
      find_all_of_mem (λ x. not (x.name == name)) stored m
        (rw (beq_comm e.name name) (rw other refl))
  kept_by_one not_found name stored other m =
      find_all_of_mem (λ x. not (x.name == name)) stored m
        (rw (beq_comm e.name name) (rw other refl))
  kept_by_one (failed x) name stored other m = m

  kept_by_all :
      (envs stored : List RadixEnvironment)
      → named envs e ≡ false
      → Memᴰ e stored
      → Memᴰ e (delete_environments answers envs stored)
  unfolding delete_environments
  kept_by_all [] stored h m = m
  kept_by_all (x ∷ envs) stored h m =
      kept_by_all envs (delete_environment (answers x.name) x.name stored) (ground arith)
        (kept_by_one (answers x.name) x.name stored (ground arith) m)

-- The cleanup deletes an environment only if a sync before the retention period found it missing in
-- the application and wrote that, and no later sync that wrote its status has found it there; a
-- sync that fails to write its status does not count. The environment is the one that the syncs of
-- the history leave, from one that was no orphan.
pub run-deletes :
    (calls : Calls) (history : List (HandlerAnswers × ℕ)) (first : RadixEnvironment) (lists : Bool)
    (answers : String → DeleteAnswer) (retention_period now : ℕ) (stored : List RadixEnvironment)
    → first.status.orphaned_timestamp ≡ none
    → Distinct (map (λ x. x.name) stored)
    → Memᴰ (after calls history first) stored
    → Memᴰ (after calls history first) (run lists answers retention_period now stored)
      ⊎ ((t : ℕ) × (t + retention_period < now) × OrphanedSince calls t first.env_name history)
unfolding run get_outdated_orphaned_environments
run-deletes calls history first false answers period now stored never distinct m = inl m
run-deletes calls history first true answers period now stored never distinct m =
    let env = after calls history first in
    elim (Bool-cases (is_outdated period now env)) [
      | inl old ↦
          let (t, e, late) = outdated_time period now env old in
          inr (t, late, orphaned_timestamp-after calls first never history t e)
      | inr fresh ↦ inl (
          kept_by_all answers env (find_all (is_outdated period now) stored) stored
            (any_name-find_all (λ x. x.name) (is_outdated period now) stored distinct m fresh) m)
    ]
