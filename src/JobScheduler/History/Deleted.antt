-- ===== src/JobScheduler/History/Deleted.antt =====
-- Which batches the four deletion loops of a cleanup leave.
use radix_operator.Prelude.{
  ℕ, ◌-◌, String, Bool, true, false, not, ◌||◌, Option, none, some, List, [], ◌∷◌, ◌++◌, Memᴰ, ◌≡◌,
  refl, ◌∙◌, ◌==◌, any, length, take, mem_find_all, find_all_of_mem, arith, beq_comm,
}
use radix_operator.Batch.Types.{RadixBatch}
use radix_operator.JobScheduler.Batches.{
  DeleteAnswer, get_failed, delete_failed, gone, deleted, without_batch, delete_radix_batch_by_name,
}
use radix_operator.JobScheduler.History.{
  SchedulerState, deleted_from, unless_error, delete_names, cleanup_radix_batch_history, error_list,
  cleanup_all,
}

abbrev pub named : List String → RadixBatch → Bool
named names b = any (λ n. n == b.name) names

pub named-append :
    (xs ys : List String) (b : RadixBatch) → named (xs ++ ys) b ≡ (named xs b || named ys b)
named-append [] ys b = refl
named-append (x ∷ xs) ys b = let ih = named-append xs ys b in ground arith

-- Batches that are not named are kept; a batch that is left was there, and is not named if there
-- is no error.
abbrev pub Leaves : List String → SchedulerState → RadixBatch → SchedulerState → Bool → Type 0
Leaves names s b after fine =
    (named names b ≡ false → Memᴰ b s.batches → Memᴰ b after.batches)
    × (Memᴰ b after.batches → Memᴰ b s.batches × (fine ≡ true → named names b ≡ false))

abbrev pub is_none : Option String → Bool
is_none none = true
is_none (some e) = false

unfoldable pub no_errors : List String → Bool
no_errors [] = true
no_errors (e ∷ es) = false

no_errors-append :
    (e : Option String) (es : List String)
    → no_errors (error_list e ++ es) ≡ true
    → (is_none e ≡ true) × (no_errors es ≡ true)
unfolding no_errors
no_errors-append none es h = (refl, h)
no_errors-append (some e) es h = cc

-- The names that the four loops are to delete.
abbrev pub oldest : ℕ → List (List String) → List String
oldest limit [] = []
oldest limit (names ∷ more) = take (length names - limit) names ++ oldest limit more

module _ (answers : String → DeleteAnswer) where
  -- One deletion: what is kept, and what is left if it succeeds.
  delete_one :
      (answer : DeleteAnswer) (name : String) (s : SchedulerState) (b : RadixBatch)
      → ((name == b.name) ≡ false
          → Memᴰ b s.batches
          → Memᴰ b
              (deleted_from s name (delete_radix_batch_by_name answer name s.batches)).0.batches)
        × (Memᴰ b (deleted_from s name (delete_radix_batch_by_name answer name s.batches)).0.batches
            → Memᴰ b s.batches
              × ((deleted_from s name (delete_radix_batch_by_name answer name s.batches)).1 ≡ none
                  → (name == b.name) ≡ false))
  unfolding delete_radix_batch_by_name without_batch
  delete_one (get_failed e) name s b = (λ _ m. m, λ m. (m, λ q. cc))
  delete_one (delete_failed e) name s b = (λ _ m. m, λ m. (m, λ q. cc))
  delete_one gone name s b = (
    λ other m.
        find_all_of_mem (λ c. not (c.name == name)) s.batches m
          (rw (beq_comm b.name name) (rw other refl)),
    λ m.
        let (k, t) = mem_find_all (λ c. not (c.name == name)) s.batches m in
        (k, λ _. beq_comm name b.name ∙ ground arith),
  )
  delete_one deleted name s b = (
    λ other m.
        find_all_of_mem (λ c. not (c.name == name)) s.batches m
          (rw (beq_comm b.name name) (rw other refl)),
    λ m.
        let (k, t) = mem_find_all (λ c. not (c.name == name)) s.batches m in
        (k, λ _. beq_comm name b.name ∙ ground arith),
  )

  pub delete_names-Leaves :
      (names : List String) (s : SchedulerState) (b : RadixBatch)
      → Leaves names s b (delete_names answers names s).0 (is_none (delete_names answers names s).1)
  unfolding delete_names
  delete_names-Leaves [] s b = (λ _ m. m, λ m. (m, λ _. refl))
  delete_names-Leaves (name ∷ names) s b =
      go (deleted_from s name (delete_radix_batch_by_name (answers name) name s.batches))
        (delete_one (answers name) name s b) (λ s'. delete_names-Leaves names s' b)
    where
      go :
          (r : SchedulerState × Option String)
          → ((name == b.name) ≡ false → Memᴰ b s.batches → Memᴰ b r.0.batches)
            × (Memᴰ b r.0.batches → Memᴰ b s.batches × (r.1 ≡ none → (name == b.name) ≡ false))
          → ((s' : SchedulerState)
              → Leaves names s' b
                  (delete_names answers names s').0
                  (is_none (delete_names answers names s').1))
          → Leaves
              (name ∷ names)
              s
              b
              (unless_error (delete_names answers names) r).0
              (is_none (unless_error (delete_names answers names) r).1)
      go (s', none) (keep, left) ih = (
        λ other m. (ih s').0 (ground arith) (keep (ground arith) m),
        λ m.
            let (k, rest) = (ih s').1 m in
            let (k', one) = left k in (k', λ fine. let a = one refl in let c = rest fine in rw a c),
      )
      go (s', some e) (keep, left) ih =
          (λ other m. keep (ground arith) m, λ m. ((left m).0, λ fine. cc))

  pub cleanup_all-Leaves :
      (lists : List (List String)) (limit : ℕ) (s : SchedulerState) (b : RadixBatch)
      → Leaves
          (oldest limit lists)
          s
          b
          (cleanup_all answers lists limit s).0
          (no_errors (cleanup_all answers lists limit s).1)
  unfolding cleanup_all cleanup_radix_batch_history no_errors
  cleanup_all-Leaves [] limit s b = (λ _ m. m, λ m. (m, λ _. refl))
  cleanup_all-Leaves (names ∷ more) limit s b =
      let first = take (length names - limit) names in
      let (keep, left) = delete_names-Leaves first s b in
      let s' = (delete_names answers first s).0 in
      let (keep', left') = cleanup_all-Leaves more limit s' b in
      let split = named-append first (oldest limit more) b in
      (
        λ other m. keep' (ground arith) (keep (ground arith) m),
        λ m.
            let (k, rest) = left' m in
            let (k', one) = left k in
            (
              k',
              λ fine.
                  let (f1, f2) =
                    no_errors-append (delete_names answers first s).1
                      (cleanup_all answers more limit s').1 fine in
                  let a = one f1 in let c = rest f2 in split ∙ ground arith,
            ),
      )
