-- ===== src/JobScheduler/History/Oldest.antt =====
-- What a cleanup leaves of each kind of batches.
use radix_operator.Prelude.{
  ℕ, ◌+◌, ◌-◌, ◌≤◌, ◌<◌, ◌&&◌, ap, String, Bool, true, false, ◌||◌, Option, Option-cases, none,
  some, List, [], map, Memᴰ, ◌≡◌, refl, sym, ◌∙◌, ◌⊎◌, inl, inr, ◌==◌, any, ltb, length, take,
  find_all, mem_find_all, any_of_mem, mem_of_any, Distinct, same_of_name, append-nil, arith,
  Bool-cases, beq_comm,
}
use mathlib.Core.List.{Permᴰ}
use radix_operator.Batch.Types.{RadixBatch}
use radix_operator.JobScheduler.History.{
  is_of_kind, names_of_kind, Kind, SchedulerState, error_list, cleanup_all, CleanupAnswers,
  completed_names, after_listing, cleanup, succeeded_radix_batches, not_succeeded_radix_batches,
  succeeded_single_jobs, not_succeeded_single_jobs,
}
use radix_operator.JobScheduler.History.Order.{
  length-find_all_drop, length-map, mem-take_pos, mem-perm, length-find_all_perm, find_all-find_all,
  length-find_all-map, IsAscending, find_all-IsAscending, not_before, mem-take_ascending,
}
use radix_operator.JobScheduler.History.Deleted.{
  named, named-append, no_errors, oldest, cleanup_all-Leaves,
}

-- The names that are to go of one kind.
abbrev pub beyond_limit : ℕ → List String → List String
beyond_limit limit names = take (length names - limit) names

||-cases : (a b : Bool) → (a || b) ≡ true → (a ≡ true) ⊎ (b ≡ true)
||-cases true b h = inl refl
||-cases false b h = inr h

module _ (sort : List RadixBatch → List RadixBatch) (now limit : ℕ)
    (batches : List RadixBatch) where
  abbrev names : Kind → List String
  names k = names_of_kind now k (sort batches)

  abbrev all_oldest : List String
  all_oldest = oldest limit (completed_names sort now batches)

  module _ (b : RadixBatch) where
    split_oldest : named all_oldest b ≡ (
        named (beyond_limit limit (names succeeded_radix_batches)) b
        || (named (beyond_limit limit (names not_succeeded_radix_batches)) b
            || (named (beyond_limit limit (names succeeded_single_jobs)) b
                || (named (beyond_limit limit (names not_succeeded_single_jobs)) b || false))))
    unfolding completed_names
    split_oldest = simp (named-append)

    oldest_of_kind :
        (k : Kind) → named (beyond_limit limit (names k)) b ≡ true → named all_oldest b ≡ true
    oldest_of_kind succeeded_radix_batches h = split_oldest ∙ ground arith
    oldest_of_kind not_succeeded_radix_batches h = split_oldest ∙ ground arith
    oldest_of_kind succeeded_single_jobs h = split_oldest ∙ ground arith
    oldest_of_kind not_succeeded_single_jobs h = split_oldest ∙ ground arith

    kind_of_oldest :
        named all_oldest b ≡ true → (k : Kind) × (named (beyond_limit limit (names k)) b ≡ true)
    kind_of_oldest h = elim (||-cases _ _ (sym split_oldest ∙ h)) [
      | inl e ↦ (succeeded_radix_batches, e)
      | inr r ↦ elim (||-cases _ _ r) [
        | inl e ↦ (not_succeeded_radix_batches, e)
        | inr q ↦ elim (||-cases _ _ q) [
          | inl e ↦ (succeeded_single_jobs, e)
          | inr t ↦ (not_succeeded_single_jobs, ground arith)
        ]
      ]
    ]

    module _ (distinct : Distinct (map (λ x. x.name) batches))
        (permutes : Permᴰ (sort batches) batches) (sorted : IsAscending (sort batches)) where
      -- The batch itself is of the kind by which its name is to go, and more batches than the limit
      -- were not completed before it.
      of_kind :
          (k : Kind)
          → Memᴰ b batches
          → named (beyond_limit limit (names k)) b ≡ true
          → (is_of_kind now k b ≡ true)
            × (limit < length (find_all (λ x. is_of_kind now k x && not_before b x) batches))
      unfolding names_of_kind
      of_kind k m h =
          let kept = find_all (is_of_kind now k) (sort batches) in
          let (n, in_take, e) = mem_of_any (λ n. n == b.name) (beyond_limit limit (names k)) h in
          let (c, found, ec, behind) =
            mem-take_ascending kept (length (names k) - limit) n
              (find_all-IsAscending (is_of_kind now k) (sort batches) sorted) in_take in
          let (in_sorted, kind) = mem_find_all (is_of_kind now k) (sort batches) found in
          let same =
            same_of_name (λ x. x.name) batches distinct m (mem-perm permutes in_sorted)
              (beq_comm b.name c.name ∙ rw ec at e) in
          let all_names = length-map (λ (x : RadixBatch). x.name) kept in
          let some_taken = mem-take_pos (length (names k) - limit) (names k) in_take in
          let both =
            ap length (find_all-find_all (is_of_kind now k) (not_before c) (sort batches)) in
          let stored = length-find_all_perm (λ x. is_of_kind now k x && not_before c x) permutes in
          (rw (← same) kind, rw (← same) (omega arith))

-- A cleanup deletes a batch only if it is of one of the four kinds (the batches, or the single jobs,
-- that have succeeded, or that have not, and were completed more than an hour ago), and more stored
-- batches of its kind than the limit, itself included, were not completed before it. The names of
-- the batches are distinct, and the sort is an ascending permutation.
pub cleanup-deletes :
    (sort : List RadixBatch → List RadixBatch) (answers : CleanupAnswers) (limit now : ℕ)
    (s : SchedulerState) (b : RadixBatch)
    → Distinct (map (λ x. x.name) s.batches)
    → Permᴰ (sort s.batches) s.batches
    → IsAscending (sort s.batches)
    → Memᴰ b s.batches
    → Memᴰ b (cleanup sort answers limit now s).0.batches
      ⊎ ((k : Kind) × (is_of_kind now k b ≡ true)
          × (limit < length (find_all (λ x. is_of_kind now k x && not_before b x) s.batches)))
unfolding cleanup after_listing
cleanup-deletes sort answers limit now s b distinct permutes sorted m =
    elim (Bool-cases (ltb now (s.last_cleanup_time + 60))) [
      | inl soon ↦ inl (rw soon m)
      | inr late ↦ elim (Option-cases answers.list_error) [
        | inr (e, failed) ↦ inl (rw (late, failed) m)
        | inl listed ↦ elim (Bool-cases (named (all_oldest sort now limit s.batches) b)) [
          | inl old ↦
              let (k, h) = kind_of_oldest sort now limit s.batches b old in
              let (kind, many) =
                of_kind sort now limit s.batches b distinct permutes sorted k m h in
              inr (k, kind, many)
          | inr keep ↦ inl (
              rw (late, listed)
                ((cleanup_all-Leaves answers.delete_answer (completed_names sort now s.batches)
                    limit (record s { last_cleanup_time = now }) b).0
                  keep m))
        ]
      ]
    ]

module _ (sort : List RadixBatch → List RadixBatch) (answers : CleanupAnswers) (limit now : ℕ)
    (s : SchedulerState) where
  after_listing-not_oldest :
      (listing : Option String) (b : RadixBatch)
      → (after_listing sort answers limit now (record s { last_cleanup_time = now }) listing).1 ≡ []
      → Memᴰ b
          (after_listing sort answers limit now
            (record s { last_cleanup_time = now })
            listing).0.batches
      → named (all_oldest sort now limit s.batches) b ≡ false
  unfolding after_listing
  after_listing-not_oldest (some e) b fine there = cc
  after_listing-not_oldest none b fine there =
      let (none_failed, rest) =
        append-nil
          (cleanup_all answers.delete_answer (completed_names sort now s.batches) limit
            (record s { last_cleanup_time = now })).1
          (error_list answers.secrets_error) fine in
      ((cleanup_all-Leaves answers.delete_answer (completed_names sort now s.batches) limit
            (record s { last_cleanup_time = now }) b).1
          there).1
        (rw none_failed (unfold no_errors in refl))

  not_oldest :
      (b : RadixBatch)
      → ltb now (s.last_cleanup_time + 60) ≡ false
      → (cleanup sort answers limit now s).1 ≡ []
      → Memᴰ b (cleanup sort answers limit now s).0.batches
      → named (all_oldest sort now limit s.batches) b ≡ false
  unfolding cleanup
  not_oldest b late fine there =
      after_listing-not_oldest answers.list_error b (rw late at fine) (rw late at there)

  -- The names of a kind that are to go have no batch after a cleanup without an error.
  gone_names :
      (k : Kind)
      → ltb now (s.last_cleanup_time + 60) ≡ false
      → (cleanup sort answers limit now s).1 ≡ []
      → (n : String) → Memᴰ n (beyond_limit limit (names_of_kind now k (sort s.batches)))
      → any (λ b. b.name == n) (cleanup sort answers limit now s).0.batches ≡ false
  gone_names k late fine n m =
      elim (Bool-cases (any (λ b. b.name == n) (cleanup sort answers limit now s).0.batches)) [
        | inr e ↦ e
        | inl e ↦
            let (b, there, eq) =
              mem_of_any (λ b. b.name == n) (cleanup sort answers limit now s).0.batches e in
            let old = oldest_of_kind sort now limit s.batches b k (
              any_of_mem (λ x. x == b.name)
                (beyond_limit limit (names_of_kind now k (sort s.batches))) m
                (beq_comm n b.name ∙ eq)) in
            absurd (clash old (not_oldest b late fine there))
      ]
    where
      clash : {t : Bool} → t ≡ true → t ≡ false → ⊥
      clash p q = cc

-- A cleanup that is not skipped, as the last one was at least a minute ago, and meets no error
-- leaves at most as many as the limit of the stored batches of a kind: of the batches, or of the
-- single jobs, that have succeeded, or that have not, and were completed more than an hour ago.
-- The sort is a permutation.
pub cleanup_limit :
    (sort : List RadixBatch → List RadixBatch) (answers : CleanupAnswers) (limit now : ℕ)
    (s : SchedulerState) (k : Kind)
    → Permᴰ (sort s.batches) s.batches
    → ltb now (s.last_cleanup_time + 60) ≡ false
    → (cleanup sort answers limit now s).1 ≡ []
    → length (
        find_all
          (λ x.
            is_of_kind now k x
            && any (λ b. b.name == x.name) (cleanup sort answers limit now s).0.batches)
          s.batches)
      ≤ limit
unfolding names_of_kind
cleanup_limit sort answers limit now s k permutes late fine =
    let left =
      λ (n : String). any (λ b. b.name == n) (cleanup sort answers limit now s).0.batches in
    let kept = find_all (is_of_kind now k) (sort s.batches) in
    let names = names_of_kind now k (sort s.batches) in
    let bound =
      length-find_all_drop left (length names - limit) names (omega arith)
        (gone_names sort answers limit now s k late fine) in
    let of_names = length-find_all-map (λ (x : RadixBatch). x.name) left kept in
    let both =
      ap length (find_all-find_all (is_of_kind now k) (λ x. left x.name) (sort s.batches)) in
    let stored = length-find_all_perm (λ x. is_of_kind now k x && left x.name) permutes in
    omega arith
