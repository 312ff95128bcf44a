-- ===== src/PipelineJob/Targets/Conflict.antt =====
-- The relation of two jobs that share an environment.
use radix_operator.Prelude.{
  String, true, false, ◌≡◌, refl, ◌∙◌, List, [], ◌∷◌, ◌==◌, beq_comm, any_iff, any_of_mem,
  any-false, eq_iff, arith,
}
use radix_operator.PipelineJob.Targets.{has_key, no_targets, has_conflicting_target_environments}

conflict_sym :
    (xs ys : List String)
    → has_conflicting_target_environments xs ys ≡ true
    → has_conflicting_target_environments ys xs ≡ true
unfolding has_conflicting_target_environments
conflict_sym xs ys h =
    let (e, in_xs, hit) = (any_iff (has_key ys) xs).0 h in
    let (j, in_ys, same) = (any_iff (λ k. k == e) ys).0 hit in
    any_of_mem (has_key xs) ys in_ys (any_of_mem (λ k. k == j) xs in_xs (beq_comm e j ∙ same))

-- Sharing an environment is symmetric.
pub conflict_comm :
    (xs ys : List String)
    → has_conflicting_target_environments xs ys ≡ has_conflicting_target_environments ys xs
conflict_comm xs ys = ground (arith, conflict_sym xs ys, conflict_sym ys xs)

pub conflict_no_targets :
    (xs ys : List String) → no_targets xs ≡ true → has_conflicting_target_environments xs ys ≡ false
unfolding has_conflicting_target_environments
conflict_no_targets [] ys h = refl
conflict_no_targets (x ∷ xs) ys h = cc

-- Without a conflict no environment is a target of both.
pub apart_of_no_conflict :
    (xs ys : List String) (e : String)
    → has_conflicting_target_environments xs ys ≡ false
    → has_key xs e ≡ true
    → has_key ys e ≡ false
unfolding has_conflicting_target_environments
apart_of_no_conflict xs ys e h has =
    let (j, m, same) = (any_iff (λ k. k == e) xs).0 has in
    let miss : has_key ys j ≡ false = any-false (has_key ys) xs h m in
    rw ((eq_iff j e).0 same) at miss
