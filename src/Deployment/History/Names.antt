-- ===== src/Deployment/History/Names.antt =====
-- The names of the stored deployments, and the deletion of one by its name.
use radix_operator.Prelude.{
  suc, ◌≤◌, String, true, false, not, ◌≡◌, refl, sym, All-intro, List, [], ◌∷◌, Memᴰ, inl, inr,
  ◌==◌, eq_iff, All, All_of_mem, length, find_all, mem_find_all, arith, Bool-cases,
}
use radix_operator.Deployment.Types.{RadixDeployment}
use radix_operator.Deployment.History.{delete_stored}

-- The API server stores one deployment under a name.
unfoldable pub DistinctNames : List RadixDeployment → Type 0
DistinctNames [] = Unit
DistinctNames (rd ∷ rds) = All (λ k. (k.name == rd.name) ≡ false) rds × DistinctNames rds

pub same_name :
    (xs : List RadixDeployment) {a b : RadixDeployment}
    → DistinctNames xs
    → Memᴰ a xs
    → Memᴰ b xs
    → (b.name == a.name) ≡ true
    → a ≡ b
unfolding DistinctNames
same_name [] d p q e = elim p [ ]
same_name (x ∷ xs) d (Memᴰ.head a_x) (Memᴰ.head b_x) e = cc
same_name (x ∷ xs) {a} {b} d (Memᴰ.head a_x) (Memᴰ.tail q) e =
    let other : (b.name == x.name) ≡ false =
      All_of_mem (λ k. (k.name == x.name) ≡ false) xs d.0 q in
    let same : (b.name == x.name) ≡ true = rw a_x at e in absurd (ground arith)
same_name (x ∷ xs) {a} {b} d (Memᴰ.tail p) (Memᴰ.head b_x) e =
    let other : (a.name == x.name) ≡ false =
      All_of_mem (λ k. (k.name == x.name) ≡ false) xs d.0 p in
    let same : (x.name == a.name) ≡ true = rw b_x at e in
    let turned : a.name ≡ x.name = sym ((eq_iff x.name a.name).0 same) in
    let back : (a.name == x.name) ≡ true = (eq_iff a.name x.name).1 turned in absurd (ground arith)
same_name (x ∷ xs) d (Memᴰ.tail p) (Memᴰ.tail q) e = same_name xs d.1 p q e

pub delete_stored-DistinctNames :
    (name : String) (xs : List RadixDeployment)
    → DistinctNames xs
    → DistinctNames (delete_stored name xs)
unfolding DistinctNames delete_stored
delete_stored-DistinctNames name [] d = tt
delete_stored-DistinctNames name (x ∷ xs) d =
    let ih : DistinctNames (find_all (λ k. not (k.name == name)) xs) =
      delete_stored-DistinctNames name xs d.1 in
    elim (Bool-cases (x.name == name)) [
      | inl same ↦ rw same ih
      | inr other ↦ rw other (
        All-intro (λ k. (k.name == x.name) ≡ false) (find_all (λ k. not (k.name == name)) xs)
            (λ k m.
              All_of_mem (λ k. (k.name == x.name) ≡ false) xs d.0
                (mem_find_all (λ k. not (k.name == name)) xs m).0),
        ih,
      )
    ]

delete_stored-absent :
    (name : String) (xs : List RadixDeployment)
    → All (λ k. (k.name == name) ≡ false) xs
    → delete_stored name xs ≡ xs
unfolding delete_stored
delete_stored-absent name [] h = refl
delete_stored-absent name (x ∷ xs) h =
    let ih : find_all (λ k. not (k.name == name)) xs ≡ xs = delete_stored-absent name xs h.1 in
    rw (h.0, ih) refl

-- A deletion takes at most one deployment away.
pub length-delete_stored :
    (name : String) (xs : List RadixDeployment)
    → DistinctNames xs
    → length xs ≤ suc (length (delete_stored name xs))
unfolding DistinctNames delete_stored
length-delete_stored name [] d = omega arith
length-delete_stored name (x ∷ xs) d = elim (Bool-cases (x.name == name)) [
  | inl same ↦
      let e : x.name ≡ name = (eq_iff x.name name).0 same in
      let rest : find_all (λ k. not (k.name == name)) xs ≡ xs =
        delete_stored-absent name xs (rw e at d.0) in
      rw (same, rest) (omega arith)
  | inr other ↦
      let ih : length xs ≤ suc (length (find_all (λ k. not (k.name == name)) xs)) =
        length-delete_stored name xs d.1 in
      rw other (omega arith)
]
