-- ===== src/Deployment/History/Kept.antt =====
-- The deployments that `maintainHistoryLimit` keeps.
use radix_operator.Prelude.{
  ℕ, zero, suc, ◌≤◌, ◌+◌, ◌-◌, String, Bool, true, false, not, ◌≡◌, refl, sym, Option, none, some,
  List, [], ◌∷◌, Memᴰ, ◌⊎◌, inl, inr, ◌==◌, any, length, take, find_all_of_mem, arith, Bool-cases,
  leb, nat_beq,
}
use radix_operator.Deployment.Types.{RadixDeployment, is_active}
use radix_operator.Deployment.History.{
  delete_stored, delete_old_one, delete_old, delete_beyond, maintain_history_limit,
}
use radix_operator.Deployment.History.Names.{
  DistinctNames, same_name, delete_stored-DistinctNames, length-delete_stored,
}

length-take : (n : ℕ) (xs : List RadixDeployment) → length (take n xs) ≤ n
length-take zero xs = omega arith
length-take (suc n) [] = omega arith
length-take (suc n) (x ∷ xs) = let ih = length-take n xs in omega arith

mem-take :
    (n : ℕ) (xs : List RadixDeployment) {x : RadixDeployment} → Memᴰ x (take n xs) → Memᴰ x xs
mem-take zero xs m = elim m [ ]
mem-take (suc n) [] m = m
mem-take (suc n) (y ∷ xs) (Memᴰ.head e) = Memᴰ.head e
mem-take (suc n) (y ∷ xs) (Memᴰ.tail m) = Memᴰ.tail (mem-take n xs m)

module _ (delete_fails : String → Bool) (referenced : List String) where
  -- The round keeps the names distinct and deletes one deployment at most.
  delete_old_one-DistinctNames :
      (rd : RadixDeployment) (stored : List RadixDeployment)
      → DistinctNames stored
      → DistinctNames (delete_old_one delete_fails referenced rd stored)
        × (length stored ≤ suc (length (delete_old_one delete_fails referenced rd stored)))
  unfolding delete_old_one
  delete_old_one-DistinctNames rd stored d =
      elim (Bool-cases (any (λ name. name == rd.name) referenced)) [
        | inl used ↦ rw used (d, omega arith)
        | inr unused ↦ elim (Bool-cases (is_active rd.status.condition)) [
          | inl on ↦ rw (unused, on) (d, omega arith)
          | inr off ↦ elim (Bool-cases (delete_fails rd.name)) [
            | inl bad ↦ rw (unused, off, bad) (d, omega arith)
            | inr good ↦
                rw (unused, off, good)
                  (
                    delete_stored-DistinctNames rd.name stored d,
                    length-delete_stored rd.name stored d,
                  )
          ]
        ]
      ]

  length-delete_old :
      (rds stored : List RadixDeployment)
      → DistinctNames stored
      → length stored ≤ length (delete_old delete_fails referenced rds stored) + length rds
  unfolding delete_old
  length-delete_old [] stored d = omega arith
  length-delete_old (rd ∷ rds) stored d =
      let (d', one) = delete_old_one-DistinctNames rd stored d in
      let rest = length-delete_old rds (delete_old_one delete_fails referenced rd stored) d' in
      omega arith

  -- What the loop must not delete.
  abbrev pub Protected : RadixDeployment → Type 0
  Protected k =
      (any (λ name. name == k.name) referenced ≡ true) ⊎ (is_active k.status.condition ≡ true)

  not-Protected :
      (k : RadixDeployment)
      → Protected k
      → any (λ name. name == k.name) referenced ≡ false
      → is_active k.status.condition ≡ false
      → ⊥
  not-Protected k (inl a) unused off = ground arith
  not-Protected k (inr a) unused off = ground arith

  mem-delete_old_one :
      (k rd : RadixDeployment) (stored : List RadixDeployment)
      → Memᴰ k stored
      → Protected k
      → ((k.name == rd.name) ≡ true → k ≡ rd)
      → Memᴰ k (delete_old_one delete_fails referenced rd stored)
  unfolding delete_old_one delete_stored
  mem-delete_old_one k rd stored m safe own_name =
      elim (Bool-cases (any (λ name. name == rd.name) referenced)) [
        | inl used ↦ rw used m
        | inr unused ↦ elim (Bool-cases (is_active rd.status.condition)) [
          | inl on ↦ rw (unused, on) m
          | inr off ↦ elim (Bool-cases (delete_fails rd.name)) [
            | inl bad ↦ rw (unused, off, bad) m
            | inr good ↦
                rw (unused, off, good)
                  (find_all_of_mem (λ x. not (x.name == rd.name)) stored m
                    (rw (name_differs unused off) refl))
          ]
        ]
      ]
    where
      name_differs :
          any (λ name. name == rd.name) referenced ≡ false
          → is_active rd.status.condition ≡ false
          → (k.name == rd.name) ≡ false
      name_differs unused off = elim (Bool-cases (k.name == rd.name)) [
        | inl same ↦
            let e : k ≡ rd = own_name same in absurd (not-Protected k safe (rw e unused) (rw e off))
        | inr other ↦ other
      ]

  mem-delete_old :
      (k : RadixDeployment) (rds stored : List RadixDeployment)
      → Memᴰ k stored
      → Protected k
      → ((rd : RadixDeployment) → Memᴰ rd rds → (k.name == rd.name) ≡ true → k ≡ rd)
      → Memᴰ k (delete_old delete_fails referenced rds stored)
  unfolding delete_old
  mem-delete_old k [] stored m safe own_name = m
  mem-delete_old k (rd ∷ rds) stored m safe own_name =
      mem-delete_old k rds (delete_old_one delete_fails referenced rd stored)
        (mem-delete_old_one k rd stored m safe (own_name rd (Memᴰ.head refl))) safe
        (λ x in_rds. own_name x (Memᴰ.tail in_rds))

enough_kept : (limit n kept : ℕ) → n ≤ kept + (n - limit) → leb n limit ≡ false → limit ≤ kept
enough_kept limit n kept h many = ground arith

module _ (delete_fails : String → Bool) (sort : List RadixDeployment → List RadixDeployment) where
  mem-delete_beyond :
      (k : RadixDeployment) (referenced : Option (List String)) (n : ℕ)
      (stored : List RadixDeployment)
      → DistinctNames stored
      → ((x : RadixDeployment) → Memᴰ x (sort stored) → Memᴰ x stored)
      → Memᴰ k stored
      → ((names : List String) → referenced ≡ some names → Protected delete_fails names k)
      → Memᴰ k (delete_beyond delete_fails sort referenced n stored)
  unfolding delete_beyond
  mem-delete_beyond k none n stored d sorted m safe = m
  mem-delete_beyond k (some names) n stored d sorted m safe =
      mem-delete_old delete_fails names k (take n (sort stored)) stored m (safe names refl)
        (λ rd old e. sym (same_name stored d (sorted rd (mem-take n (sort stored) old)) m e))

  length-delete_beyond :
      (referenced : Option (List String)) (n : ℕ) (stored : List RadixDeployment)
      → DistinctNames stored
      → length stored ≤ length (delete_beyond delete_fails sort referenced n stored) + n
  unfolding delete_beyond
  length-delete_beyond none n stored d = omega arith
  length-delete_beyond (some names) n stored d =
      let kept = length-delete_old delete_fails names (take n (sort stored)) stored d in
      let bound = length-take n (sort stored) in omega arith

  -- A deployment that is active, or that the batches of the namespace refer to, is still stored
  -- after `maintainHistoryLimit`, whichever deletions fail and also if the batches cannot be
  -- listed, provided that the stored deployments have distinct names and the sort invents none.
  pub mem-maintain_history_limit :
      (k : RadixDeployment) (referenced : Option (List String)) (limit : ℕ)
      (stored : List RadixDeployment)
      → DistinctNames stored
      → ((x : RadixDeployment) → Memᴰ x (sort stored) → Memᴰ x stored)
      → Memᴰ k stored
      → ((names : List String) → referenced ≡ some names → Protected delete_fails names k)
      → Memᴰ k (maintain_history_limit delete_fails sort referenced limit stored)
  unfolding maintain_history_limit
  mem-maintain_history_limit k referenced limit stored d sorted m safe =
      elim (Bool-cases (nat_beq limit 0)) [
        | inl off ↦ rw off m
        | inr on ↦ elim (Bool-cases (leb (length stored) limit)) [
          | inl few ↦ rw (on, few) m
          | inr many ↦
              rw (on, many)
                (mem-delete_beyond k referenced (length stored - limit) stored d sorted m safe)
        ]
      ]

  -- `maintainHistoryLimit` leaves at least as many deployments as the limit says, if so many are
  -- stored, and all that are stored if they are fewer. The stored ones have distinct names.
  pub length-maintain_history_limit :
      (referenced : Option (List String)) (limit : ℕ) (stored : List RadixDeployment)
      → DistinctNames stored
      → (limit ≤ length (maintain_history_limit delete_fails sort referenced limit stored))
        ⊎ (maintain_history_limit delete_fails sort referenced limit stored ≡ stored)
  unfolding maintain_history_limit
  length-maintain_history_limit referenced limit stored d = elim (Bool-cases (nat_beq limit 0)) [
    | inl off ↦ inr (rw off refl)
    | inr on ↦ elim (Bool-cases (leb (length stored) limit)) [
      | inl few ↦ inr (rw (on, few) refl)
      | inr many ↦
          let kept = length-delete_beyond referenced (length stored - limit) stored d in
          inl (
            rw (on, many)
              (enough_kept limit (length stored)
                (length (delete_beyond delete_fails sort referenced (length stored - limit) stored))
                kept many))
    ]
  ]
