-- ===== src/Deployment/Components/KeyVaults/Counts.antt =====
-- How often a variable stands in the key vaults that the operations of the merge give.
use radix_operator.Prelude.{
  ℕ, suc, ◌+◌, String, true, false, Option, none, some, List, [], ◌∷◌, ◌++◌, map, ◌≡◌, refl, ap,
  ◌∙◌, inl, inr, ◌==◌, eq_iff, find_all, arith, Bool-cases, if◌then◌else◌, Bool, any, any-false,
  mem-map, Memᴰ, Distinct, sym,
}
use mathlib.Core.List.{append-nil, append_assoc}
use radix_operator.Webhook.KeyVaults.{KeyVaultItem, AzureKeyVault, contains}
use radix_operator.Webhook.KeyVaults.References.{vault_variables}
use radix_operator.Deployment.Components.KeyVaults.{
  find_vault, set_vault, set_env_vaults, items_not_existing, has_items, compose, add_common_vaults,
}

unfoldable pub occurrences : String → List String → ℕ
occurrences n [] = 0
occurrences n (x ∷ xs) = if x == n then suc (occurrences n xs) else occurrences n xs

abbrev item_variables : AzureKeyVault → List String
item_variables v = map (λ i. i.env_var) v.items

-- A vault of a new name comes last in the map.
set_vault-new :
    (v : AzureKeyVault) (vaults : List AzureKeyVault)
    → any (λ u. u.name == v.name) vaults ≡ false
    → set_vault v.name v vaults ≡ vaults ++ v ∷ []
unfolding set_vault
set_vault-new v [] new = refl
set_vault-new v (w ∷ vaults) new = elim (Bool-cases (w.name == v.name)) [
  | inl same ↦ absurd (never (rw same at new))
  | inr other ↦
      rw other (ap (λ (us : List AzureKeyVault). w ∷ us) (set_vault-new v vaults (rw other at new)))
]
  where
    never : true ≡ false → ⊥
    never q = cc

any-snoc {ℓ} :
    {A : Type ℓ} (p : A → Bool) (xs : List A) (x : A)
    → any p xs ≡ false
    → p x ≡ false
    → any p (xs ++ x ∷ []) ≡ false
any-snoc p [] x h e = rw e refl
any-snoc p (y ∷ xs) x h e = elim (Bool-cases (p y)) [
  | inl hit ↦ absurd (never (rw hit at h))
  | inr miss ↦ rw miss (any-snoc p xs x (rw miss at h) e)
]
  where
    never : true ≡ false → ⊥
    never q = cc

-- The vaults of an environment, with distinct names, that are put into the map.
set_env_vaults-append :
    (vs vaults : List AzureKeyVault)
    → Distinct (map (λ v. v.name) vs)
    → ((w : AzureKeyVault) → Memᴰ w vs → any (λ u. u.name == w.name) vaults ≡ false)
    → set_env_vaults vs vaults ≡ vaults ++ vs
unfolding set_env_vaults
set_env_vaults-append [] vaults distinct new = sym (append-nil vaults)
set_env_vaults-append (v ∷ vs) vaults distinct new =
    ap (set_env_vaults vs) (set_vault-new v vaults (new v (Memᴰ.head refl)))
    ∙ set_env_vaults-append vs (vaults ++ v ∷ []) distinct.1 (λ w m.
      any-snoc (λ u. u.name == w.name) vaults v (new w (Memᴰ.tail m))
        (any-false (λ y. v.name == y) (map (λ v. v.name) vs) distinct.0
          (mem-map (λ v. v.name) vs m)))
    ∙ append_assoc vaults (v ∷ []) vs

pub set_env_vaults-all :
    (vs : List AzureKeyVault) → Distinct (map (λ v. v.name) vs) → set_env_vaults vs [] ≡ vs
set_env_vaults-all vs distinct = set_env_vaults-append vs [] distinct (λ w m. refl)

module _ (n : String) where
  pub occurrences-append :
      (xs ys : List String) → occurrences n (xs ++ ys) ≡ occurrences n xs + occurrences n ys
  unfolding occurrences
  occurrences-append [] ys = omega arith
  occurrences-append (x ∷ xs) ys =
      let ih = occurrences-append xs ys in
      elim (Bool-cases (x == n)) [ inl e ↦ rw e (omega arith) | inr e ↦ rw e ih ]

  pub absent : (xs : List String) → contains xs n ≡ false → occurrences n xs ≡ 0
  unfolding occurrences
  absent [] h = refl
  absent (x ∷ xs) h = elim (Bool-cases (x == n)) [
    | inl e ↦ absurd (never (rw e at h))
    | inr e ↦ rw e (absent xs (rw e at h))
  ]
    where
      never : true ≡ false → ⊥
      never q = cc

  occurrences-items_not_existing :
      (existing : List String) (items : List KeyVaultItem)
      → occurrences n (map (λ i. i.env_var) (items_not_existing existing items))
        ≡ (if contains existing n then 0 else occurrences n (map (λ i. i.env_var) items))
  unfolding items_not_existing occurrences
  occurrences-items_not_existing existing [] = elim (Bool-cases (contains existing n)) [
    | inl e ↦ rw e refl
    | inr e ↦ rw e refl
  ]
  occurrences-items_not_existing existing (i ∷ items) =
      let ih = occurrences-items_not_existing existing items in
      elim (Bool-cases (i.env_var == n)) [
        | inl e ↦
            let same : i.env_var ≡ n = (eq_iff i.env_var n).0 e in
            elim (Bool-cases (contains existing n)) [
              | inl old ↦ rw (ap (contains existing) same ∙ old) (rw old (rw old at ih))
              | inr fresh ↦
                  rw (ap (contains existing) same ∙ fresh) (rw (fresh, e) (ap suc (rw fresh at ih)))
            ]
        | inr e ↦ elim (Bool-cases (contains existing i.env_var)) [
          | inl old ↦ rw (old, e) ih
          | inr fresh ↦ rw (fresh, e) ih
        ]
      ]

  map_env_var-append :
      (xs ys : List KeyVaultItem)
      → map (λ i. i.env_var) (xs ++ ys) ≡ map (λ i. i.env_var) xs ++ map (λ i. i.env_var) ys
  map_env_var-append [] ys = refl
  map_env_var-append (x ∷ xs) ys =
      ap (λ (zs : List String). x.env_var ∷ zs) (map_env_var-append xs ys)

  abbrev own_items : Option AzureKeyVault → ℕ
  own_items none = 0
  own_items (some v) = occurrences n (item_variables v)

  module _ (common : AzureKeyVault) (items : List KeyVaultItem) where
    abbrev new_items : ℕ
    new_items = occurrences n (map (λ i. i.env_var) items)

    occurrences-compose :
        (found : Option AzureKeyVault)
        → occurrences n (item_variables (compose found common items)) ≡ own_items found + new_items
    unfolding compose
    occurrences-compose none = omega arith
    occurrences-compose (some e) =
        ap (occurrences n) (map_env_var-append e.items items)
        ∙ occurrences-append (item_variables e) (map (λ i. i.env_var) items)

    -- The key vault of the map grows by the items, or the key vault is new with them.
    occurrences-set_found :
        (found : Option AzureKeyVault) (vaults : List AzureKeyVault)
        → find_vault common.name vaults ≡ found
        → occurrences n
            (vault_variables (set_vault common.name (compose found common items) vaults))
          ≡ occurrences n (vault_variables vaults) + new_items
    unfolding find_vault set_vault occurrences
    occurrences-set_found found [] h =
        let a = occurrences-append (item_variables (compose found common items)) [] in
        let b = occurrences-compose found in let c = ap own_items h in omega arith
    occurrences-set_found found (w ∷ vaults) h =
        let b = occurrences-append (item_variables w) (vault_variables vaults) in
        elim (Bool-cases (w.name == common.name)) [
          | inl e ↦ rw e (
              let a =
                occurrences-append (item_variables (compose found common items))
                  (vault_variables vaults) in
              let c = occurrences-compose found in let d = ap own_items (rw e at h) in omega arith)
          | inr e ↦ rw e (
              let ih = occurrences-set_found found vaults (rw e at h) in
              let a =
                occurrences-append (item_variables w)
                  (vault_variables (set_vault common.name (compose found common items) vaults)) in
              omega arith)
        ]

  -- What the loop over the key vaults of the component adds.
  abbrev pub added : List String → List AzureKeyVault → ℕ
  added existing cs = if contains existing n then 0 else occurrences n (vault_variables cs)

  no_items :
      (items : List KeyVaultItem) (v : AzureKeyVault)
      → has_items (record v { items = items }) ≡ false
      → occurrences n (map (λ i. i.env_var) items) ≡ 0
  unfolding occurrences
  no_items [] v h = refl
  no_items (i ∷ is) v h = absurd (never h)
    where
      never : true ≡ false → ⊥
      never q = cc

  pub occurrences-add_common_vaults :
      (existing : List String) (cs vaults : List AzureKeyVault)
      → occurrences n (vault_variables (add_common_vaults existing cs vaults))
        ≡ occurrences n (vault_variables vaults) + added existing cs
  unfolding add_common_vaults occurrences
  occurrences-add_common_vaults existing [] vaults = elim (Bool-cases (contains existing n)) [
    | inl old ↦ rw old (omega arith)
    | inr fresh ↦ rw fresh (omega arith)
  ]
  occurrences-add_common_vaults existing (common ∷ cs) vaults =
      let items = items_not_existing existing common.items in
      let next =
        set_vault common.name (compose (find_vault common.name vaults) common items) vaults in
      let a = occurrences-append (item_variables common) (vault_variables cs) in
      elim (Bool-cases (has_items common)) [
        | inl full ↦ rw full (
            let ih = occurrences-add_common_vaults existing cs next in
            let one =
              occurrences-set_found common items (find_vault common.name vaults) vaults refl in
            let new = occurrences-items_not_existing existing common.items in
            elim (Bool-cases (contains existing n)) [
              | inl old ↦ rw old (let i2 = rw old at ih in let n2 = rw old at new in omega arith)
              | inr fresh ↦
                  rw fresh (let i2 = rw fresh at ih in let n2 = rw fresh at new in omega arith)
            ])
        | inr blank ↦ rw blank (
            let ih = occurrences-add_common_vaults existing cs vaults in
            let none_here = no_items common.items common blank in
            elim (Bool-cases (contains existing n)) [
              | inl old ↦ rw old (rw old at ih)
              | inr fresh ↦ rw fresh (let i2 = rw fresh at ih in omega arith)
            ])
      ]

  pub occurrences-has_items :
      (vaults : List AzureKeyVault)
      → occurrences n (vault_variables (find_all has_items vaults))
        ≡ occurrences n (vault_variables vaults)
  occurrences-has_items [] = refl
  occurrences-has_items (v ∷ vaults) =
      let ih = occurrences-has_items vaults in
      let a = occurrences-append (item_variables v) (vault_variables vaults) in
      elim (Bool-cases (has_items v)) [
        | inl full ↦ rw full (
            let b =
              occurrences-append (item_variables v) (vault_variables (find_all has_items vaults)) in
            omega arith)
        | inr blank ↦ rw blank (let b = no_items v.items v blank in omega arith)
      ]
