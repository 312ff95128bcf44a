-- ===== src/Webhook/KeyVaults/References.antt =====
-- The references to secrets that are accepted have different paths, variables and aliases.
use radix_operator.Prelude.{
  String, Bool, true, false, not, Option, none, some, List, [], ◌∷◌, ◌++◌, map, ◌≡◌, refl, ap, inl,
  inr, ◌==◌, beq_refl, eq_iff, any, is_empty, find_all, concat_map, Distinct, arith, Bool-cases,
}
use radix_operator.Webhook.KeyVaults.{
  KeyVaultItem, AzureKeyVault, SecretError, contains, or_empty, add_new, check_items,
  check_key_vaults, validate_secret_refs, check_paths, or_else, fail_if, duplicate_env_var_name,
  duplicate_alias, duplicate_path_for_azure_key_vault,
}

-- The names that are not empty.
abbrev pub given : List String → List String
given = find_all (λ n. not (is_empty n))

-- The names are added to those that exist; none of them, but the empty ones, exists already.
data Adds : List String → List String → List String → Type 0 where
  finish : {existing : List String} → Adds existing [] existing
  skip :
      {existing names after : List String} {n : String}
      → is_empty n ≡ true
      → Adds existing names after
      → Adds existing (n ∷ names) after
  new :
      {existing names after : List String} {n : String}
      → is_empty n ≡ false
      → contains existing n ≡ false
      → Adds (n ∷ existing) names after
      → Adds existing (n ∷ names) after

Adds-append :
    {a b c : List String} (xs ys : List String) → Adds a xs b → Adds b ys c → Adds a (xs ++ ys) c
Adds-append [] ys finish k = k
Adds-append (x ∷ xs) ys (skip e h) k = skip e (Adds-append xs ys h k)
Adds-append (x ∷ xs) ys (new e f h) k = new e f (Adds-append xs ys h k)

-- What exists is not among the names that are added.
other_names :
    {existing after : List String} (names : List String) (m : String)
    → Adds existing names after
    → contains existing m ≡ true
    → any (λ y. m == y) (given names) ≡ false
other_names [] m finish h = refl
other_names (n ∷ names) m (skip e a) h = rw e (other_names names m a h)
other_names (n ∷ names) m (new e f a) h =
    let other : (m == n) ≡ false = differ in
    rw e (rw other (other_names names m a (rw h (ground arith))))
  where
    differ : (m == n) ≡ false
    differ = elim (Bool-cases (m == n)) [ inr q ↦ q | inl q ↦ let same = (eq_iff m n).0 q in cc ]

Adds-Distinct :
    {existing after : List String} (names : List String)
    → Adds existing names after
    → Distinct (given names)
Adds-Distinct [] finish = tt
Adds-Distinct (n ∷ names) (skip e a) = rw e (Adds-Distinct names a)
Adds-Distinct (n ∷ names) (new e f a) =
    rw e (other_names names n a (rw (beq_refl n) refl), Adds-Distinct names a)

add_new-none :
    (n : String) (e : SecretError) (existing : List String)
    (rest : List String → Option SecretError)
    → add_new n e existing rest ≡ none
    → (after : List String) × (rest after ≡ none) × Adds existing (n ∷ []) after
unfolding add_new
add_new-none n e existing rest h = elim (Bool-cases (is_empty n)) [
  | inl blank ↦ (existing, rw blank at h, skip blank finish)
  | inr full ↦ elim (Bool-cases (contains existing n)) [
    | inl old ↦ absurd (some_error (rw (full, old) at h))
    | inr fresh ↦ (n ∷ existing, rw (full, fresh) at h, new full fresh finish)
  ]
]
  where
    some_error : some e ≡ none → ⊥
    some_error q = cc

check_items-none :
    (items : List KeyVaultItem) (variables aliases : List String)
    (rest : List String → List String → Option SecretError)
    → check_items items variables aliases rest ≡ none
    → (vs : List String) × (as' : List String) × (rest vs as' ≡ none)
      × Adds variables (map (λ i. i.env_var) items) vs
      × Adds aliases (map (λ i. or_empty i.alias) items) as'
unfolding check_items
check_items-none [] variables aliases rest h = (variables, aliases, h, finish, finish)
check_items-none (item ∷ items) variables aliases rest h =
    let (v1, h1, av) =
      add_new-none item.env_var duplicate_env_var_name variables
        (λ vs.
          add_new (or_empty item.alias) duplicate_alias aliases
            λ as'. check_items items vs as' rest)
        h in
    let (a1, h2, aa) =
      add_new-none (or_empty item.alias) duplicate_alias aliases
        (λ as'. check_items items v1 as' rest) h1 in
    let (vs, as', h3, bv, ba) = check_items-none items v1 a1 rest h2 in
    (
      vs,
      as',
      h3,
      Adds-append (item.env_var ∷ []) (map (λ i. i.env_var) items) av bv,
      Adds-append (or_empty item.alias ∷ []) (map (λ i. or_empty i.alias) items) aa ba,
    )

abbrev pub vault_variables : List AzureKeyVault → List String
vault_variables = concat_map (λ v. map (λ i. i.env_var) v.items)

abbrev pub vault_aliases : List AzureKeyVault → List String
vault_aliases = concat_map (λ v. map (λ i. or_empty i.alias) v.items)

abbrev pub vault_paths : List AzureKeyVault → List String
vault_paths = map (λ v. or_empty v.path)

check_key_vaults-none :
    (vaults : List AzureKeyVault) (variables aliases paths : List String)
    → check_key_vaults vaults variables aliases paths ≡ none
    → ((vs : List String) × Adds variables (vault_variables vaults) vs)
      × ((as' : List String) × Adds aliases (vault_aliases vaults) as')
      × ((ps : List String) × Adds paths (vault_paths vaults) ps)
unfolding check_key_vaults
check_key_vaults-none [] variables aliases paths h =
    ((variables, finish), (aliases, finish), (paths, finish))
check_key_vaults-none (vault ∷ vaults) variables aliases paths h =
    let (p1, h1, ap) =
      add_new-none (or_empty vault.path) duplicate_path_for_azure_key_vault paths
        (λ ps.
          check_items vault.items variables aliases λ vs as'. check_key_vaults vaults vs as' ps)
        h in
    let (v1, a1, h2, av, aa) =
      check_items-none vault.items variables aliases (λ vs as'. check_key_vaults vaults vs as' p1)
        h1 in
    let ((vs, bv), (as', ba), (ps, bp)) = check_key_vaults-none vaults v1 a1 p1 h2 in
    (
      (vs, Adds-append (map (λ i. i.env_var) vault.items) (vault_variables vaults) av bv),
      (as', Adds-append (map (λ i. or_empty i.alias) vault.items) (vault_aliases vaults) aa ba),
      (ps, Adds-append (or_empty vault.path ∷ []) (vault_paths vaults) ap bp),
    )

-- No variable, alias or path, but the empty ones, stands twice in the key vaults.
abbrev pub HasDistinctRefs : List AzureKeyVault → Type 0
HasDistinctRefs vaults =
    Distinct (given (vault_variables vaults))
    × Distinct (given (vault_aliases vaults))
    × Distinct (given (vault_paths vaults))

pub validate_secret_refs-Distinct :
    (vaults : List AzureKeyVault) → validate_secret_refs vaults ≡ none → HasDistinctRefs vaults
unfolding validate_secret_refs
validate_secret_refs-Distinct vaults h =
    let ((vs, v), (as', a), (ps, p)) = check_key_vaults-none vaults [] [] [] h in
    (
      Adds-Distinct (vault_variables vaults) v,
      Adds-Distinct (vault_aliases vaults) a,
      Adds-Distinct (vault_paths vaults) p,
    )

-- The values of a map that `check_paths` accepts are distinct, and none of them exists already.
pub check_paths-Distinct :
    (paths : List (String × String)) (existing : List String)
    → check_paths paths existing ≡ none
    → Distinct (map (λ (_, path). path) paths)
      × ((path : String)
          → contains existing path ≡ true
          → any (λ y. path == y) (map (λ (_, p). p) paths) ≡ false)
unfolding check_paths
check_paths-Distinct [] existing h = (tt, λ path m. refl)
check_paths-Distinct ((name, path) ∷ paths) existing h =
    let (fresh, h1) = fail_or_rest (contains existing path) h in
    let (distinct, others) = check_paths-Distinct paths (path ∷ existing) h1 in
    (
      (others path (rw (beq_refl path) refl), distinct),
      λ p old.
          let differs : (p == path) ≡ false = differ p fresh old in
          rw differs (others p (rw old (ground arith))),
    )
  where
    fail_or_rest :
        (b : Bool) {rest : Option SecretError}
        → or_else (fail_if b duplicate_path_for_azure_key_vault) rest ≡ none
        → (b ≡ false) × (rest ≡ none)
    fail_or_rest true q = absurd (some_error q)
      where
        some_error : some duplicate_path_for_azure_key_vault ≡ none → ⊥
        some_error e = cc
    fail_or_rest false q = (refl, q)

    differ :
        (p : String)
        → contains existing path ≡ false
        → contains existing p ≡ true
        → (p == path) ≡ false
    differ p fresh old = elim (Bool-cases (p == path)) [
      | inr q ↦ q
      | inl q ↦ let same = (eq_iff p path).0 q in cc
    ]
