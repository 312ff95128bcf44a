-- ===== src/Deployment/Components/Variables.antt =====
-- Which value a variable of a deployed component has.
use radix_operator.Prelude.{
  String, Bool, true, false, Option, none, some, [], ◌∷◌, map, ◌≡◌, refl, sym, ap, ◌∙◌, ◌==◌,
  eq_iff, beq_refl, beq_comm, any, some?, Distinct, arith, Bool-cases, inl, inr, if◌then◌else◌,
}
use radix_operator.Deployment.Components.Types.{EnvVarsMap, EnvironmentConfig, RadixComponent}
use radix_operator.Deployment.Components.Settings.{
  or_own, lookup_variable, set_variable, add_missing, copy_variables, own_variables,
  get_radix_common_component_env_vars,
}

lookup-set_variable :
    (k j v : String) (m : EnvVarsMap)
    → lookup_variable j (set_variable k v m) ≡ (if k == j then some v else lookup_variable j m)
unfolding lookup_variable set_variable
lookup-set_variable k j v [] = refl
lookup-set_variable k j v ((i, w) ∷ m) =
    ground (arith, eq_iff k j, eq_iff i k, eq_iff i j, lookup-set_variable k j v m)

or_own_step :
    (a : Option String) (t : Bool) (v : String) (c : Option String)
    → or_own (or_own a (if t then some v else none)) c ≡ or_own a (if t then some v else c)
or_own_step (some x) t v c = refl
or_own_step none true v c = refl
or_own_step none false v c = refl

or_own-none : (a : Option String) → or_own a none ≡ a
or_own-none none = refl
or_own-none (some x) = refl

-- One round of the loop over the variables of the component.
add_one :
    (k j v : String) (m : EnvVarsMap)
    → lookup_variable j (if some? (lookup_variable k m) then m else set_variable k v m)
      ≡ or_own (lookup_variable j m) (if k == j then some v else none)
add_one k j v m = elim (Bool-cases (k == j)) [
  | inl e ↦
      let same : j ≡ k = sym ((eq_iff k j).0 e) in
      rw e (rw same (at_key (lookup_variable k m) refl))
  | inr e ↦ rw e (elim (Bool-cases (some? (lookup_variable k m))) [
    | inl there ↦ rw there (sym (or_own-none (lookup_variable j m)))
    | inr missing ↦
        rw missing (lookup-set_variable k j v m ∙ rw e (sym (or_own-none (lookup_variable j m))))
  ])
]
  where
    at_key :
        (o : Option String)
        → lookup_variable k m ≡ o
        → lookup_variable k (if some? o then m else set_variable k v m) ≡ or_own o (some v)
    at_key (some x) q = q
    at_key none q = lookup-set_variable k k v m ∙ rw (beq_refl k) refl

lookup-add_missing :
    (j : String) (common m : EnvVarsMap)
    → lookup_variable j (add_missing common m)
      ≡ or_own (lookup_variable j m) (lookup_variable j common)
unfolding add_missing
lookup-add_missing j [] m = sym (or_own-none (lookup_variable j m))
lookup-add_missing j ((k, v) ∷ common) m =
    lookup-add_missing j common (if some? (lookup_variable k m) then m else set_variable k v m)
    ∙ ap (λ (o : Option String). or_own o (lookup_variable j common)) (add_one k j v m)
    ∙ unfold lookup_variable in
      or_own_step (lookup_variable j m) (k == j) v (lookup_variable j common)

absent :
    (k j : String) (m : EnvVarsMap)
    → (k == j) ≡ true
    → any (λ y. k == y) (map (λ (n, _). n) m) ≡ false
    → lookup_variable j m ≡ none
unfolding lookup_variable
absent k j [] e h = refl
absent k j ((i, w) ∷ m) e h =
    let same : k ≡ j = (eq_iff k j).0 e in
    let other : (i == j) ≡ false = beq_comm i j ∙ rw (← same) (ground arith) in
    rw other (absent k j m e (ground arith))

lookup-copy_variables :
    (j : String) (more m : EnvVarsMap)
    → Distinct (map (λ (k, _). k) more)
    → lookup_variable j (copy_variables more m)
      ≡ or_own (lookup_variable j more) (lookup_variable j m)
unfolding copy_variables lookup_variable
lookup-copy_variables j [] m d = refl
lookup-copy_variables j ((k, v) ∷ more) m d =
    lookup-copy_variables j more (set_variable k v m) d.1
    ∙ rw (lookup-set_variable k j v m) (elim (Bool-cases (k == j)) [
      | inl e ↦ rw e (rw (absent k j more e d.0) refl)
      | inr e ↦ rw e refl
    ])

-- A variable of a deployed component has the value that the platform sets by default, else the one of
-- the configuration for the environment, else the one of the component.
pub lookup-get_radix_common_component_env_vars :
    (c : RadixComponent) (config : Option EnvironmentConfig) (default_env_vars : EnvVarsMap)
    (name : String)
    → Distinct (map (λ (k, _). k) default_env_vars)
    → lookup_variable name (get_radix_common_component_env_vars c config default_env_vars)
      ≡ or_own
          (lookup_variable name default_env_vars)
          (or_own (lookup_variable name (own_variables config)) (lookup_variable name c.variables))
unfolding get_radix_common_component_env_vars
lookup-get_radix_common_component_env_vars c config default_env_vars name distinct =
    lookup-copy_variables name default_env_vars (add_missing c.variables (own_variables config))
      distinct
    ∙ ap (or_own (lookup_variable name default_env_vars))
        (lookup-add_missing name c.variables (own_variables config))
