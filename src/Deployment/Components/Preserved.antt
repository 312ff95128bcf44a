-- ===== src/Deployment/Components/Preserved.antt =====
-- Which components a new deployment has, and which of them are those of the active deployment.
use radix_operator.Prelude.{
  String, Bool, true, false, Option, none, some, List, [], ◌∷◌, map, ◌≡◌, refl, sym, subst, ap, ap₂,
  ◌∙◌, ◌==◌, eq_iff, some?, find_all, Memᴰ, Bool-cases, inl, inr, if◌then◌else◌,
}
use radix_operator.Deployment.Components.Types.{
  EnvironmentConfig, RadixComponent, RadixDeployComponent, Built, built, error, ◌>>=◌,
}
use radix_operator.Deployment.Components.Assembly.{
  Build, build_component, find_preserved, preserved_or, deploy_component, prepend,
  deploy_components, get_radix_components_for_env, assemble, unless_merge_failed,
}
use radix_operator.Deployment.Components.Settings.{
  get_environment_specific_config_for_component, get_enabled, get_image_path,
  get_radix_component_port,
}

-- What is built has the name.
abbrev HasName : String → Built RadixDeployComponent → Type 0
HasName name (built d) = d.name ≡ name
HasName name (error e) = Unit

find_preserved-name :
    (name : String) (cs : List RadixDeployComponent) {d : RadixDeployComponent}
    → find_preserved name cs ≡ some d
    → d.name ≡ name
unfolding find_preserved
find_preserved-name name [] h = cc
find_preserved-name name (c ∷ cs) {d} h =
    go (find_preserved name cs) h (find_preserved-name name cs)
  where
    go :
        (later : Option RadixDeployComponent)
        → (if some? later then later else if c.name == name then some c else none) ≡ some d
        → (later ≡ some d → d.name ≡ name)
        → d.name ≡ name
    go (some x) q ih = ih q
    go none q ih = elim (Bool-cases (c.name == name)) [
      | inl e ↦
          let same : some c ≡ some d = rw e at q in
          let eq : c ≡ d = cc in rw (← eq) ((eq_iff c.name name).0 e)
      | inr e ↦ absurd (nothing (rw e at q))
    ]
      where
        nothing : none ≡ some d → ⊥
        nothing z = cc

HasName->>= {ℓ} :
    {A : Type ℓ} (name : String) (m : Built A) (f : A → Built RadixDeployComponent)
    → ((a : A) → HasName name (f a))
    → HasName name (m >>= f)
HasName->>= name (built a) f h = h a
HasName->>= name (error e) f h = tt

HasName-unless :
    (name : String) (o : Option String) (r : Built RadixDeployComponent)
    → HasName name r
    → HasName name (unless_merge_failed o r)
HasName-unless name none r h = h
HasName-unless name (some e) r h = tt

-- A built component has the name of the component of the application.
build_component-name :
    (b : Build) (c : RadixComponent) (config : Option EnvironmentConfig)
    → HasName c.name (build_component b c config)
unfolding build_component
build_component-name b c config = HasName-unless c.name (b.merge_error c config) _ (
    HasName->>= c.name
      (get_image_path b.replace_tag c.name (b.image_of c.name) c.image_tag_name config) _
      λ image. HasName->>= c.name (get_radix_component_port c) _ λ port.
        HasName-unless c.name (b.volume_mounts_error c config)
          (built (assemble b c config image port)) (unfold assemble in refl))

preserved_or-name :
    (name : String) (o : Option RadixDeployComponent) (r : Built RadixDeployComponent)
    → ((d : RadixDeployComponent) → o ≡ some d → d.name ≡ name)
    → HasName name r
    → HasName name (preserved_or o r)
preserved_or-name name none r same h = h
preserved_or-name name (some d) r same h = same d refl

deploy_component-name :
    (b : Build) (c : RadixComponent) (config : Option EnvironmentConfig)
    → HasName c.name (deploy_component b c config)
unfolding deploy_component
deploy_component-name b c config =
    preserved_or-name c.name (find_preserved c.name b.preserved) (build_component b c config)
      (λ d e. find_preserved-name c.name b.preserved e) (build_component-name b c config)

deploy_component-preserved :
    (b : Build) (c : RadixComponent) (config : Option EnvironmentConfig) {d : RadixDeployComponent}
    → find_preserved c.name b.preserved ≡ some d
    → deploy_component b c config ≡ built d
unfolding deploy_component
deploy_component-preserved b c config e = ap (λ o. preserved_or o (build_component b c config)) e

-- Whether the component is deployed to the environment.
abbrev pub is_deployed : Build → RadixComponent → Bool
is_deployed b c = get_enabled c (get_environment_specific_config_for_component c b.env)

-- The components that a deployment gets, in their order, if it is built.
abbrev Deploys : Build → List RadixComponent → Built (List RadixDeployComponent) → Type 0
Deploys b cs (error e) = Unit
Deploys b cs (built ds) =
    (map (λ d. d.name) ds ≡ map (λ c. c.name) (find_all (is_deployed b) cs))
    × ((c : RadixComponent) (d : RadixDeployComponent)
        → Memᴰ c cs
        → is_deployed b c ≡ true
        → find_preserved c.name b.preserved ≡ some d
        → Memᴰ d ds)

module _ (b : Build) (c : RadixComponent) (cs : List RadixComponent) where
  skip_component :
      (r : Built (List RadixDeployComponent))
      → is_deployed b c ≡ false
      → Deploys b cs r
      → Deploys b (c ∷ cs) r
  skip_component (error e) off h = tt
  skip_component (built ds) off (names, kept) = (rw off names, λ c' d m on p. go c' d m on p)
    where
      go :
          (c' : RadixComponent) (d : RadixDeployComponent)
          → Memᴰ c' (c ∷ cs)
          → is_deployed b c' ≡ true
          → find_preserved c'.name b.preserved ≡ some d
          → Memᴰ d ds
      go c' d (Memᴰ.head e) on p = absurd (clash (sym (ap (is_deployed b) e) ∙ on) off)
        where
          clash : is_deployed b c ≡ true → is_deployed b c ≡ false → ⊥
          clash x y = cc
      go c' d (Memᴰ.tail m) on p = kept c' d m on p

  add_component :
      (this : Built RadixDeployComponent) (r : Built (List RadixDeployComponent))
      → is_deployed b c ≡ true
      → HasName c.name this
      → ((d : RadixDeployComponent) → find_preserved c.name b.preserved ≡ some d → this ≡ built d)
      → Deploys b cs r
      → Deploys b (c ∷ cs) (this >>= λ d. prepend d r)
  add_component (error e) r on name same h = tt
  add_component (built x) (error e) on name same h = tt
  add_component (built x) (built ds) on name same (names, kept) =
      (rw on (ap₂ (λ (n : String) (ns : List String). n ∷ ns) name names), go)
    where
      go :
          (c' : RadixComponent) (d : RadixDeployComponent)
          → Memᴰ c' (c ∷ cs)
          → is_deployed b c' ≡ true
          → find_preserved c'.name b.preserved ≡ some d
          → Memᴰ d (x ∷ ds)
      go c' d (Memᴰ.head e) on' p =
          let eq : built x ≡ built d =
            same d (sym (ap (λ (k : RadixComponent). find_preserved k.name b.preserved) e) ∙ p) in
          Memᴰ.head (cc)
      go c' d (Memᴰ.tail m) on' p = Memᴰ.tail (kept c' d m on' p)

deploy_components-Deploys :
    (b : Build) (cs : List RadixComponent) → Deploys b cs (deploy_components b cs)
unfolding deploy_components
deploy_components-Deploys b [] = (refl, λ c d m on p. elim m [ ])
deploy_components-Deploys b (c ∷ cs) =
    let ih = deploy_components-Deploys b cs in
    let config = get_environment_specific_config_for_component c b.env in
    elim (Bool-cases (is_deployed b c)) [
      | inl on ↦ rw on (
          add_component b c cs (deploy_component b c config) (deploy_components b cs) on
            (deploy_component-name b c config) (λ d e. deploy_component-preserved b c config e) ih)
      | inr off ↦ rw off (skip_component b c cs (deploy_components b cs) off ih)
    ]

-- If the components of a new deployment can be built, they are those of the application that are
-- enabled in its environment, in their order, and each of them that is to be preserved is the one
-- to preserve, unchanged.
pub get_radix_components_for_env-Deploys :
    (b : Build) (ds : List RadixDeployComponent)
    → get_radix_components_for_env b ≡ built ds
    → (map (λ d. d.name) ds ≡ map (λ c. c.name) (find_all (is_deployed b) b.application.components))
      × ((c : RadixComponent) (d : RadixDeployComponent)
          → Memᴰ c b.application.components
          → is_deployed b c ≡ true
          → find_preserved c.name b.preserved ≡ some d
          → Memᴰ d ds)
unfolding get_radix_components_for_env
get_radix_components_for_env-Deploys b ds h =
    subst (Deploys b b.application.components) h
      (deploy_components-Deploys b b.application.components)
