-- ===== src/Environment/Sync/Status.antt =====
-- What the syncs of an environment record of the time at which it became orphaned. The history of
-- an environment is the list of its syncs, the last one first.
use radix_operator.Prelude.{
  ℕ, String, Bool, true, false, not, ◌&&◌, Option, none, some, List, [], ◌∷◌, ◌++◌, ◌≡◌, refl, sym,
  ap, ◌∙◌, ◌⊎◌, inl, inr, All, Option-cases,
}
use radix_operator.Environment.Sync.{
  RadixEnvironment, Calls, EnvironmentError, HandlerAnswers, ObjectAnswer, object_found,
  object_not_found, object_failed, application_of, exists_in_app_config, orphaned_since,
  change_status, sync_status, reconcile, on_sync, with_registration, with_environment, sync,
}

abbrev found? : ObjectAnswer → Bool
found? object_found = true
found? object_not_found = false
found? (object_failed e) = false

abbrev updates? : Option String → Bool
updates? none = true
updates? (some e) = false

-- The sync writes the status: there is an environment and a registration, and the update succeeds.
abbrev pub records : HandlerAnswers → Bool
records h = found? h.environment && (found? h.registration && updates? h.answers.update_status)

-- The sync finds the environment in the application.
abbrev pub exists_for : HandlerAnswers → String → Bool
exists_for h env_name = exists_in_app_config (application_of h.application) env_name

module _ (calls : Calls) where
  -- The two fields of the status.
  abbrev Recorded : HandlerAnswers → ℕ → RadixEnvironment → RadixEnvironment → Type 0
  Recorded h now env after =
      (after.env_name ≡ env.env_name)
      × (after.status.orphaned ≡ not (exists_for h env.env_name))
      × (after.status.orphaned_timestamp
          ≡ orphaned_since (not (exists_for h env.env_name)) env.status.orphaned_timestamp now)

  change_status-Recorded :
      (h : HandlerAnswers) (now : ℕ) (env : RadixEnvironment) (error : Option EnvironmentError)
      → Recorded h now env
          (record env { status = change_status calls (application_of h.application) now error env })
  unfolding change_status
  change_status-Recorded h now env none = (refl, refl, refl)
  change_status-Recorded h now env (some e) = (refl, refl, refl)

  -- What the sync leaves, for an answer to whether it writes the status.
  abbrev Result : HandlerAnswers → ℕ → RadixEnvironment → Bool → RadixEnvironment → Type 0
  Result h now env writes after =
      ((writes ≡ false) × (after ≡ env)) ⊎ ((writes ≡ true) × Recorded h now env after)

  module _ (h : HandlerAnswers) (now : ℕ) (env : RadixEnvironment) where
    sync_status-Result :
        (error : Option EnvironmentError)
        → Result h now env
            (updates? h.answers.update_status)
            (sync_status calls (application_of h.application) h.answers now error env).0
    unfolding sync_status
    sync_status-Result error = elim (Option-cases h.answers.update_status) [
      | inl e ↦ rw e (inr (refl, change_status-Recorded h now env error))
      | inr (x, e) ↦ rw e (inl (refl, refl))
    ]

    with_registration-Result :
        (a : ObjectAnswer)
        → Result h now env
            (found? a && updates? h.answers.update_status)
            (with_registration calls h now env a).0
    unfolding with_registration on_sync
    with_registration-Result object_found = sync_status-Result (reconcile calls h.answers env)
    with_registration-Result object_not_found = inl (refl, refl)
    with_registration-Result (object_failed e) = inl (refl, refl)

    with_environment-Result :
        (a : ObjectAnswer)
        → Result h now env
            (found? a && (found? h.registration && updates? h.answers.update_status))
            (with_environment calls h now env a).0
    unfolding with_environment
    with_environment-Result object_found = with_registration-Result h.registration
    with_environment-Result object_not_found = inl (refl, refl)
    with_environment-Result (object_failed e) = inl (refl, refl)

    pub sync-Result : Result h now env (records h) (sync calls h now env).0
    unfolding sync
    sync-Result = with_environment-Result h.environment

  -- The environment after the syncs of the history, the last one first.
  abbrev pub after : List (HandlerAnswers × ℕ) → RadixEnvironment → RadixEnvironment
  after [] env = env
  after ((h, now) ∷ earlier) env = (sync calls h now (after earlier env)).0

  -- If the sync writes the status, it has not found the environment in the application.
  abbrev pub SeesOrphan : String → HandlerAnswers × ℕ → Type 0
  SeesOrphan env_name (h, now) = records h ≡ true → exists_for h env_name ≡ false

  -- The sync at the time wrote that the environment is an orphan, and no later one found it.
  abbrev pub OrphanedSince : ℕ → String → List (HandlerAnswers × ℕ) → Type 0
  OrphanedSince t env_name history =
      (recent : List (HandlerAnswers × ℕ)) × (older : List (HandlerAnswers × ℕ))
      × (h : HandlerAnswers) × (history ≡ recent ++ (h, t) ∷ older)
      × (records h ≡ true)
      × (exists_for h env_name ≡ false)
      × All (SeesOrphan env_name) recent

  module _ (env : RadixEnvironment) (never : env.status.orphaned_timestamp ≡ none) where
    env_name-after :
        (history : List (HandlerAnswers × ℕ)) → (after history env).env_name ≡ env.env_name
    env_name-after [] = refl
    env_name-after ((h, now) ∷ earlier) =
        let ih = env_name-after earlier in
        elim (sync-Result h now (after earlier env)) [
          | inl (_, same) ↦ ap (λ (e : RadixEnvironment). e.env_name) same ∙ ih
          | inr (_, recorded) ↦ recorded.0 ∙ ih
        ]

    -- The last sync writes the timestamp, in an environment with this timestamp before.
    last_sync :
        (h : HandlerAnswers) (now : ℕ) (earlier : List (HandlerAnswers × ℕ)) (stamp : Option ℕ)
        (t : ℕ) (exists : Bool)
        → exists_for h env.env_name ≡ exists
        → records h ≡ true
        → orphaned_since (not exists) stamp now ≡ some t
        → ((u : ℕ) → stamp ≡ some u → OrphanedSince u env.env_name earlier)
        → OrphanedSince t env.env_name ((h, now) ∷ earlier)
    last_sync h now earlier stamp t true e writes stamped ih = cc
    last_sync h now earlier none t false e writes stamped ih =
        let same : now ≡ t = cc in ([], earlier, h, rw same refl, writes, e, tt)
    last_sync h now earlier (some u) t false e writes stamped ih =
        let same : u ≡ t = cc in
        let (recent, older, k, split, w, o, all) = ih u refl in
        (
          (h, now) ∷ recent,
          older,
          k,
          rw (← same) (ap (λ (hs : List (HandlerAnswers × ℕ)). (h, now) ∷ hs) split),
          w,
          o,
          ((λ _. e), all),
        )

    -- The time that an environment records is that of a sync since which no sync has found it in
    -- the application.
    pub orphaned_timestamp-after :
        (history : List (HandlerAnswers × ℕ)) (t : ℕ)
        → (after history env).status.orphaned_timestamp ≡ some t
        → OrphanedSince t env.env_name history
    orphaned_timestamp-after [] t e = absurd (different (sym never ∙ e))
      where
        different : none ≡ some t → ⊥
        different q = cc
    orphaned_timestamp-after ((h, now) ∷ earlier) t e =
        let ih = orphaned_timestamp-after earlier in
        elim (sync-Result h now (after earlier env)) [
          | inl (silent, same) ↦
              let (recent, older, k, split, w, o, all) =
                ih t (sym (ap (λ (x : RadixEnvironment). x.status.orphaned_timestamp) same) ∙ e) in
              (
                (h, now) ∷ recent,
                older,
                k,
                ap (λ (hs : List (HandlerAnswers × ℕ)). (h, now) ∷ hs) split,
                w,
                o,
                ((λ q. absurd (clash silent q)), all),
              )
          | inr (writes, recorded) ↦
              last_sync h now earlier (after earlier env).status.orphaned_timestamp t
                (exists_for h (after earlier env).env_name)
                (ap (exists_for h) (sym (env_name-after earlier))) writes (sym recorded.2 ∙ e) ih
        ]
      where
        clash : {b : Bool} → b ≡ false → b ≡ true → ⊥
        clash p q = cc
