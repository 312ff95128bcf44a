-- ===== src/Controllers/Workers/Counts.antt =====
-- The workers, locks and calls of operator/common/controller.go in numbers.
use radix_operator.Prelude.{
  ℕ, suc, String, Bool, true, false, not, ◌&&◌, ◌≡◌, ◌+◌, refl, ap, sym, Option, none, some, List,
  [], ◌∷◌, ◌++◌, ◌==◌, length, Bool-cases, eq_iff, arith, inl, inr,
}
use radix_operator.Controllers.Workers.{
  ObjectName, Call, add_after, add_rate_limited, forget, done, Phase, syncing, synced, leaving,
  is_locked, release_lock, after_sync,
}

abbrev pub one_if : Bool → ℕ
one_if true = 1
one_if false = 0

-- A worker between `TryGetLock` and `ReleaseLock`.
abbrev pub holds_lock : Phase → Bool
holds_lock syncing = true
holds_lock synced = true
holds_lock _ = false

-- A worker that has decided what becomes of its item.
abbrev pub has_decided : Phase → Bool
has_decided synced = true
has_decided leaving = true
has_decided _ = false

abbrev pub same_object : ObjectName → ObjectName → Bool
same_object a b = a.namespace == b.namespace && a.name == b.name

abbrev pub is_decision : ObjectName → Call → Bool
is_decision item (add_after i) = same_object i item
is_decision item (add_rate_limited i) = same_object i item
is_decision item (forget i) = same_object i item
is_decision item (done i) = false

abbrev pub is_done_call : ObjectName → Call → Bool
is_done_call item (done i) = same_object i item
is_done_call item _ = false

module _ {ℓ} {A : Type ℓ} where
  -- How many elements pass the test.
  abbrev pub number_of : (A → Bool) → List A → ℕ
  number_of p [] = 0
  number_of p (x ∷ xs) = one_if (p x) + number_of p xs

  pub number_of-middle :
      (p : A → Bool) (xs ys : List A) (y : A)
      → number_of p (xs ++ y ∷ ys) ≡ one_if (p y) + number_of p (xs ++ ys)
  number_of-middle p [] ys y = refl
  number_of-middle p (x ∷ xs) ys y = let ih = number_of-middle p xs ys y in omega arith

  pub length-middle : (xs ys : List A) (y : A) → length (xs ++ y ∷ ys) ≡ suc (length (xs ++ ys))
  length-middle [] ys y = refl
  length-middle (x ∷ xs) ys y = let ih = length-middle xs ys y in omega arith

pub is_locked-same :
    (a k : String) (locks : List String) → (a == k) ≡ true → is_locked a locks ≡ is_locked k locks
is_locked-same a k locks h = ap (λ x. is_locked x locks) ((eq_iff a k).0 h)

pub is_locked-release_lock :
    (k key : String) (locks : List String)
    → is_locked k (release_lock key locks) ≡ (is_locked k locks && not (key == k))
unfolding release_lock
is_locked-release_lock k key [] = refl
is_locked-release_lock k key (l ∷ ls) = elim (Bool-cases (l == key)) [
  | inl e ↦
      let ih = is_locked-release_lock k key ls in
      let same : (l == k) ≡ (key == k) = ap (λ x. x == k) ((eq_iff l key).0 e) in ground arith
  | inr e ↦
      let ih = is_locked-release_lock k key ls in
      rw e (elim (Bool-cases (key == k)) [
        | inl f ↦
            let same : (l == k) ≡ (l == key) = ap (λ x. l == x) (sym ((eq_iff key k).0 f)) in
            ground arith
        | inr f ↦ ground arith
      ])
]

pub decision-after_sync :
    (error : Option String) (item i : ObjectName)
    → (is_decision i (after_sync error item) ≡ same_object item i)
      × (is_done_call i (after_sync error item) ≡ false)
unfolding after_sync
decision-after_sync none item i = (refl, refl)
decision-after_sync (some e) item i = (refl, refl)
