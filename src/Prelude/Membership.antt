-- ===== src/Prelude/Membership.antt =====
-- Membership in the results of the searches.
use radix_operator.Prelude.Tests.{if◌then◌else◌, Bool-cases, &&-true}
use radix_operator.Prelude.Lists.{any, all, find_first, find_all, drop, All}
use Prim.Native.Nat.{ℕ, zero, suc}
use mathlib.Core.Path.{◌≡◌, refl, ap, subst, sym}
use mathlib.Core.Logic.{◌↔◌, ◌⊎◌, inl, inr}
use mathlib.Core.Bool.{Bool, true, false, ◌||◌}
use mathlib.Core.Option.{none, some}
use mathlib.Core.List.{List, [], ◌∷◌, ◌++◌, map, Memᴰ}
use native.Mathlib.Omega.{arith}

module _ {ℓ} {A : Type ℓ} where
  pub any_of_mem : (p : A → Bool) {x : A} (xs : List A) → Memᴰ x xs → p x ≡ true → any p xs ≡ true
  any_of_mem p [] m h = elim m [ ]
  any_of_mem p {x} (y ∷ xs) (Memᴰ.head e) h = let h' : p y ≡ true = rw (← e) h in rw h' refl
  any_of_mem p (y ∷ xs) (Memᴰ.tail m) h = let ih = any_of_mem p xs m h in ground arith

  pub mem_of_any :
      (p : A → Bool) (xs : List A) → any p xs ≡ true → (x : A) × Memᴰ x xs × (p x ≡ true)
  mem_of_any p [] h = cc
  mem_of_any p (y ∷ xs) h = elim (Bool-cases (p y)) [
    | inl e ↦ (y, Memᴰ.head refl, e)
    | inr e ↦
        let (x, m, px) = mem_of_any p xs (let h' : (p y || any p xs) ≡ true = h in rw e at h') in
        (x, Memᴰ.tail m, px)
  ]

  -- A search finds something exactly when a member passes its test.
  pub any_iff :
      (p : A → Bool) (xs : List A) → (any p xs ≡ true) ↔ ((x : A) × Memᴰ x xs × (p x ≡ true))
  any_iff p xs = (mem_of_any p xs, λ (x, m, h). any_of_mem p xs m h)

  pub any-false : (p : A → Bool) {x : A} (xs : List A) → any p xs ≡ false → Memᴰ x xs → p x ≡ false
  any-false p {x} xs h m = elim (Bool-cases (p x)) [
    | inl e ↦ let t = any_of_mem p xs m e in cc
    | inr e ↦ e
  ]

  pub all_of_mem : (p : A → Bool) {x : A} (xs : List A) → all p xs ≡ true → Memᴰ x xs → p x ≡ true
  all_of_mem p [] h m = elim m [ ]
  all_of_mem p (y ∷ xs) h (Memᴰ.head e) = rw e (&&-true (p y) (all p xs) h).0
  all_of_mem p (y ∷ xs) h (Memᴰ.tail m) = all_of_mem p xs (&&-true (p y) (all p xs) h).1 m

  pub find_first-some :
      (p : A → Bool) {x : A} (xs : List A) → find_first p xs ≡ some x → Memᴰ x xs × (p x ≡ true)
  find_first-some p [] h = cc
  find_first-some p {x} (y ∷ xs) h = elim (Bool-cases (p y)) [
    | inl e ↦
        let same : some y ≡ some x =
          let h' : (if p y then some y else find_first p xs) ≡ some x = h in rw e at h' in
        let eq : y ≡ x = cc in (Memᴰ.head (sym eq), rw (← eq) e)
    | inr e ↦
        let (m, px) =
          find_first-some p xs
            (let h' : (if p y then some y else find_first p xs) ≡ some x = h in rw e at h') in
        (Memᴰ.tail m, px)
  ]

  pub find_first-none :
      (p : A → Bool) {x : A} (xs : List A) → find_first p xs ≡ none → Memᴰ x xs → p x ≡ false
  find_first-none p [] h m = elim m [ ]
  find_first-none p (y ∷ xs) h (Memᴰ.head e) = rw e (ground arith)
  find_first-none p (y ∷ xs) h (Memᴰ.tail m) = find_first-none p xs (ground arith) m

  pub mem_find_all :
      (p : A → Bool) {x : A} (xs : List A) → Memᴰ x (find_all p xs) → Memᴰ x xs × (p x ≡ true)
  mem_find_all p [] m = elim m [ ]
  mem_find_all p {x} (y ∷ xs) m = elim (Bool-cases (p y)) [
    | inl e ↦
        go e (let m' : Memᴰ x (if p y then y ∷ find_all p xs else find_all p xs) = m in rw e at m')
          (mem_find_all p xs)
    | inr e ↦
        let (k, px) =
          mem_find_all p xs (
            let m' : Memᴰ x (if p y then y ∷ find_all p xs else find_all p xs) = m in rw e at m') in
        (Memᴰ.tail k, px)
  ]
    where
      go :
          p y ≡ true
          → Memᴰ x (y ∷ find_all p xs)
          → (Memᴰ x (find_all p xs) → Memᴰ x xs × (p x ≡ true))
          → Memᴰ x (y ∷ xs) × (p x ≡ true)
      go e (Memᴰ.head q) ih = (Memᴰ.head q, rw q e)
      go e (Memᴰ.tail k) ih = (Memᴰ.tail (ih k).0, (ih k).1)

  pub find_all_of_mem :
      (p : A → Bool) {x : A} (xs : List A) → Memᴰ x xs → p x ≡ true → Memᴰ x (find_all p xs)
  find_all_of_mem p [] m h = elim m [ ]
  find_all_of_mem p {x} (y ∷ xs) (Memᴰ.head e) h =
      let h' : p y ≡ true = rw (← e) h in rw h' (Memᴰ.head e)
  find_all_of_mem p (y ∷ xs) (Memᴰ.tail m) h = elim (Bool-cases (p y)) [
    | inl e ↦ rw e (Memᴰ.tail (find_all_of_mem p xs m h))
    | inr e ↦ rw e (find_all_of_mem p xs m h)
  ]

  pub mem-append_left : {x : A} (xs ys : List A) → Memᴰ x xs → Memᴰ x (xs ++ ys)
  mem-append_left [] ys m = elim m [ ]
  mem-append_left (y ∷ xs) ys (Memᴰ.head e) = Memᴰ.head e
  mem-append_left (y ∷ xs) ys (Memᴰ.tail m) = Memᴰ.tail (mem-append_left xs ys m)

  pub mem-append_right : {x : A} (xs ys : List A) → Memᴰ x ys → Memᴰ x (xs ++ ys)
  mem-append_right [] ys m = m
  mem-append_right (y ∷ xs) ys m = Memᴰ.tail (mem-append_right xs ys m)

  pub mem-append_cases : {x : A} (xs ys : List A) → Memᴰ x (xs ++ ys) → Memᴰ x xs ⊎ Memᴰ x ys
  mem-append_cases [] ys m = inr m
  mem-append_cases (y ∷ xs) ys (Memᴰ.head e) = inl (Memᴰ.head e)
  mem-append_cases (y ∷ xs) ys (Memᴰ.tail m) = elim (mem-append_cases xs ys m) [
    | inl l ↦ inl (Memᴰ.tail l)
    | inr r ↦ inr r
  ]

  pub mem-drop : {x : A} (n : ℕ) (xs : List A) → Memᴰ x (drop n xs) → Memᴰ x xs
  mem-drop zero xs m = m
  mem-drop (suc n) [] m = m
  mem-drop (suc n) (y ∷ xs) m = Memᴰ.tail (mem-drop n xs m)

  pub All_of_mem {κ} : (P : A → Type κ) {x : A} (xs : List A) → All P xs → Memᴰ x xs → P x
  All_of_mem P [] h m = elim m [ ]
  All_of_mem P (y ∷ xs) h (Memᴰ.head e) = subst P (sym e) h.0
  All_of_mem P (y ∷ xs) h (Memᴰ.tail m) = All_of_mem P xs h.1 m

  pub All-intro {κ} : (P : A → Type κ) (xs : List A) → ((x : A) → Memᴰ x xs → P x) → All P xs
  All-intro P [] h = tt
  All-intro P (x ∷ xs) h = (h x (Memᴰ.head refl), All-intro P xs (λ y m. h y (Memᴰ.tail m)))

module _ {ℓ κ} {A : Type ℓ} {B : Type κ} (f : A → B) where
  pub mem-map : {x : A} (xs : List A) → Memᴰ x xs → Memᴰ (f x) (map f xs)
  mem-map [] m = elim m [ ]
  mem-map (y ∷ xs) (Memᴰ.head e) = Memᴰ.head (ap f e)
  mem-map (y ∷ xs) (Memᴰ.tail m) = Memᴰ.tail (mem-map xs m)

  pub mem_of_mem-map : {y : B} (xs : List A) → Memᴰ y (map f xs) → (x : A) × Memᴰ x xs × (y ≡ f x)
  mem_of_mem-map [] m = elim m [ ]
  mem_of_mem-map (x ∷ xs) (Memᴰ.head e) = (x, Memᴰ.head refl, e)
  mem_of_mem-map (x ∷ xs) (Memᴰ.tail m) = let (z, k, e) = mem_of_mem-map xs m in (z, Memᴰ.tail k, e)
