-- ===== src/Prelude/Errors.antt =====
-- Lists of errors: `if c { errs = append(errs, e) }`, and the errors of a loop.
use radix_operator.Prelude.Lists.{All}
use mathlib.Core.Bool.{Bool, true, false}
use mathlib.Core.Path.{◌≡◌, refl}
use mathlib.Core.List.{List, [], ◌∷◌, ◌++◌, Memᴰ}

module _ {ℓ} {E : Type ℓ} where
  abbrev pub report : Bool → E → List E
  report true e = e ∷ []
  report false e = []

  pub report-nil : (b : Bool) (e : E) → report b e ≡ [] → b ≡ false
  report-nil true e h = cc
  report-nil false e h = refl

  pub append-nil : (xs ys : List E) → xs ++ ys ≡ [] → (xs ≡ []) × (ys ≡ [])
  append-nil [] ys h = (refl, h)
  append-nil (x ∷ xs) ys h = cc

module _ {ℓ κ} {A : Type ℓ} {E : Type κ} where
  abbrev pub concat_map : (A → List E) → List A → List E
  concat_map f [] = []
  concat_map f (x ∷ xs) = f x ++ concat_map f xs

  pub concat_map-nil :
      (f : A → List E) {x : A} (xs : List A) → concat_map f xs ≡ [] → Memᴰ x xs → f x ≡ []
  concat_map-nil f [] h m = elim m [ ]
  concat_map-nil f (y ∷ xs) h (Memᴰ.head e) = rw e (append-nil (f y) (concat_map f xs) h).0
  concat_map-nil f (y ∷ xs) h (Memᴰ.tail m) =
      concat_map-nil f xs (append-nil (f y) (concat_map f xs) h).1 m

module _ {ℓ} {E : Type ℓ} where
  -- `errors.Join`, for errors that are lists of errors; nil is the empty list.
  unfoldable pub join : List (List E) → List E
  join [] = []
  join (xs ∷ xss) = xs ++ join xss

  pub join-nil : (xss : List (List E)) → join xss ≡ [] → All (λ xs. xs ≡ []) xss
  unfolding join
  join-nil [] h = tt
  join-nil (xs ∷ xss) h = let (e, rest) = append-nil xs (join xss) h in (e, join-nil xss rest)
