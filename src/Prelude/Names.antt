-- ===== src/Prelude/Names.antt =====
-- Objects with names, no two of which have the same one.
use radix_operator.Prelude.Tests.{beq_comm, Bool-cases}
use radix_operator.Prelude.Lists.{any, find_all, Distinct}
use radix_operator.Prelude.Membership.{any-false, mem-map, mem_of_any, mem_find_all}
use Prim.Native.String.{String}
use mathlib.Core.Bool.{Bool, true, false}
use mathlib.Core.Logic.{inl, inr}
use mathlib.Core.Path.{◌≡◌, sym, ap, ◌∙◌}
use mathlib.Core.List.{List, [], ◌∷◌, map, Memᴰ}
use text.Mathlib.Text.{◌==◌}

module _ {ℓ} {A : Type ℓ} (name : A → String) where
  -- An element is told by its name.
  pub same_of_name :
      (xs : List A) {b c : A}
      → Distinct (map name xs)
      → Memᴰ b xs
      → Memᴰ c xs
      → (name b == name c) ≡ true
      → c ≡ b
  same_of_name [] d m k e = elim m [ ]
  same_of_name (x ∷ xs) d (Memᴰ.head p) (Memᴰ.head q) e = q ∙ sym p
  same_of_name (x ∷ xs) {b} {c} d (Memᴰ.head p) (Memᴰ.tail k) e = absurd (clash b p e)
    where
      clash : (b' : A) → b' ≡ x → (name b' == name c) ≡ true → ⊥
      clash b' q f =
          let other = any-false (λ y. name x == y) (map name xs) d.0 (mem-map name xs k) in
          let same : name b' ≡ name x = ap name q in cc
  same_of_name (x ∷ xs) {b} {c} d (Memᴰ.tail m) (Memᴰ.head q) e = absurd (clash c q e)
    where
      clash : (c' : A) → c' ≡ x → (name b == name c') ≡ true → ⊥
      clash c' p f =
          let other = any-false (λ y. name x == y) (map name xs) d.0 (mem-map name xs m) in
          let same : name c' ≡ name x = ap name p in let turned = beq_comm (name x) (name b) in cc
  same_of_name (x ∷ xs) d (Memᴰ.tail m) (Memᴰ.tail k) e = same_of_name xs d.1 m k e

  -- Only an element that passes the test has the name of one that does.
  pub any_name-find_all :
      (p : A → Bool) (xs : List A) {b : A}
      → Distinct (map name xs)
      → Memᴰ b xs
      → p b ≡ false
      → any (λ x. name x == name b) (find_all p xs) ≡ false
  any_name-find_all p xs {b} d m h =
      elim (Bool-cases (any (λ x. name x == name b) (find_all p xs))) [
        | inr e ↦ e
        | inl e ↦
            let (c, found, eq) = mem_of_any (λ x. name x == name b) (find_all p xs) e in
            let (k, passes) = mem_find_all p xs found in
            let same = same_of_name xs d k m eq in absurd (clash (p b) h (rw same passes))
      ]
    where
      clash : (t : Bool) → t ≡ false → t ≡ true → ⊥
      clash t p q = cc
