-- ===== src/Prelude/Text.antt =====
-- `strings.EqualFold` on ASCII texts, and concatenation.
use Prim.Native.Nat.{ℕ, ◌+◌}
use Prim.Native.Char.{code}
use Prim.Native.String
use Prim.Native.String.{String}
use mathlib.Core.Bool.{Bool, true, false, ◌&&◌, ◌||◌}
use radix_operator.Prelude.Lists.{all, length}
use mathlib.Core.List.{List, [], ◌∷◌}
use mathlib.Core.Path.{◌≡◌, refl}
use native.Mathlib.Omega.{arith}
use radix_operator.Prelude.Tests.{leb, nat_beq, if◌then◌else◌}

codes : String → List ℕ
codes String.[] = []
codes (String.◌∷◌ c s) = code c ∷ codes s

-- An upper case letter becomes its lower case letter.
fold_case : ℕ → ℕ
fold_case c = if leb b'A' c && leb c b'Z' then c + 32 else c

same_folded : List ℕ → List ℕ → Bool
unfolding fold_case
same_folded [] [] = true
same_folded (a ∷ as') (b ∷ bs) = nat_beq (fold_case a) (fold_case b) && same_folded as' bs
same_folded _ _ = false

unfoldable pub equal_fold : String → String → Bool
unfolding codes same_folded
equal_fold s t = same_folded (codes s) (codes t)

infixl 65 ◌+++◌
abbrev pub ◌+++◌ : String → String → String
s +++ t = String.◌++◌ s t

same_folded_refl : (xs : List ℕ) → same_folded xs xs ≡ true
unfolding same_folded
same_folded_refl [] = refl
same_folded_refl (a ∷ as') = ground (arith, same_folded_refl as')

-- A text is equal to itself without regard to case.
pub equal_fold_refl : (s : String) → equal_fold s s ≡ true
unfolding equal_fold
equal_fold_refl s = same_folded_refl (codes s)

-- `unicode.IsSpace`
is_space : ℕ → Bool
is_space c =
    (leb 9 c && leb c 13)
    || nat_beq c 32
    || nat_beq c 133
    || nat_beq c 160
    || nat_beq c 5760
    || (leb 8192 c && leb c 8202)
    || nat_beq c 8232
    || nat_beq c 8233
    || nat_beq c 8239
    || nat_beq c 8287
    || nat_beq c 12288

-- `len(strings.TrimSpace(s)) == 0`
unfoldable pub is_blank : String → Bool
unfolding is_space codes
is_blank s = all is_space (codes s)

-- The match of the regular expression `^[a-z0-9]{3,24}$`.
unfoldable pub is_storage_account_name : String → Bool
unfolding codes
is_storage_account_name s =
    leb 3 (length (codes s))
    && leb (length (codes s)) 24
    && all (λ c. (leb b'a' c && leb c b'z') || (leb b'0' c && leb c b'9')) (codes s)

same_codes : List ℕ → List ℕ → Bool
same_codes [] [] = true
same_codes (a ∷ as') (b ∷ bs) = nat_beq a b && same_codes as' bs
same_codes _ _ = false

ends_codes : List ℕ → List ℕ → Bool
unfolding same_codes
ends_codes suffix [] = same_codes suffix []
ends_codes suffix (c ∷ cs) = same_codes suffix (c ∷ cs) || ends_codes suffix cs

-- `strings.HasSuffix(s, suffix)`
unfoldable pub ends_with : String → String → Bool
unfolding codes ends_codes
ends_with s suffix = ends_codes (codes suffix) (codes s)
