-- ===== src/JobScheduler/History/Order.antt =====
-- The order in which the history sorts batches, `sortRJSchByCompletionTimeAsc` of
-- job-scheduler/pkg/batch/history.go, and what a sort keeps.
use radix_operator.Prelude.{
  ℕ, zero, suc, ◌+◌, ◌≤◌, ◌<◌, String, Bool, true, false, not, ◌&&◌, List, [], ◌∷◌, map, Memᴰ, ◌≡◌,
  refl, ◌∙◌, ap, length, take, find_all, All, All_of_mem, All-intro, Bool-cases, inl, inr, arith,
  mem_find_all,
}
use mathlib.Core.List.{Permᴰ}
use radix_operator.Batch.Types.{RadixBatch}
use radix_operator.JobScheduler.History.{is_rjs1_completed_before_rjs2}

module _ {ℓ} {A : Type ℓ} where
  pub mem-perm : {xs ys : List A} {x : A} → Permᴰ xs ys → Memᴰ x xs → Memᴰ x ys
  mem-perm Permᴰ.nil m = m
  mem-perm (Permᴰ.cons e p) (Memᴰ.head h) = Memᴰ.head (h ∙ e)
  mem-perm (Permᴰ.cons e p) (Memᴰ.tail m) = Memᴰ.tail (mem-perm p m)
  mem-perm (Permᴰ.swap e f) (Memᴰ.head h) = Memᴰ.tail (Memᴰ.head (h ∙ e))
  mem-perm (Permᴰ.swap e f) (Memᴰ.tail (Memᴰ.head h)) = Memᴰ.head (h ∙ f)
  mem-perm (Permᴰ.swap e f) (Memᴰ.tail (Memᴰ.tail m)) = Memᴰ.tail (Memᴰ.tail m)
  mem-perm (Permᴰ.trans p q) m = mem-perm q (mem-perm p m)

  pub length-find_all_cons :
      (p : A → Bool) (x : A) (xs : List A)
      → length (find_all p (x ∷ xs)) ≡ length (find_all p (x ∷ [])) + length (find_all p xs)
  length-find_all_cons p x xs = elim (Bool-cases (p x)) [
    | inl e ↦ rw e (omega arith)
    | inr e ↦ rw e (omega arith)
  ]

  -- A permutation has as many elements that pass a test.
  pub length-find_all_perm :
      (p : A → Bool) {xs ys : List A}
      → Permᴰ xs ys
      → length (find_all p xs) ≡ length (find_all p ys)
  length-find_all_perm p Permᴰ.nil = refl
  length-find_all_perm p (Permᴰ.cons {a} {b} {l₁ = xs} {l₂ = ys} e d) =
      let ih = length-find_all_perm p d in
      let l = length-find_all_cons p a xs in
      let r = length-find_all_cons p b ys in
      let same = ap (λ (x : A). length (find_all p (x ∷ []))) e in omega arith
  length-find_all_perm p (Permᴰ.swap {a} {b} {a'} {b'} {l = zs} e f) =
      let l = length-find_all_cons p a (b ∷ zs) in
      let l' = length-find_all_cons p b zs in
      let r = length-find_all_cons p a' (b' ∷ zs) in
      let r' = length-find_all_cons p b' zs in
      let first = ap (λ (x : A). length (find_all p (x ∷ []))) e in
      let second = ap (λ (x : A). length (find_all p (x ∷ []))) f in omega arith
  length-find_all_perm p (Permᴰ.trans d e) = length-find_all_perm p d ∙ length-find_all_perm p e

  pub find_all-find_all :
      (p q : A → Bool) (xs : List A) → find_all q (find_all p xs) ≡ find_all (λ x. p x && q x) xs
  find_all-find_all p q [] = refl
  find_all-find_all p q (x ∷ xs) = elim (Bool-cases (p x)) [
    | inr e ↦ rw e (find_all-find_all p q xs)
    | inl e ↦ elim (Bool-cases (q x)) [
      | inl h ↦ rw (e, h) (ap (λ (ys : List A). x ∷ ys) (find_all-find_all p q xs))
      | inr h ↦ rw (e, h) (find_all-find_all p q xs)
    ]
  ]

  -- The elements whose image passes a test.
  pub length-find_all-map {κ} :
      {B : Type κ} (f : A → B) (q : B → Bool) (xs : List A)
      → length (find_all q (map f xs)) ≡ length (find_all (λ x. q (f x)) xs)
  length-find_all-map f q [] = refl
  length-find_all-map f q (x ∷ xs) = elim (Bool-cases (q (f x))) [
    | inl e ↦ rw e (ap suc (length-find_all-map f q xs))
    | inr e ↦ rw e (length-find_all-map f q xs)
  ]

-- No batch of the list was completed before one that stands ahead of it.
abbrev pub IsAscending : List RadixBatch → Type 0
IsAscending [] = Unit
IsAscending (b ∷ bs) = All (λ c. is_rjs1_completed_before_rjs2 c b ≡ false) bs × IsAscending bs

pub find_all-IsAscending :
    (p : RadixBatch → Bool) (bs : List RadixBatch) → IsAscending bs → IsAscending (find_all p bs)
find_all-IsAscending p [] h = h
find_all-IsAscending p (b ∷ bs) (ahead, h) = elim (Bool-cases (p b)) [
  | inr e ↦ rw e (find_all-IsAscending p bs h)
  | inl e ↦ rw e (
    All-intro _ (find_all p bs) (λ c m. All_of_mem _ bs ahead (mem_find_all p bs m).0),
    find_all-IsAscending p bs h,
  )
]

abbrev pub not_before : RadixBatch → RadixBatch → Bool
not_before b x = not (is_rjs1_completed_before_rjs2 x b)

not_before_refl : (b : RadixBatch) → not_before b b ≡ true
unfolding is_rjs1_completed_before_rjs2
not_before_refl b = ground arith

length-not_before_of_All :
    (b : RadixBatch) (bs : List RadixBatch)
    → All (λ c. is_rjs1_completed_before_rjs2 c b ≡ false) bs
    → length (find_all (not_before b) bs) ≡ length bs
length-not_before_of_All b [] h = refl
length-not_before_of_All b (c ∷ bs) (first, h) = rw first (ap suc (length-not_before_of_All b bs h))

length-find_all_tail :
    (p : RadixBatch → Bool) (b : RadixBatch) (bs : List RadixBatch)
    → length (find_all p bs) ≤ length (find_all p (b ∷ bs))
length-find_all_tail p b bs = let l = length-find_all_cons p b bs in omega arith

-- A batch among the first ones has all others behind it, so that they are not completed before it.
pub mem-take_ascending :
    (bs : List RadixBatch) (k : ℕ) (name : String)
    → IsAscending bs
    → Memᴰ name (take k (map (λ b. b.name) bs))
    → (b : RadixBatch) × Memᴰ b bs
      × (name ≡ b.name)
      × (length bs < length (find_all (not_before b) bs) + k)
mem-take_ascending bs zero name h m = elim m [ ]
mem-take_ascending [] (suc k) name h m = elim m [ ]
mem-take_ascending (b ∷ bs) (suc k) name (ahead, h) (Memᴰ.head e) =
    let n = length-not_before_of_All b bs ahead in
    (b, Memᴰ.head refl, e, rw (not_before_refl b) (omega arith))
mem-take_ascending (b ∷ bs) (suc k) name (ahead, h) (Memᴰ.tail m) =
    let (c, there, e, enough) = mem-take_ascending bs k name h m in
    let more = length-find_all_tail (not_before c) b bs in (c, Memᴰ.tail there, e, omega arith)

length-find_all : (p : String → Bool) (xs : List String) → length (find_all p xs) ≤ length xs
length-find_all p [] = omega arith
length-find_all p (x ∷ xs) = elim (Bool-cases (p x)) [
  | inl e ↦ rw e (let ih = length-find_all p xs in omega arith)
  | inr e ↦ rw e (let ih = length-find_all p xs in omega arith)
]

pub length-find_all_drop :
    (p : String → Bool) (k : ℕ) (xs : List String)
    → k ≤ length xs
    → ((x : String) → Memᴰ x (take k xs) → p x ≡ false)
    → length (find_all p xs) + k ≤ length xs
length-find_all_drop p zero xs le h = let n = length-find_all p xs in omega arith
length-find_all_drop p (suc k) [] le h = absurd (omega arith)
length-find_all_drop p (suc k) (x ∷ xs) le h =
    let ih = length-find_all_drop p k xs (omega arith) (λ y m. h y (Memᴰ.tail m)) in
    rw (h x (Memᴰ.head refl)) (omega arith)

pub length-map : (f : RadixBatch → String) (xs : List RadixBatch) → length (map f xs) ≡ length xs
length-map f [] = refl
length-map f (x ∷ xs) = ap suc (length-map f xs)

pub mem-take_pos : (k : ℕ) (names : List String) {n : String} → Memᴰ n (take k names) → 0 < k
mem-take_pos zero names m = elim m [ ]
mem-take_pos (suc k) names m = omega arith
