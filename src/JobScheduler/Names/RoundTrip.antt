-- ===== src/JobScheduler/Names/RoundTrip.antt =====
-- The parse of the name of a scheduled job inverts its composition.
use radix_operator.Prelude.{
  String, Bool, true, false, ◌||◌, some, List, [], ◌∷◌, ◌++◌, ◌+++◌, ◌≡◌, refl, sym, ap, ◌∙◌, ◌↔◌,
  inl, inr, ltb, length, arith, Bool-cases,
}
use Prim.Native.Char.{Char}
use text.Mathlib.TextEquality.{Char-path}
use Prim.Native.String as Text
use radix_operator.JobScheduler.Names.{
  is_dash, push_front, split, join_dash, without_last, last_part, scheduled_job_name,
  parse_batch_and_job_name,
}
use text.Mathlib.TextLemmas.{append_assoc, cons-append, nil-append}

abbrev pub has_dash : String → Bool
has_dash Text.[] = false
has_dash (Text.◌∷◌ c s) = is_dash c || has_dash s

abbrev NonEmpty : List String → Type 0
NonEmpty parts = (p : String) × (ps : List String) × (parts ≡ p ∷ ps)

push_front-NonEmpty : (c : Char) (parts : List String) → NonEmpty (push_front c parts)
unfolding push_front
push_front-NonEmpty c [] = (_, _, refl)
push_front-NonEmpty c (p ∷ ps) = (_, _, refl)

split-NonEmpty : (s : String) → NonEmpty (split s)
unfolding split
split-NonEmpty Text.[] = ("", [], refl)
split-NonEmpty (Text.◌∷◌ c s) = elim (Bool-cases (is_dash c)) [
  | inl e ↦ rw e ("", split s, refl)
  | inr e ↦ rw e (push_front-NonEmpty c (split s))
]

-- The character of the separator.
abbrev dash : Char
dash = "-"

dash_of_test : (c : Char) → is_dash c ≡ true → c ≡ dash
dash_of_test c h = Char-path c dash (ground arith)

dash-append : (s : String) → "-" +++ s ≡ Text.◌∷◌ dash s
dash-append s = cons-append dash Text.[] s ∙ ap (Text.◌∷◌ dash) (nil-append s)

join_dash-push_front :
    (c : Char) (parts : List String) → join_dash (push_front c parts) ≡ Text.◌∷◌ c (join_dash parts)
unfolding join_dash push_front
join_dash-push_front c [] = refl
join_dash-push_front c (p ∷ []) = refl
join_dash-push_front c (p ∷ q ∷ ps) = cons-append c p ("-" +++ join_dash (q ∷ ps))

join_dash-cons :
    (p : String) (parts : List String)
    → NonEmpty parts
    → join_dash (p ∷ parts) ≡ p +++ ("-" +++ join_dash parts)
unfolding join_dash
join_dash-cons p parts (q, ps, e) = rw e refl

join_dash-split : (s : String) → join_dash (split s) ≡ s
unfolding split
join_dash-split Text.[] = unfold join_dash in refl
join_dash-split (Text.◌∷◌ c s) = elim (Bool-cases (is_dash c)) [
  | inl e ↦ rw e (
      join_dash-cons "" (split s) (split-NonEmpty s)
      ∙ nil-append ("-" +++ join_dash (split s))
      ∙ dash-append (join_dash (split s))
      ∙ ap (Text.◌∷◌ dash) (join_dash-split s)
      ∙ ap (λ (d : Char). Text.◌∷◌ d s) (sym (dash_of_test c e)))
  | inr e ↦ rw e (join_dash-push_front c (split s) ∙ ap (Text.◌∷◌ c) (join_dash-split s))
]

split_without_dash : (s : String) → has_dash s ≡ false → split s ≡ s ∷ []
unfolding split push_front
split_without_dash Text.[] h = refl
split_without_dash (Text.◌∷◌ c s) h = elim (Bool-cases (is_dash c)) [
  | inl e ↦ ground arith
  | inr e ↦ rw (e, split_without_dash s (ground arith)) refl
]

push_front-append :
    (c : Char) (parts : List String) (j : String)
    → NonEmpty parts
    → push_front c (parts ++ j ∷ []) ≡ push_front c parts ++ j ∷ []
unfolding push_front
push_front-append c parts j (p, ps, e) = rw e refl

split-dash : (s : String) → split (Text.◌∷◌ dash s) ≡ "" ∷ split s
unfolding split
split-dash s = refl

split_cons_dash : (c : Char) (s : String) → is_dash c ≡ true → split (Text.◌∷◌ c s) ≡ "" ∷ split s
unfolding split
split_cons_dash c s e = rw e refl

split_cons :
    (c : Char) (s : String) → is_dash c ≡ false → split (Text.◌∷◌ c s) ≡ push_front c (split s)
unfolding split
split_cons c s e = rw e refl

-- The last part is what follows the last separator.
split-append :
    (b j : String) → has_dash j ≡ false → split (scheduled_job_name b j) ≡ split b ++ j ∷ []
unfolding scheduled_job_name
split-append Text.[] j h =
    ap split (nil-append ("-" +++ j) ∙ dash-append j)
    ∙ split-dash j
    ∙ ap (λ (ps : List String). "" ∷ ps) (split_without_dash j h)
    ∙ unfold split in refl
split-append (Text.◌∷◌ c b) j h = elim (Bool-cases (is_dash c)) [
  | inl e ↦
      ap split (cons-append c b ("-" +++ j))
      ∙ split_cons_dash c (scheduled_job_name b j) e
      ∙ ap (λ (ps : List String). "" ∷ ps) (split-append b j h)
      ∙ ap (λ (ps : List String). ps ++ j ∷ []) (sym (split_cons_dash c b e))
  | inr e ↦
      ap split (cons-append c b ("-" +++ j))
      ∙ split_cons c (scheduled_job_name b j) e
      ∙ ap (push_front c) (split-append b j h)
      ∙ push_front-append c (split b) j (split-NonEmpty b)
      ∙ ap (λ (ps : List String). ps ++ j ∷ []) (sym (split_cons c b e))
]

without_last-append : (parts : List String) (j : String) → without_last (parts ++ j ∷ []) ≡ parts
unfolding without_last
without_last-append [] j = refl
without_last-append (p ∷ []) j = refl
without_last-append (p ∷ q ∷ ps) j =
    ap (λ (r : List String). p ∷ r) (without_last-append (q ∷ ps) j)

last_part-append : (parts : List String) (j : String) → last_part (parts ++ j ∷ []) ≡ j
unfolding last_part
last_part-append [] j = refl
last_part-append (p ∷ []) j = refl
last_part-append (p ∷ q ∷ ps) j = last_part-append (q ∷ ps) j

two_parts :
    (parts : List String) (j : String) → NonEmpty parts → ltb (length (parts ++ j ∷ [])) 2 ≡ false
two_parts parts j (p, [], e) = rw e refl
two_parts parts j (p, q ∷ ps, e) = rw e (ground arith)

parse-scheduled_job_name :
    (b j : String)
    → has_dash j ≡ false
    → parse_batch_and_job_name (scheduled_job_name b j) ≡ some (b, j)
unfolding parse_batch_and_job_name
parse-scheduled_job_name b j h = rw (split-append b j h) (
    rw (two_parts (split b) j (split-NonEmpty b)) (
      rw (without_last-append (split b) j)
        (rw (last_part-append (split b) j) (rw (join_dash-split b) refl))))

push_front_last :
    (c : Char) (parts : List String)
    → is_dash c ≡ false
    → has_dash (last_part parts) ≡ false
    → has_dash (last_part (push_front c parts)) ≡ false
unfolding push_front last_part
push_front_last c [] e h = rw e refl
push_front_last c (p ∷ []) e h = rw (e, h) refl
push_front_last c (p ∷ q ∷ ps) e h = h

last_part_cons :
    (p : String) (parts : List String) → NonEmpty parts → last_part (p ∷ parts) ≡ last_part parts
unfolding last_part
last_part_cons p parts (q, ps, e) = rw e refl

has_dash-last_part : (s : String) → has_dash (last_part (split s)) ≡ false
has_dash-last_part Text.[] = unfold split last_part in refl
has_dash-last_part (Text.◌∷◌ c s) = elim (Bool-cases (is_dash c)) [
  | inl e ↦
      rw (split_cons_dash c s e)
        (rw (last_part_cons "" (split s) (split-NonEmpty s)) (has_dash-last_part s))
  | inr e ↦ rw (split_cons c s e) (push_front_last c (split s) e (has_dash-last_part s))
]

join_without_last :
    (parts : List String)
    → ltb (length parts) 2 ≡ false
    → join_dash parts ≡ scheduled_job_name (join_dash (without_last parts)) (last_part parts)
unfolding join_dash without_last last_part scheduled_job_name
join_without_last [] h = cc
join_without_last (p ∷ []) h = cc
join_without_last (p ∷ q ∷ []) h = refl
join_without_last (p ∷ q ∷ r ∷ ps) h =
    ap (λ (t : String). p +++ ("-" +++ t)) (join_without_last (q ∷ r ∷ ps) (ground arith))
    ∙ simp (append_assoc)

parsed_parts :
    (s b j : String)
    → parse_batch_and_job_name s ≡ some (b, j)
    → (ltb (length (split s)) 2 ≡ false)
      × (join_dash (without_last (split s)) ≡ b)
      × (last_part (split s) ≡ j)
unfolding parse_batch_and_job_name
parsed_parts s b j h = ground arith

-- The parse gives a batch and a job exactly if the name is the one that is composed from them and
-- the name of the job has no dash; the name of the batch may have any.
pub parse_batch_and_job_name_iff :
    (s b j : String)
    → (parse_batch_and_job_name s ≡ some (b, j))
      ↔ ((s ≡ scheduled_job_name b j) × (has_dash j ≡ false))
parse_batch_and_job_name_iff s b j = (
  λ h.
      let (several, eb, ej) = parsed_parts s b j h in
      (
        sym (join_dash-split s)
            ∙ join_without_last (split s) several
            ∙ ap (λ (t : String). scheduled_job_name t (last_part (split s))) eb
            ∙ ap (scheduled_job_name b) ej,
        rw (← ej) (has_dash-last_part s),
      ),
  λ (e, clean). rw e (parse-scheduled_job_name b j clean),
)
