-- ===== src/Getopt/Lookup.antt =====
-- Which long option `getopt_long` of src/kernel/getopt.c picks.
use alma_os.Base.{
  ℕ, zero, suc, List, [], ◌∷◌, Bool, true, false, ◌&&◌, Option, none, some, ◌+◌, ◌==◌,
  if◌then◌else◌, length, take, ◌≡◌, ◌↔◌, inl, inr, refl, arith, Bool-cases, ◌∙◌, sym, ap, ==_iff,
  All,
}
use native.Mathlib.Decide.{ℕ_discrete}
use mathlib.Core.Logic.{ite, if_pos, if_neg}
use alma_os.Base.Int.{ℤ, pos, negsuc}
use alma_os.CString.Texts.{differ, differ-zero, differ_self, HasNoZero}
use alma_os.Getopt.{LongOption, is_zero, char_at}
use alma_os.Getopt.Long.{find_equals, one_on, name_length, length_up_to, names_match, find_long}

-- The part of a token before its first `=`, or all of it.
unfoldable pub before_equals : List ℕ → List ℕ
before_equals [] = []
before_equals (c ∷ cs) = if c == b'=' then [] else c ∷ before_equals cs

pub texts_discrete : Discrete (List ℕ)
texts_discrete = hlevel ℕ_discrete

-- The first option of that very name, and its index.
unfoldable pub first_named : List LongOption → List ℕ → ℕ → Option (ℕ × LongOption)
first_named [] wanted i = none
first_named (o ∷ os) wanted i =
    ite (texts_discrete o.name wanted) (some (i, o)) (first_named os wanted (i + 1))

take-length : (name : List ℕ) → take (length name) name ≡ name
take-length [] = refl
take-length (c ∷ cs) = ap (λ r. c ∷ r) (take-length cs)

take-one_on :
    (o : Option (ℕ × List ℕ)) (c : ℕ) (cs : List ℕ)
    → take (length_up_to (one_on o) (c ∷ cs)) (c ∷ cs) ≡ c ∷ take (length_up_to o cs) cs
unfolding one_on length_up_to
take-one_on none c cs = refl
take-one_on (some (i, eq)) c cs = ap (λ k. take k (c ∷ cs)) (suc_form i)
  where
    suc_form : (i : ℕ) → i + 1 ≡ suc i
    suc_form i = omega arith

take-up_to_stop :
    (c : ℕ) (cs : List ℕ)
    → c == b'=' ≡ true
    → take (length_up_to (find_equals (c ∷ cs)) (c ∷ cs)) (c ∷ cs) ≡ []
unfolding find_equals length_up_to
take-up_to_stop c cs e = rw e refl

take-up_to_go :
    (c : ℕ) (cs : List ℕ)
    → c == b'=' ≡ false
    → take (length_up_to (find_equals (c ∷ cs)) (c ∷ cs)) (c ∷ cs)
      ≡ c ∷ take (length_up_to (find_equals cs) cs) cs
unfolding find_equals
take-up_to_go c cs e = rw e (take-one_on (find_equals cs) c cs)

take-up_to : (name : List ℕ) → take (length_up_to (find_equals name) name) name ≡ before_equals name
unfolding before_equals
take-up_to [] = unfold find_equals length_up_to in refl
take-up_to (c ∷ cs) = elim (Bool-cases (c == b'=')) [
  | inl e ↦ take-up_to_stop c cs e ∙ rw e refl
  | inr ne ↦ take-up_to_go c cs ne ∙ rw ne (ap (λ r. c ∷ r) (take-up_to cs))
]

take-name_length : (name : List ℕ) → take (name_length name) name ≡ before_equals name
unfolding name_length
take-name_length name = take-up_to name

HasNoZero-take : (n : ℕ) (cs : List ℕ) → HasNoZero cs → HasNoZero (take n cs)
HasNoZero-take zero cs h = tt
HasNoZero-take (suc n) [] h = tt
HasNoZero-take (suc n) (c ∷ cs) h = (h.0, HasNoZero-take n cs h.1)

take_all : (n : ℕ) (cs : List ℕ) → HasNoZero cs → char_at cs n ≡ 0 → take n cs ≡ cs
take_all zero [] h e = refl
take_all zero (c ∷ cs) h e = absurd (h.0 e)
take_all (suc n) [] h e = refl
take_all (suc n) (c ∷ cs) h e = ap (λ r. c ∷ r) (take_all n cs h.1 e)

take-take : (n : ℕ) (cs : List ℕ) → take n (take n cs) ≡ take n cs
take-take zero cs = refl
take-take (suc n) [] = refl
take-take (suc n) (c ∷ cs) = ap (λ r. c ∷ r) (take-take n cs)

char_at-take : (n : ℕ) (cs : List ℕ) → char_at (take n cs) n ≡ 0
char_at-take zero cs = refl
char_at-take (suc n) [] = refl
char_at-take (suc n) (c ∷ cs) = char_at-take n cs

pub is_zero-true : (z : ℤ) → is_zero z ≡ true → z ≡ pos 0
is_zero-true (pos n) h = ap pos ((==_iff n 0).0 h)
is_zero-true (negsuc n) h = cc

and_parts : (a b : Bool) → a && b ≡ true → (a ≡ true) × (b ≡ true)
and_parts true b h = (refl, h)
and_parts false b h = cc

not_true : (b : Bool) → (b ≡ true → ⊥) → b ≡ false
not_true true h = absurd (h refl)
not_true false h = refl

-- The test of `getopt_long` is equality of the option's name with the first `n` characters.
names_match_iff :
    (a name : List ℕ) (n : ℕ)
    → HasNoZero a
    → HasNoZero name
    → (names_match a name n ≡ true) ↔ (a ≡ take n name)
unfolding names_match
names_match_iff a name n p q = (there, back)
  where
    there : is_zero (differ (take n a) (take n name)) && char_at a n == 0 ≡ true → a ≡ take n name
    there h =
        let (same, ends) =
          and_parts (is_zero (differ (take n a) (take n name))) (char_at a n == 0) h in
        sym (take_all n a p ((==_iff (char_at a n) 0).0 ends))
        ∙ differ-zero (take n a) (take n name) (HasNoZero-take n a p) (HasNoZero-take n name q)
            (is_zero-true _ same)

    back : a ≡ take n name → is_zero (differ (take n a) (take n name)) && char_at a n == 0 ≡ true
    back e = rw (e, take-take n name, differ_self (take n name), char_at-take n name) refl

find_long-first_named :
    (os : List LongOption) (name : List ℕ) (n i : ℕ)
    → All (λ o. HasNoZero o.name) os
    → HasNoZero name
    → find_long os name n i ≡ first_named os (take n name) i
unfolding find_long first_named
find_long-first_named [] name n i p q = refl
find_long-first_named (o ∷ os) name n i p q = elim (texts_discrete o.name (take n name)) [
  | yes e ↦ rw (if_pos _ e, (names_match_iff o.name name n p.0 q).1 e) refl
  | no ne ↦
      rw (if_neg _ ne, not_true _ (λ h. ne ((names_match_iff o.name name n p.0 q).0 h)))
        (find_long-first_named os name n (i + 1) p.1 q)
]

-- A long option is found by its whole name: `getopt_long` picks the first option whose name is
-- exactly what stands between `--` and the first `=` (or the end), and none otherwise; no
-- abbreviation is accepted.
pub find_long-exact :
    (os : List LongOption) (name : List ℕ)
    → All (λ o. HasNoZero o.name) os
    → HasNoZero name
    → find_long os name (name_length name) 0 ≡ first_named os (before_equals name) 0
find_long-exact os name p q =
    find_long-first_named os name (name_length name) 0 p q
    ∙ ap (λ w. first_named os w 0) (take-name_length name)
