-- ===== src/Stdio/Numbers.antt =====
-- `printf_number` of src/bootloader/stage2/stdio.c against numerals.
use alma_os.Base.{
  ℕ, zero, suc, List, [], ◌∷◌, ◌++◌, Bool, true, false, not, some, ◌+◌, ◌-◌, ◌*◌, ◌/◌, ◌%◌, ◌^◌,
  ◌<◌, ◌≤◌, ◌==◌, ==_ne, ==_iff, ltb, if◌then◌else◌, ◌>>=◌, length, length-append, checked_below,
  checked_below-at, ◌≡◌, ◌≢◌, ◌⊎◌, inl, inr, refl, sym, ap, ◌∙◌, arith, Bool-cases,
}
use mathlib.Core.List.{append_assoc, append-nil}
use mathlib.Core.Path.{subst}
use native.Mathlib.Decide.{ℕ_discrete}
use native.Mathlib.Nat.{pow-zero, mod-lt, div-add-mod'}
use alma_os.Printf.Numerals.{digit_value, value_from, value_from-snoc, quotient_less}
use alma_os.Stdio.{
  Console, Length, words_of, fetch, magnitude, hex_char, push, push_digits, number_text, put_all,
  printf_number,
}

hex_char-value : (d : ℕ) → d < 16 → digit_value (hex_char d) ≡ d
hex_char-value d h = (==_iff (digit_value (hex_char d)) d).0 (checked_below-at 16 right d all h)
  where
    right : ℕ → Bool
    right k = digit_value (hex_char k) == k

    all : checked_below 16 right ≡ true
    all = unfold checked_below digit_value hex_char in refl

push-room : (c : ℕ) (buffer : List ℕ) → length buffer < 32 → push c buffer ≡ some (c ∷ buffer)
unfolding push
push-room c buffer h = ground arith

-- The digits of a number, in the order in which they are read.
record IsDigits (radix number k : ℕ) (digits : List ℕ) : Type 0 where
  worth : value_from radix 0 digits ≡ number
  some_digit : 0 < length digits
  short : length digits ≤ suc k

push_digits-one :
    (fuel radix number : ℕ) (buffer : List ℕ)
    → length buffer < 32
    → number / radix ≡ 0
    → push_digits (suc fuel) radix number buffer ≡ some (hex_char (number % radix) ∷ buffer)
unfolding push_digits
push_digits-one fuel radix number buffer room e =
    let last : ltb 0 (number / radix) ≡ false = ground arith in
    rw (push-room (hex_char (number % radix)) buffer room, last) refl

push_digits-more :
    (fuel radix number : ℕ) (buffer : List ℕ)
    → length buffer < 32
    → number / radix ≢ 0
    → push_digits (suc fuel) radix number buffer
      ≡ push_digits fuel radix (number / radix) (hex_char (number % radix) ∷ buffer)
unfolding push_digits
push_digits-more fuel radix number buffer room ne =
    let more : ltb 0 (number / radix) ≡ true = ground arith in
    rw (push-room (hex_char (number % radix)) buffer room, more) refl

-- A number and its last digit.
value_from-digit :
    (digits : List ℕ) (radix number : ℕ)
    → 2 ≤ radix
    → radix ≤ 16
    → value_from radix 0 digits ≡ number / radix
    → value_from radix 0 (digits ++ (hex_char (number % radix) ∷ [])) ≡ number
value_from-digit digits radix number two sixteen e =
    let small : number % radix < 16 =
      omega (arith, mod-lt number {m = radix} (omega (arith, two)), sixteen) in
    value_from-snoc digits radix 0 (hex_char (number % radix))
    ∙ rw (e, hex_char-value (number % radix) small) (div-add-mod' number radix)

IsDigits-one :
    (k radix number : ℕ)
    → 2 ≤ radix
    → radix ≤ 16
    → number / radix ≡ 0
    → IsDigits radix number k (hex_char (number % radix) ∷ [])
unfolding value_from
IsDigits-one k radix number two sixteen e = record {
  worth = value_from-digit [] radix number two sixteen (sym e);
  some_digit = omega arith;
  short = omega arith;
}

push_digits-IsDigits :
    (k fuel radix number : ℕ) (buffer : List ℕ)
    → 2 ≤ radix
    → radix ≤ 16
    → number < radix ^ suc k
    → k < fuel
    → length buffer + k < 32
    → (digits : List ℕ) × (push_digits fuel radix number buffer ≡ some (digits ++ buffer))
      × IsDigits radix number k digits
push_digits-IsDigits k zero radix number buffer two sixteen below enough room =
    absurd (omega (arith, enough))
push_digits-IsDigits zero (suc fuel) radix number buffer two sixteen below enough room =
    let one : number / radix < 1 =
      subst (λ (n : ℕ). number / radix < n) (pow-zero radix)
        (quotient_less number radix 0 two below) in
    let e : number / radix ≡ 0 = omega (arith, one) in
    (
      hex_char (number % radix) ∷ [],
      push_digits-one fuel radix number buffer (omega (arith, room)) e,
      IsDigits-one 0 radix number two sixteen e,
    )
push_digits-IsDigits (suc k) (suc fuel) radix number buffer two sixteen below enough room =
    let digit = hex_char (number % radix) in
    elim (ℕ_discrete (number / radix) 0) [
      | yes e ↦ (
        digit ∷ [],
        push_digits-one fuel radix number buffer (omega (arith, room)) e,
        IsDigits-one (suc k) radix number two sixteen e,
      )
      | no ne ↦
          let (digits, e, d) =
            push_digits-IsDigits k fuel radix (number / radix) (digit ∷ buffer) two sixteen
              (quotient_less number radix (suc k) two below) (omega (arith, enough))
              (omega (arith, room)) in
          (
            digits ++ (digit ∷ []),
            push_digits-more fuel radix number buffer (omega (arith, room)) ne
                ∙ (e ∙ ap some (sym (append_assoc digits (digit ∷ []) buffer))),
            record {
              worth = value_from-digit digits radix number two sixteen d.worth;
              some_digit = omega (arith, length-append digits (digit ∷ []), d.some_digit);
              short = omega (arith, length-append digits (digit ∷ []), d.short);
            },
          )
    ]

-- The radices of the code.
abbrev pub IsRadix : ℕ → Type 0
IsRadix radix = (radix ≡ 8) ⊎ ((radix ≡ 10) ⊎ (radix ≡ 16))

IsRadix-bounds :
    (radix n : ℕ) → IsRadix radix → n < 2 ^ 64 → (2 ≤ radix) × (radix ≤ 16) × (n < radix ^ 22)
IsRadix-bounds radix n (inl e) h = rw e (omega arith, omega arith, omega (arith, h))
IsRadix-bounds radix n (inr (inl e)) h = rw e (omega arith, omega arith, omega (arith, h))
IsRadix-bounds radix n (inr (inr e)) h = rw e (omega arith, omega arith, omega (arith, h))

-- A numeral with a value, behind a sign if it is negative, within the buffer.
pub record IsNumeral (radix : ℕ) (negative : Bool) (value : ℕ) (text : List ℕ) : Type 0 where
  pub digits : List ℕ
  pub signed : text ≡ (if negative then b'-' ∷ digits else digits)
  pub worth : value_from radix 0 digits ≡ value
  pub some_digit : 0 < length digits
  pub fits : length text ≤ 32

-- The sign is written in front.
with_sign :
    (radix n : ℕ) (negative : Bool) (buffer : List ℕ)
    → IsDigits radix n 21 buffer
    → (text : List ℕ) × ((if negative then push b'-' buffer else some buffer) ≡ some text)
      × IsNumeral radix negative n text
with_sign radix n true buffer d = (
  b'-' ∷ buffer,
  push-room b'-' buffer (omega (arith, d.short)),
  record {
    digits = buffer;
    signed = refl;
    worth = d.worth;
    some_digit = d.some_digit;
    fits = omega (arith, d.short);
  },
)
with_sign radix n false buffer d = (
  buffer,
  refl,
  record {
    digits = buffer;
    signed = refl;
    worth = d.worth;
    some_digit = d.some_digit;
    fits = omega (arith, d.short);
  },
)

number_text-IsNumeral :
    (radix n : ℕ) (negative : Bool)
    → IsRadix radix
    → n < 2 ^ 64
    → (text : List ℕ) × (number_text radix (negative, n) ≡ some text)
      × IsNumeral radix negative n text
unfolding number_text
number_text-IsNumeral radix n negative r small =
    let (two, sixteen, below) = IsRadix-bounds radix n r small in
    let (digits, e, d) =
      push_digits-IsDigits 21 33 radix n [] two sixteen below (omega arith) (omega arith) in
    let (text, e', t) = with_sign radix n negative digits d in
    (
      text,
      ap (λ o. o >>= λ buffer. if negative then push b'-' buffer else some buffer)
            (e ∙ ap some (append-nil digits))
          ∙ e',
      t,
    )

-- The bits of an argument.
abbrev pub bits_of : Length → ℕ
bits_of size = 16 * words_of size

-- The number that stands in `bits` bits, as a sign and a value.
abbrev pub is_negative : ℕ → ℕ → Bool
is_negative bits n = not (ltb n (2 ^ (bits - 1)))

abbrev pub absolute : ℕ → ℕ → ℕ
absolute bits n = if is_negative bits n then 2 ^ bits - n else n

magnitude-absolute :
    (bits n : ℕ) → n ≢ 2 ^ (bits - 1) → magnitude bits n ≡ (is_negative bits n, absolute bits n)
unfolding magnitude
magnitude-absolute bits n ne = elim (Bool-cases (ltb n (2 ^ (bits - 1)))) [
  | inl e ↦ rw e refl
  | inr e ↦ rw (e, ==_ne n (2 ^ (bits - 1)) ne) refl
]

bits-bound : (size : Length) (n : ℕ) → n < 2 ^ bits_of size → n < 2 ^ 64
unfolding words_of
bits-bound Length.default n h = omega (arith, h)
bits-bound Length.short_short n h = omega (arith, h)
bits-bound Length.short n h = omega (arith, h)
bits-bound Length.long n h = omega (arith, h)
bits-bound Length.long_long n h = omega (arith, h)

absolute-bound : (size : Length) (n : ℕ) → n < 2 ^ bits_of size → absolute (bits_of size) n < 2 ^ 64
unfolding words_of
absolute-bound Length.default n h = ground arith
absolute-bound Length.short_short n h = ground arith
absolute-bound Length.short n h = ground arith
absolute-bound Length.long n h = ground arith
absolute-bound Length.long_long n h = ground arith

-- `printf_number` takes the words of its argument and prints the number that stands in them: without
-- a sign its digits in the radix, with one those of its absolute value behind a minus if it is
-- negative. The most negative number is left out. The digits fit in the buffer.
pub printf_number-IsNumeral :
    (args rest : List ℕ) (size : Length) (radix n : ℕ) (con : Console)
    → IsRadix radix
    → fetch (words_of size) args ≡ some (n, rest)
    → n < 2 ^ bits_of size
    → n ≢ 2 ^ (bits_of size - 1)
    → ((text : List ℕ) × (printf_number args size false radix con ≡ some (put_all text con, rest))
        × IsNumeral radix false n text)
      × ((text : List ℕ) × (printf_number args size true radix con ≡ some (put_all text con, rest))
          × IsNumeral radix (is_negative (bits_of size) n) (absolute (bits_of size) n) text)
unfolding printf_number
printf_number-IsNumeral args rest size radix n con r found small ne =
    let (plain, e, t) = number_text-IsNumeral radix n false r (bits-bound size n small) in
    let bits = bits_of size in
    let (signed, e', t') =
      number_text-IsNumeral radix (absolute bits n) (is_negative bits n) r
        (absolute-bound size n small) in
    (
      (plain, rw (found, e) refl, t),
      (signed, rw (found, magnitude-absolute bits n ne, e') refl, t'),
    )
