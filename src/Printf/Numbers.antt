-- ===== src/Printf/Numbers.antt =====
-- `print_uint` of src/kernel/vga.c against numerals: what its buffer holds, and when it overflows.
use alma_os.Base.{
  ℕ, zero, suc, List, [], ◌∷◌, ◌++◌, none, some, ◌+◌, ◌-◌, ◌/◌, ◌<◌, ◌≤◌, ◌%◌, ◌^◌, ◌==◌,
  if◌then◌else◌, length, length-append, replicate, ◌≡◌, refl, sym, ap, ◌∙◌, arith, ==_ne, ==_iff,
  ◌≢◌, ◌⊎◌, inl, inr,
}
use mathlib.Core.List.{append-nil, append_assoc}
use native.Mathlib.Decide.{ℕ_discrete, dec_lt}
use alma_os.Printf.{push, digit_code, push_digits, push_pad, print_uint}
use alma_os.Printf.Numerals.{
  digits_of, numeral, number, digit_value, value_from, quotient_less, below_one, digits_of-value,
  length-digits_of,
}

push-room : (c : ℕ) (buf : List ℕ) → length buf < 12 → push c buf ≡ some (c ∷ buf)
unfolding push
push-room c buf h = ground arith

push-full : (c : ℕ) (buf : List ℕ) → 12 ≤ length buf → push c buf ≡ none
unfolding push
push-full c buf h = ground arith

digits_of-step :
    (n base val : ℕ)
    → val ≢ 0
    → digits_of (suc n) base val ≡ digits_of n base (val / base) ++ (digit_code (val % base) ∷ [])
unfolding digits_of
digits_of-step n base val ne = rw (==_ne val 0 ne) refl

digits_of-nothing : (n base val : ℕ) → val ≡ 0 → digits_of n base val ≡ []
unfolding digits_of
digits_of-nothing zero base val e = refl
digits_of-nothing (suc n) base val e = rw ((==_iff val 0).1 e) refl

push_digits-step :
    (n base val : ℕ) (buf : List ℕ)
    → val ≢ 0
    → length buf < 12
    → push_digits (suc n) base val buf
      ≡ push_digits n base (val / base) (digit_code (val % base) ∷ buf)
unfolding push_digits
push_digits-step n base val buf ne room =
    rw (==_ne val 0 ne, push-room (digit_code (val % base)) buf room) refl

push_digits-nothing :
    (n base val : ℕ) (buf : List ℕ) → val ≡ 0 → push_digits (suc n) base val buf ≡ some buf
unfolding push_digits
push_digits-nothing n base val buf e = rw ((==_iff val 0).1 e) refl

-- The first loop pushes the digits from the lowest on.
push_digits_lem :
    (n base val : ℕ) (buf : List ℕ)
    → 2 ≤ base
    → val < base ^ n
    → length (digits_of n base val) + length buf ≤ 12
    → push_digits (suc n) base val buf ≡ some (digits_of n base val ++ buf)
push_digits_lem zero base val buf two h room =
    rw
      (
        push_digits-nothing 0 base val buf (below_one base val h),
        digits_of-nothing 0 base val (below_one base val h),
      )
      refl
push_digits_lem (suc n) base val buf two h room = elim (ℕ_discrete val 0) [
  | yes e ↦
      rw (push_digits-nothing (suc n) base val buf e, digits_of-nothing (suc n) base val e) refl
  | no ne ↦
      let rest = digits_of n base (val / base) in
      let digit = digit_code (val % base) in
      let size : length (digits_of (suc n) base val) ≡ length rest + 1 =
        ap length (digits_of-step n base val ne) ∙ length-append rest (digit ∷ []) in
      rw
        (
          push_digits-step (suc n) base val buf ne (omega (arith, size, room)),
          digits_of-step n base val ne,
        )
        (push_digits_lem n base (val / base) (digit ∷ buf) two (quotient_less val base n two h)
            (omega (arith, size, room))
          ∙ ap some (sym (append_assoc rest (digit ∷ []) buf)))
]

push_pad_lem :
    (n pad : ℕ) (buf : List ℕ)
    → n + length buf ≤ 12
    → push_pad n pad buf ≡ some (replicate n pad ++ buf)
unfolding push_pad
push_pad_lem zero pad buf room = refl
push_pad_lem (suc n) pad buf room =
    rw (push-room pad buf (omega (arith, room)))
      (push_pad_lem n pad (pad ∷ buf) (omega (arith, room)) ∙ ap some (replicate-cons n pad buf))
  where
    replicate-cons :
        (n pad : ℕ) (buf : List ℕ) → replicate n pad ++ (pad ∷ buf) ≡ replicate (suc n) pad ++ buf
    replicate-cons zero pad buf = refl
    replicate-cons (suc n) pad buf = ap (λ r. pad ∷ r) (replicate-cons n pad buf)

push_pad-full :
    (n pad : ℕ) (buf : List ℕ) → 12 < n + length buf → length buf ≤ 12 → push_pad n pad buf ≡ none
unfolding push_pad
push_pad-full zero pad buf over h = absurd (omega (arith, over, h))
push_pad-full (suc n) pad buf over h = elim (dec_lt (length buf) 12) [
  | yes room ↦
      rw (push-room pad buf room)
        (push_pad-full n pad (pad ∷ buf) (omega (arith, over)) (omega (arith, room)))
  | no full ↦ rw (push-full pad buf (omega (arith, full))) refl
]

-- The bases that the code uses.
abbrev pub IsBase : ℕ → Type 0
IsBase base = (base ≡ 10) ⊎ (base ≡ 16)

base-bounds :
    (val base : ℕ)
    → IsBase base
    → val < 2 ^ 32
    → (2 ≤ base) × (base ≤ 16) × (val < base ^ 32) × (val < base ^ 10)
base-bounds val base (inl e) h = rw e (omega arith, omega arith, omega (arith, h), omega (arith, h))
base-bounds val base (inr e) h = rw e (omega arith, omega arith, omega (arith, h), omega (arith, h))

numeral-value :
    (val base : ℕ) → IsBase base → val < 2 ^ 32 → value_from base 0 (numeral base val) ≡ val
unfolding numeral
numeral-value val base b h = elim (ℕ_discrete val 0) [
  | yes e ↦ rw ((==_iff val 0).1 e) (unfold value_from digit_value in omega (arith, e))
  | no ne ↦
      let (two, sixteen, fits, _) = base-bounds val base b h in
      rw (==_ne val 0 ne) (digits_of-value 32 base val two sixteen fits)
]

length-numeral : (val base : ℕ) → IsBase base → val < 2 ^ 32 → length (numeral base val) ≤ 10
unfolding numeral
length-numeral val base b h = elim (ℕ_discrete val 0) [
  | yes e ↦ rw ((==_iff val 0).1 e) (omega arith)
  | no ne ↦
      let (two, _, _, small) = base-bounds val base b h in
      rw (==_ne val 0 ne) (length-digits_of 32 base val 10 two small)
]

-- `while (val)` on a 32-bit number has room, in either base.
print_digits :
    (val base : ℕ)
    → IsBase base
    → val < 2 ^ 32
    → (if val == 0 then push b'0' [] else push_digits 33 base val []) ≡ some (numeral base val)
unfolding numeral
print_digits val base b h = elim (ℕ_discrete val 0) [
  | yes e ↦ rw ((==_iff val 0).1 e) (push-room b'0' [] (omega arith))
  | no ne ↦
      let (two, _, fits, small) = base-bounds val base b h in
      let room = length-digits_of 32 base val 10 two small in
      rw (==_ne val 0 ne) (
        push_digits_lem 32 base val [] two fits (omega (arith, room))
        ∙ ap some (append-nil (digits_of 32 base val)))
]

-- A 32-bit number in a field of at most 12 cells fits the buffer, and the output is its numeral,
-- which is worth the number, in at least `width` cells.
pub print_uint-number :
    (val base width pad : ℕ)
    → IsBase base
    → val < 2 ^ 32
    → width ≤ 12
    → (print_uint val base width pad ≡ some (number val base width pad))
      × (value_from base 0 (numeral base val) ≡ val)
unfolding print_uint number
print_uint-number val base width pad b h w = (
  rw (print_digits val base b h) (
      push_pad_lem (width - length (numeral base val)) pad (numeral base val)
        (omega (arith, length-numeral val base b h, w))),
  numeral-value val base b h,
)

-- A field of more than 12 cells writes past the buffer.
pub print_uint-overflow :
    (val base width pad : ℕ)
    → IsBase base
    → val < 2 ^ 32
    → 12 < width
    → print_uint val base width pad ≡ none
unfolding print_uint
print_uint-overflow val base width pad b h w = rw (print_digits val base b h) (
    push_pad-full (width - length (numeral base val)) pad (numeral base val)
      (omega (arith, length-numeral val base b h, w)) (omega (arith, length-numeral val base b h)))
