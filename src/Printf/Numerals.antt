-- ===== src/Printf/Numerals.antt =====
-- Numerals of the numbers that print_uint of src/kernel/vga.c prints.
use alma_os.Base.{
  ℕ, zero, suc, List, [], ◌∷◌, ◌++◌, true, ◌+◌, ◌-◌, ◌*◌, ◌/◌, ◌<◌, ◌≤◌, ◌%◌, ◌^◌, ◌==◌, ltb,
  if◌then◌else◌, length, length-append, replicate, ◌≡◌, refl, sym, arith, ==_ne,
}
use native.Mathlib.Decide.{ℕ_discrete}
use native.Mathlib.Nat.{pow-zero, pow-suc, div-lt_iff_lt-mul, mod-lt, div-add-mod'}
use alma_os.Printf.{digit_code}

-- The digits of a number, the highest first; 0 has none.
unfoldable pub digits_of : ℕ → ℕ → ℕ → List ℕ
digits_of zero base val = []
digits_of (suc n) base val =
    if val == 0 then [] else digits_of n base (val / base) ++ (digit_code (val % base) ∷ [])

unfoldable pub numeral : ℕ → ℕ → List ℕ
numeral base val = if val == 0 then b'0' ∷ [] else digits_of 32 base val

-- A numeral in at least `width` cells.
unfoldable pub number : ℕ → ℕ → ℕ → ℕ → List ℕ
number val base width pad = replicate (width - length (numeral base val)) pad ++ numeral base val

-- What a numeral is worth: as `strtoul` reads it.
unfoldable pub digit_value : ℕ → ℕ
digit_value c = if ltb c b'a' then c - b'0' else c - b'a' + 10

unfoldable pub value_from : ℕ → ℕ → List ℕ → ℕ
value_from base acc [] = acc
value_from base acc (c ∷ cs) = value_from base (acc * base + digit_value c) cs

digit_value-digit_code : (d : ℕ) → d < 16 → digit_value (digit_code d) ≡ d
unfolding digit_value digit_code
digit_value-digit_code d h = ground arith

pub value_from-snoc :
    (cs : List ℕ) (base acc c : ℕ)
    → value_from base acc (cs ++ (c ∷ [])) ≡ value_from base acc cs * base + digit_value c
unfolding value_from
value_from-snoc [] base acc c = refl
value_from-snoc (x ∷ cs) base acc c = value_from-snoc cs base (acc * base + digit_value x) c

-- Division by a base from 2 on makes a number that is not 0 smaller.
pub quotient_less : (val base n : ℕ) → 2 ≤ base → val < base ^ suc n → val / base < base ^ n
quotient_less val base n two h =
    (div-lt_iff_lt-mul (omega (arith, two))).1 (rw (← pow-suc base n) h)

pub below_one : (base val : ℕ) → val < base ^ 0 → val ≡ 0
below_one base val h = let one : val < 1 = rw (← pow-zero base) h in omega (arith, one)

pub digits_of-value :
    (n base val : ℕ)
    → 2 ≤ base
    → base ≤ 16
    → val < base ^ n
    → value_from base 0 (digits_of n base val) ≡ val
unfolding digits_of value_from
digits_of-value zero base val two sixteen h = sym (below_one base val h)
digits_of-value (suc n) base val two sixteen h = elim (ℕ_discrete val 0) [
  | yes e ↦ rw (nothing val e, e) refl
  | no ne ↦
      rw
        (
          ==_ne val 0 ne,
          value_from-snoc (digits_of n base (val / base)) base 0 (digit_code (val % base)),
          digits_of-value n base (val / base) two sixteen (quotient_less val base n two h),
          digit_value-digit_code (val % base)
              (omega (arith, mod-lt val {m = base} (omega (arith, two)), sixteen)),
        )
        (div-add-mod' val base)
]
  where
    nothing : (v : ℕ) → v ≡ 0 → (v == 0) ≡ true
    nothing v e = ground arith

-- `k` digits are enough below `base ^ k`.
pub length-digits_of :
    (n base val k : ℕ) → 2 ≤ base → val < base ^ k → length (digits_of n base val) ≤ k
unfolding digits_of
length-digits_of zero base val k two h = omega arith
length-digits_of (suc n) base val zero two h =
    rw (nothing val (rw (← pow-zero base) h)) (omega arith)
  where
    nothing : (v : ℕ) → v < 1 → (v == 0) ≡ true
    nothing v e = ground arith
length-digits_of (suc n) base val (suc k) two h = elim (ℕ_discrete val 0) [
  | yes e ↦ rw (nothing val e) (omega arith)
  | no ne ↦
      rw
        (
          ==_ne val 0 ne,
          length-append (digits_of n base (val / base)) (digit_code (val % base) ∷ []),
        )
        (omega (arith, length-digits_of n base (val / base) k two (quotient_less val base k two h)))
]
  where
    nothing : (v : ℕ) → v ≡ 0 → (v == 0) ≡ true
    nothing v e = ground arith
