-- ===== src/Printf/Conversions.antt =====
-- One conversion of `vga_vprintf` in src/kernel/vga.c: its flag, width and length modifier, and the
-- `switch`.
use alma_os.Base.{
  ℕ, List, [], ◌∷◌, ◌++◌, Bool, true, false, Option, none, some, ◌+◌, ◌-◌, ◌*◌, ◌<◌, ◌≤◌, ◌^◌, ◌==◌,
  ltb, leb, if◌then◌else◌, ◌≡◌, ◌≢◌, refl, arith, ==_ne, All, sub32, inl, inr,
}
use native.Mathlib.Decide.{dec_lt}
use alma_os.Printf.{
  Arg, word, word_of, text_of, next_arg, is_digit, read_flag, read_width, skip_long, take_word,
  print_int, convert, directive, percent,
}
use alma_os.Printf.Numbers.{print_uint-number}
use alma_os.Printf.Spec.{
  Conversion, Directive, letter, arguments, shown_text, shown_signed, shown, Is32, width_from,
  flagged, lengthened, spelled, FirstNot0, IsValid, pad_of, output_of, signed, unsigned, hex,
  address, character, text, sign,
}

take_word_lem :
    (n : ℕ) (args : List Arg) (print : ℕ → Option (List ℕ)) (out : List ℕ)
    → print n ≡ some out
    → take_word (word n ∷ args) print ≡ some (out, args)
unfolding take_word next_arg word_of
take_word_lem n args print out e = rw e refl

print_int_lem :
    (n width pad : ℕ)
    → n < 2 ^ 32
    → n ≢ 2 ^ 31
    → width ≤ 12
    → print_int n width pad ≡ some (shown_signed n width pad)
unfolding print_int shown_signed
print_int_lem n width pad h ne w = elim (dec_lt n (2 ^ 31)) [
  | yes pos ↦
      rw (==_ne n (2 ^ 31) ne, positive n pos, below n pos)
        (print_uint-number n 10 width pad (inl refl) h w).0
  | no neg ↦
      rw
        (
          ==_ne n (2 ^ 31) ne,
          negative n (omega (arith, neg)),
          above n (omega (arith, neg)),
          minus n h (omega (arith, neg)),
          narrower width,
          (print_uint-number (2 ^ 32 - n) 10 (width - 1) pad (inl refl) (omega (arith, neg))
              (omega (arith, w))).0,
        )
        refl
]
  where
    positive : (n : ℕ) → n < 2 ^ 31 → leb (2 ^ 31) n ≡ false
    positive n h = ground arith

    below : (n : ℕ) → n < 2 ^ 31 → ltb n (2 ^ 31) ≡ true
    below n h = ground arith

    negative : (n : ℕ) → 2 ^ 31 ≤ n → leb (2 ^ 31) n ≡ true
    negative n h = ground arith

    above : (n : ℕ) → 2 ^ 31 ≤ n → ltb n (2 ^ 31) ≡ false
    above n h = ground arith

    minus : (n : ℕ) → n < 2 ^ 32 → 2 ^ 31 ≤ n → sub32 0 n ≡ 2 ^ 32 - n
    minus n h k = omega arith

    narrower : (w : ℕ) → (if w == 0 then 0 else w - 1) ≡ w - 1
    narrower w = ground arith

convert_lem :
    (k : Conversion) (width pad : ℕ) (args : List Arg)
    → Is32 k
    → width ≤ 12
    → convert (letter k) width pad (arguments k ++ args) ≡ some (shown k width pad, args)
unfolding convert shown
convert_lem (signed n) width pad args h w =
    take_word_lem n args _ _ (print_int_lem n width pad h.0 h.1 w)
convert_lem (unsigned n) width pad args h w =
    take_word_lem n args _ _ (print_uint-number n 10 width pad (inl refl) h w).0
convert_lem (hex n) width pad args h w =
    take_word_lem n args _ _ (print_uint-number n 16 width pad (inr refl) h w).0
convert_lem (address n) width pad args h w =
    take_word_lem n args _ _
      (rw ((print_uint-number n 16 8 b'0' (inr refl) h (omega arith)).0) refl)
convert_lem (character n) width pad args h w = take_word_lem n args _ _ refl
convert_lem (text none) width pad args h w = unfold next_arg text_of shown_text in refl
convert_lem (text (some s)) width pad args h w = unfold next_arg text_of shown_text in refl
convert_lem sign width pad args h w = refl

read_width_lem :
    (cs : List ℕ) (n c : ℕ) (fmt : List ℕ)
    → All (λ d. is_digit d ≡ true) cs
    → is_digit c ≡ false
    → read_width n (cs ++ (c ∷ fmt)) ≡ (width_from n cs, c ∷ fmt)
unfolding read_width width_from
read_width_lem [] n c fmt h stop = rw stop refl
read_width_lem (d ∷ cs) n c fmt h stop =
    rw h.0 (read_width_lem cs (n * 10 + (d - b'0')) c fmt h.1 stop)

letter-not_digit : (k : Conversion) → is_digit (letter k) ≡ false
letter-not_digit (signed n) = refl
letter-not_digit (unsigned n) = refl
letter-not_digit (hex n) = refl
letter-not_digit (address n) = refl
letter-not_digit (character n) = refl
letter-not_digit (text s) = refl
letter-not_digit sign = refl

letter-not_long : (k : Conversion) → (letter k == b'l') ≡ false
letter-not_long (signed n) = refl
letter-not_long (unsigned n) = refl
letter-not_long (hex n) = refl
letter-not_long (address n) = refl
letter-not_long (character n) = refl
letter-not_long (text s) = refl
letter-not_long sign = refl

letter-not_0 : (k : Conversion) → letter k ≢ b'0'
letter-not_0 k e = zero_digit (letter k) e (letter-not_digit k)
  where
    zero_digit : (c : ℕ) → c ≡ b'0' → is_digit c ≡ false → ⊥
    zero_digit c e f = ground arith

FirstNot0-spelled :
    (cells : List ℕ) (long : Bool) (k : Conversion) (fmt : List ℕ)
    → FirstNot0 cells
    → FirstNot0 (cells ++ lengthened long (letter k ∷ fmt))
FirstNot0-spelled [] true k fmt h = omega arith
FirstNot0-spelled [] false k fmt h = letter-not_0 k
FirstNot0-spelled (c ∷ cells) long k fmt h = h

read_flag_lem :
    (zeros : Bool) (fmt : List ℕ)
    → (zeros ≡ false → FirstNot0 fmt)
    → read_flag (flagged zeros fmt) ≡ (if zeros then b'0' else b' ', fmt)
unfolding read_flag
read_flag_lem true fmt h = refl
read_flag_lem false [] h = refl
read_flag_lem false (c ∷ fmt) h = rw (==_ne c b'0' (h refl)) refl

read_width-spelled :
    (cells : List ℕ) (long : Bool) (k : Conversion) (fmt : List ℕ)
    → All (λ c. is_digit c ≡ true) cells
    → read_width 0 (cells ++ lengthened long (letter k ∷ fmt))
      ≡ (width_from 0 cells, lengthened long (letter k ∷ fmt))
read_width-spelled cells true k fmt h = read_width_lem cells 0 b'l' (letter k ∷ fmt) h refl
read_width-spelled cells false k fmt h =
    read_width_lem cells 0 (letter k) fmt h (letter-not_digit k)

skip_long_lem :
    (long : Bool) (k : Conversion) (fmt : List ℕ)
    → skip_long (lengthened long (letter k ∷ fmt)) ≡ letter k ∷ fmt
unfolding skip_long
skip_long_lem true k fmt = refl
skip_long_lem false k fmt = rw (letter-not_long k) refl

pub percent_lem :
    (d : Directive) (fmt : List ℕ) (args : List Arg)
    → IsValid d
    → percent (spelled d fmt) (arguments d.what ++ args) ≡ some (output_of d, fmt, args)
unfolding percent directive
percent_lem d fmt args h =
    rw
      (
        read_flag_lem d.zeros (d.cells ++ lengthened d.long (letter d.what ∷ fmt))
            (λ e. FirstNot0-spelled d.cells d.long d.what fmt (h.no_flag e)),
        read_width-spelled d.cells d.long d.what fmt h.digits,
        skip_long_lem d.long d.what fmt,
        convert_lem d.what (width_from 0 d.cells) (pad_of d) args h.is_32 h.fits,
      )
      refl
