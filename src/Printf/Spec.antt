-- ===== src/Printf/Spec.antt =====
-- What a format of src/kernel/vga.c's printf means: characters and conversions, how they are spelled,
-- which arguments they take and what they print.
use alma_os.Base.{
  ℕ, List, [], ◌∷◌, ◌++◌, Bool, true, false, Option, none, some, ◌+◌, ◌-◌, ◌*◌, ◌<◌, ◌≤◌, ◌%◌, ◌^◌,
  ltb, if◌then◌else◌, ◌≡◌, ◌≢◌, All,
}
use alma_os.Base.Text.{codes}
use alma_os.Printf.{Arg, word, string, is_digit}
use alma_os.Printf.Numerals.{number}

-- A conversion with its argument.
pub data Conversion : Type 0 where
  signed : ℕ → Conversion
  unsigned : ℕ → Conversion
  hex : ℕ → Conversion
  address : ℕ → Conversion
  character : ℕ → Conversion
  text : Option (List ℕ) → Conversion
  sign : Conversion

-- `%`, a flag, a width, a length modifier and a conversion.
pub record Directive : Type 0 where
  pub zeros : Bool
  pub cells : List ℕ
  pub long : Bool
  pub what : Conversion

pub data Piece : Type 0 where
  plain : ℕ → Piece
  converted : Directive → Piece

abbrev pub letter : Conversion → ℕ
letter (signed n) = b'd'
letter (unsigned n) = b'u'
letter (hex n) = b'x'
letter (address n) = b'p'
letter (character n) = b'c'
letter (text s) = b's'
letter sign = b'%'

abbrev pub arguments : Conversion → List Arg
arguments (signed n) = word n ∷ []
arguments (unsigned n) = word n ∷ []
arguments (hex n) = word n ∷ []
arguments (address n) = word n ∷ []
arguments (character n) = word n ∷ []
arguments (text s) = string s ∷ []
arguments sign = []

unfoldable pub shown_text : Option (List ℕ) → List ℕ
shown_text none = codes "(null)"
shown_text (some s) = s

-- The two's complement number, with its sign in front of the padding.
unfoldable pub shown_signed : ℕ → ℕ → ℕ → List ℕ
shown_signed n width pad =
    if ltb n (2 ^ 31) then number n 10 width pad else b'-' ∷ number (2 ^ 32 - n) 10 (width - 1) pad

unfoldable pub shown : Conversion → ℕ → ℕ → List ℕ
shown (signed n) width pad = shown_signed n width pad
shown (unsigned n) width pad = number n 10 width pad
shown (hex n) width pad = number n 16 width pad
shown (address n) width pad = codes "0x" ++ number n 16 8 b'0'
shown (character n) width pad = n % 2 ^ 8 ∷ []
shown (text s) width pad = shown_text s
shown sign width pad = b'%' ∷ []

-- An integer argument has 32 bits, and a signed one is not the most negative number.
abbrev pub Is32 : Conversion → Type 0
Is32 (signed n) = (n < 2 ^ 32) × (n ≢ 2 ^ 31)
Is32 (unsigned n) = n < 2 ^ 32
Is32 (hex n) = n < 2 ^ 32
Is32 (address n) = n < 2 ^ 32
Is32 (character n) = n < 2 ^ 32
Is32 (text s) = Unit
Is32 sign = Unit

-- The number that decimal digits spell.
unfoldable pub width_from : ℕ → List ℕ → ℕ
width_from n [] = n
width_from n (c ∷ cs) = width_from (n * 10 + (c - b'0')) cs

abbrev pub flagged : Bool → List ℕ → List ℕ
flagged true fmt = b'0' ∷ fmt
flagged false fmt = fmt

abbrev pub lengthened : Bool → List ℕ → List ℕ
lengthened true fmt = b'l' ∷ fmt
lengthened false fmt = fmt

-- The text of a directive after its `%`, and the rest.
abbrev pub spelled : Directive → List ℕ → List ℕ
spelled d fmt = flagged d.zeros (d.cells ++ lengthened d.long (letter d.what ∷ fmt))

abbrev pub FirstNot0 : List ℕ → Type 0
FirstNot0 [] = Unit
FirstNot0 (c ∷ cs) = c ≢ b'0'

-- The width is of decimal digits, the first of which would be a flag if it were `0`, and asks for
-- at most 12 cells.
pub record IsValid (d : Directive) : Type 0 where
  pub digits : All (λ c. is_digit c ≡ true) d.cells
  pub no_flag : d.zeros ≡ false → FirstNot0 d.cells
  pub fits : width_from 0 d.cells ≤ 12
  pub is_32 : Is32 d.what

abbrev pub pad_of : Directive → ℕ
pad_of d = if d.zeros then b'0' else b' '

abbrev pub output_of : Directive → List ℕ
output_of d = shown d.what (width_from 0 d.cells) (pad_of d)

unfoldable pub format_of : List Piece → List ℕ
format_of [] = []
format_of (plain c ∷ ps) = c ∷ format_of ps
format_of (converted d ∷ ps) = b'%' ∷ spelled d (format_of ps)

unfoldable pub arguments_of : List Piece → List Arg
arguments_of [] = []
arguments_of (plain c ∷ ps) = arguments_of ps
arguments_of (converted d ∷ ps) = arguments d.what ++ arguments_of ps

unfoldable pub written : List Piece → List ℕ
written [] = []
written (plain c ∷ ps) = c ∷ written ps
written (converted d ∷ ps) = output_of d ++ written ps

abbrev pub IsPiece : Piece → Type 0
IsPiece (plain c) = c ≢ b'%'
IsPiece (converted d) = IsValid d
