-- ===== src/Stdio/Tests.antt =====
-- Tests of the console output of stage 2, and its theorems at concrete inputs.
use alma_os.Base.{ℕ, List, [], ◌∷◌, true, false, some, ◌%◌, ◌^◌, ◌≡◌, ◌>>=◌, map, refl, arith, inr}
use alma_os.Stdio.{Console, Strings, default, long, long_long, puts, put_all, printf, printf_number}
use alma_os.Stdio.Decoding.{glyph, Shows}
use alma_os.Stdio.Utf8.{encoded, puts-encoded}
use alma_os.Stdio.Directives.{
  Piece, literal, directive, IsPiece, IsFree, written_all, perform_all, printf-pieces,
}
use alma_os.Stdio.Numbers.{IsNumeral, is_negative, absolute, printf_number-IsNumeral}

abbrev empty : Console
empty = record { pending = 0; partial = 0; shown = [] }

abbrev no_strings : Strings
no_strings = record { near = λ p. []; far = λ p. []; wide = λ p. [] }

-- á, a euro sign and a capital A.
abbrev accents : List ℕ
accents = 0xE1 ∷ 0x20AC ∷ b'A' ∷ []

puts-encoded_example :
    Shows empty (puts (encoded accents) empty) (map (λ u. glyph (u % 2 ^ 16)) accents)
puts-encoded_example = puts-encoded accents empty (omega arith) refl

abbrev pieces : List Piece
pieces = literal b'x' ∷ directive long b'u' ∷ directive default b'd' ∷ []

printf-pieces_example :
    printf no_strings (written_all pieces) (5 ∷ 0 ∷ 7 ∷ []) empty
    ≡ (perform_all no_strings pieces (5 ∷ 0 ∷ 7 ∷ []) empty >>= λ r. some r.0)
unfolding IsPiece IsFree
printf-pieces_example = printf-pieces no_strings pieces (5 ∷ 0 ∷ 7 ∷ []) empty (omega arith)

-- -2 in 32 bits.
printf_number-IsNumeral_example :
    ((text : List ℕ) × (printf_number (0xFFFE ∷ 0xFFFF ∷ 9 ∷ []) long false 16 empty
        ≡ some (put_all text empty, 9 ∷ []))
      × IsNumeral 16 false 0xFFFFFFFE text)
    × ((text : List ℕ) × (printf_number (0xFFFE ∷ 0xFFFF ∷ 9 ∷ []) long true 16 empty
          ≡ some (put_all text empty, 9 ∷ []))
        × IsNumeral 16 (is_negative 32 0xFFFFFFFE) (absolute 32 0xFFFFFFFE) text)
unfolding alma_os.Stdio.words_of alma_os.Stdio.fetch
printf_number-IsNumeral_example =
    printf_number-IsNumeral (0xFFFE ∷ 0xFFFF ∷ 9 ∷ []) (9 ∷ []) long 16 0xFFFFFFFE empty
      (inr (inr refl)) refl (omega arith) (omega arith)
