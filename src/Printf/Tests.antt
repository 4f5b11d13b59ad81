-- ===== src/Printf/Tests.antt =====
-- Tests of printf, and its theorems at concrete inputs.
use alma_os.Base.{All, List, [], ◌∷◌, true, false, some, none, ◌≡◌, ◌^◌, ◌-◌, refl, arith}
use alma_os.Base.Text.{codes}
use alma_os.Vga.{Screen}
use alma_os.Vga.Terminal.{Terminal, type_text}
use alma_os.Vga.Grid.{Shows}
use alma_os.Printf.{
  word, string, push, digit_code, push_digits, push_pad, print_uint, print_int, word_of, text_of,
  next_arg, read_flag, read_width, skip_long, take_word, convert, directive, percent, vprintf_from,
  vprintf, printf,
}
use alma_os.Printf.Spec.{
  signed, hex, Piece, plain, converted, width_from, IsPiece, format_of, arguments_of, written,
}
use alma_os.Printf.Formats.{printf-Shows}

heap_line :
    vprintf (codes "base=0x%08x, %d%%%s") (word 0x78000 ∷ word (2 ^ 32 - 42) ∷ string none ∷ [])
    ≡ some (codes "base=0x00078000, -42%(null)")
unfolding vprintf vprintf_from percent directive convert skip_long read_width read_flag take_word
    next_arg text_of word_of print_int print_uint push_pad push_digits digit_code push
heap_line = refl

trailing_percent : vprintf (codes "50%") [] ≡ none
unfolding vprintf vprintf_from percent directive convert skip_long read_width read_flag
trailing_percent = refl

-- `a%04x%i`
abbrev pieces : List Piece
pieces =
    plain b'a'
    ∷ converted (record { zeros = true; cells = codes "4"; long = false; what = hex 0x1F })
    ∷ converted (record { zeros = false; cells = []; long = true; what = signed (2 ^ 32 - 1) })
    ∷ []

pieces-IsPiece : All IsPiece pieces
unfolding width_from
pieces-IsPiece = (
  omega arith,
  (
    record {
      digits = (refl, record {});
      no_flag = λ e. omega arith;
      fits = omega arith;
      is_32 = omega arith;
    },
    (
      record {
        digits = record {};
        no_flag = λ e. record {};
        fits = omega arith;
        is_32 = omega arith;
      },
      record {},
    ),
  ),
)

pieces-spelled : format_of pieces ≡ codes "a%04x%ld"
unfolding format_of
pieces-spelled = refl

abbrev blank : Screen
blank = record {
  cells = λ j. 0x0720;
  col = 77;
  row = 24;
  attr = 0x07;
  cursor = 1997;
  mirrored = [];
}

abbrev blank_seen : Terminal
blank_seen = record { grid = λ r c. 0x0720; col = 77; row = 24; attr = 0x07 }

blank-Shows : Shows blank blank_seen
blank-Shows = record {
  same_col = refl;
  same_row = refl;
  same_attr = refl;
  col_in = omega arith;
  row_in = omega arith;
  same_cells = λ r c h k. refl;
}

printf-Shows_example :
    (s' : Screen) × (printf blank (format_of pieces) (arguments_of pieces) ≡ some s')
    × Shows s' (type_text (written pieces) blank_seen)
printf-Shows_example = printf-Shows pieces pieces-IsPiece blank-Shows
