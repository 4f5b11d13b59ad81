-- ===== src/Printf/Formats.antt =====
-- `vga_vprintf` of src/kernel/vga.c on formats of characters and conversions.
use alma_os.Base.{
  ℕ, zero, suc, List, [], ◌∷◌, ◌++◌, Bool, true, false, some, ◌+◌, ◌<◌, ◌≤◌, length, length-append,
  ◌≡◌, refl, arith, ==_ne, All,
}
use alma_os.Printf.{vprintf_from, vprintf, printf}
use alma_os.Vga.{Screen, puts}
use alma_os.Vga.Terminal.{Terminal, type_text}
use alma_os.Vga.Grid.{Shows}
use alma_os.Vga.Typing.{puts-type_text}
use alma_os.Printf.Spec.{
  Directive, Piece, letter, flagged, lengthened, spelled, format_of, arguments_of, written, IsPiece,
  plain, converted,
}
use alma_os.Printf.Conversions.{percent_lem}

length-spelled : (d : Directive) (fmt : List ℕ) → length fmt < length (spelled d fmt)
length-spelled d fmt = omega (
  arith,
  flags d.zeros (d.cells ++ lengthened d.long (letter d.what ∷ fmt)),
  lengths d.long (letter d.what ∷ fmt),
  length-append d.cells (lengthened d.long (letter d.what ∷ fmt)),
)
  where
    flags : (b : Bool) (fmt : List ℕ) → length fmt ≤ length (flagged b fmt)
    flags true fmt = omega arith
    flags false fmt = omega arith

    lengths : (b : Bool) (fmt : List ℕ) → length fmt ≤ length (lengthened b fmt)
    lengths true fmt = omega arith
    lengths false fmt = omega arith

vprintf_from_lem :
    (ps : List Piece) (fuel : ℕ)
    → All IsPiece ps
    → length (format_of ps) < fuel
    → vprintf_from fuel (format_of ps) (arguments_of ps) ≡ some (written ps)
unfolding vprintf_from format_of arguments_of written
vprintf_from_lem ps zero h enough = absurd (omega (arith, enough))
vprintf_from_lem [] (suc fuel) h enough = refl
vprintf_from_lem (plain c ∷ ps) (suc fuel) h enough =
    rw (==_ne c b'%' h.0, vprintf_from_lem ps fuel h.1 (omega (arith, enough))) refl
vprintf_from_lem (converted d ∷ ps) (suc fuel) h enough =
    rw
      (
        percent_lem d (format_of ps) (arguments_of ps) h.0,
        vprintf_from_lem ps fuel h.1 (omega (arith, enough, length-spelled d (format_of ps))),
      )
      refl

-- A format of plain characters and of conversions, whose widths ask for at most 12 cells and that
-- have their arguments, prints the pieces' outputs one after the other.
pub vprintf-written :
    (ps : List Piece)
    → All IsPiece ps
    → vprintf (format_of ps) (arguments_of ps) ≡ some (written ps)
unfolding vprintf
vprintf-written ps h = vprintf_from_lem ps (length (format_of ps) + 1) h (omega arith)

pub printf-written :
    (ps : List Piece) (s : Screen)
    → All IsPiece ps
    → printf s (format_of ps) (arguments_of ps) ≡ some (puts s (written ps))
unfolding printf
printf-written ps s h = rw (vprintf-written ps h) refl

-- On a console that shows a terminal, `vga_printf` of characters and conversions, whose widths ask for
-- at most 12 cells and that have their arguments, integers of 32 bits and for `%d` not the most
-- negative one, succeeds and shows what typing the pieces' outputs leaves there.
pub printf-Shows :
    (ps : List Piece) {s : Screen} {t : Terminal}
    → All IsPiece ps
    → Shows s t
    → (s' : Screen) × (printf s (format_of ps) (arguments_of ps) ≡ some s')
      × Shows s' (type_text (written ps) t)
printf-Shows ps {s} h shows =
    (puts s (written ps), printf-written ps s h, (puts-type_text (written ps) shows).0)
