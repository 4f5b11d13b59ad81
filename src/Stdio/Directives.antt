-- ===== src/Stdio/Directives.antt =====
-- The format strings of printf in src/bootloader/stage2/stdio.c: its state machine against a format
-- that is read piece by piece.
use alma_os.Base.{
  ℕ, List, [], ◌∷◌, ◌++◌, Option, none, some, ==_ne, ◌>>=◌, All, ◌≡◌, ◌≢◌, refl, ap, ◌∙◌, arith,
  Option-cases, inl, inr,
}
use mathlib.Core.List.{append_assoc}
use alma_os.Stdio.{
  Console, putc_utf8, Length, default, short_short, short, long, long_long, Strings, convert, Phase,
  normal, after_percent, after_h, after_l, spec, Printer, specify, step, run, printf,
}

-- A character to print, or a conversion with its length.
pub data Piece : Type 0 where
  literal : ℕ → Piece
  directive : Length → ℕ → Piece

-- The letters of a length.
unfoldable pub letters : Length → List ℕ
letters default = []
letters short_short = b'h' ∷ b'h' ∷ []
letters short = b'h' ∷ []
letters long = b'l' ∷ []
letters long_long = b'l' ∷ b'l' ∷ []

unfoldable pub written : Piece → List ℕ
written (literal c) = c ∷ []
written (directive size c) = b'%' ∷ (letters size ++ (c ∷ []))

-- A conversion letter that is not taken for one of the length.
unfoldable pub IsFree : Length → ℕ → Type 0
IsFree default c = (c ≢ b'h') × (c ≢ b'l')
IsFree short_short c = Unit
IsFree short c = c ≢ b'h'
IsFree long c = c ≢ b'l'
IsFree long_long c = Unit

unfoldable pub IsPiece : Piece → Type 0
IsPiece (literal c) = (c ≢ 0) × (c ≢ b'%')
IsPiece (directive size c) = (c ≢ 0) × IsFree size c

-- What a piece does.
unfoldable pub perform : Strings → Piece → List ℕ → Console → Option (Console × List ℕ)
perform m (literal c) args con = some (putc_utf8 c con, args)
perform m (directive size c) args con = convert m size c args con

unfoldable pub perform_all : Strings → List Piece → List ℕ → Console → Option (Console × List ℕ)
perform_all m [] args con = some (con, args)
perform_all m (p ∷ ps) args con = perform m p args con >>= λ r. perform_all m ps r.1 r.0

unfoldable pub written_all : List Piece → List ℕ
written_all [] = []
written_all (p ∷ ps) = written p ++ written_all ps

abbrev between : List ℕ → Console → Printer
between args con = record { phase = normal; size = default; args = args; console = con }

run-step :
    (m : Strings) (c : ℕ) (fmt : List ℕ) (p p' : Printer)
    → c ≢ 0
    → step m c p.phase p ≡ some p'
    → run m (c ∷ fmt) p ≡ run m fmt p'
unfolding run
run-step m c fmt p p' ne e = rw (==_ne c 0 ne, e) refl

-- The conversion at the end of a directive.
run-specify :
    (m : Strings) (c : ℕ) (fmt : List ℕ) (p : Printer)
    → c ≢ 0
    → step m c p.phase p ≡ specify m c p
    → run m (c ∷ fmt) p ≡ (convert m p.size c p.args p.console >>= λ r. run m fmt (between r.1 r.0))
unfolding run specify
run-specify m c fmt p ne e =
    rw (==_ne c 0 ne, e)
      (elim (Option-cases (convert m p.size c p.args p.console)) [
        | inl n ↦ rw n refl
        | inr (r, s) ↦ rw s refl
      ])

abbrev in_phase : Phase → Length → List ℕ → Console → Printer
in_phase phase size args con = record { phase = phase; size = size; args = args; console = con }

run-directive :
    (m : Strings) (size : Length) (c : ℕ) (fmt args : List ℕ) (con : Console)
    → c ≢ 0
    → IsFree size c
    → run m (letters size ++ (c ∷ fmt)) (in_phase after_percent default args con)
      ≡ (convert m size c args con >>= λ r. run m fmt (between r.1 r.0))
unfolding IsFree letters step
run-directive m default c fmt args con ne free =
    run-specify m c fmt (in_phase after_percent default args con) ne
      (rw (==_ne c b'h' free.0, ==_ne c b'l' free.1) refl)
run-directive m short_short c fmt args con ne free =
    run-step m b'h' (b'h' ∷ c ∷ fmt) (in_phase after_percent default args con)
      (in_phase after_h short args con) (omega arith) refl
    ∙ (run-step m b'h' (c ∷ fmt) (in_phase after_h short args con)
          (in_phase spec short_short args con) (omega arith) refl
        ∙ run-specify m c fmt (in_phase spec short_short args con) ne refl)
run-directive m short c fmt args con ne free =
    run-step m b'h' (c ∷ fmt) (in_phase after_percent default args con)
      (in_phase after_h short args con) (omega arith) refl
    ∙ run-specify m c fmt (in_phase after_h short args con) ne (rw (==_ne c b'h' free) refl)
run-directive m long c fmt args con ne free =
    run-step m b'l' (c ∷ fmt) (in_phase after_percent default args con)
      (in_phase after_l long args con) (omega arith) refl
    ∙ run-specify m c fmt (in_phase after_l long args con) ne (rw (==_ne c b'l' free) refl)
run-directive m long_long c fmt args con ne free =
    run-step m b'l' (b'l' ∷ c ∷ fmt) (in_phase after_percent default args con)
      (in_phase after_l long args con) (omega arith) refl
    ∙ (run-step m b'l' (c ∷ fmt) (in_phase after_l long args con) (in_phase spec long_long args con)
          (omega arith) refl
        ∙ run-specify m c fmt (in_phase spec long_long args con) ne refl)

run-piece :
    (m : Strings) (p : Piece) (fmt args : List ℕ) (con : Console)
    → IsPiece p
    → run m (written p ++ fmt) (between args con)
      ≡ (perform m p args con >>= λ r. run m fmt (between r.1 r.0))
unfolding written IsPiece perform
run-piece m (literal c) fmt args con ok =
    run-step m c fmt (between args con) (between args (putc_utf8 c con)) ok.0
      (unfold step in rw (==_ne c b'%' ok.1) refl)
run-piece m (directive size c) fmt args con ok =
    run-step m b'%' (letters size ++ (c ∷ []) ++ fmt) (between args con)
      (in_phase after_percent default args con) (omega arith) (unfold step in refl)
    ∙ (ap (λ f. run m f (in_phase after_percent default args con))
          (append_assoc (letters size) (c ∷ []) fmt)
        ∙ run-directive m size c fmt args con ok.0 ok.1)

run-pieces :
    (m : Strings) (ps : List Piece) (args : List ℕ) (con : Console)
    → All IsPiece ps
    → run m (written_all ps) (between args con)
      ≡ (perform_all m ps args con >>= λ r. some (between r.1 r.0))
unfolding written_all perform_all
run-pieces m [] args con ok = unfold run in refl
run-pieces m (p ∷ ps) args con ok =
    run-piece m p (written_all ps) args con ok.0
    ∙ rest (perform m p args con) (λ r. run-pieces m ps r.1 r.0 ok.1)
  where
    rest :
        (o : Option (Console × List ℕ))
        → ((r : Console × List ℕ)
            → run m (written_all ps) (between r.1 r.0)
              ≡ (perform_all m ps r.1 r.0 >>= λ s. some (between s.1 s.0)))
        → (o >>= λ r. run m (written_all ps) (between r.1 r.0))
          ≡ ((o >>= λ r. perform_all m ps r.1 r.0) >>= λ r. some (between r.1 r.0))
    rest none later = refl
    rest (some r) later = later r

-- printf on a format of pieces does what its pieces do, one after the other: it prints the
-- characters and converts the next arguments by the letter and the length of each directive. It has
-- no result where a piece lacks its argument. A conversion letter must not be one that its length
-- goes on with.
pub printf-pieces :
    (m : Strings) (ps : List Piece) (args : List ℕ) (con : Console)
    → All IsPiece ps
    → printf m (written_all ps) args con ≡ (perform_all m ps args con >>= λ r. some r.0)
unfolding printf
printf-pieces m ps args con ok =
    ap (λ o. o >>= λ p. some p.console) (run-pieces m ps args con ok)
    ∙ shown (perform_all m ps args con)
  where
    shown :
        (o : Option (Console × List ℕ))
        → ((o >>= λ r. some (between r.1 r.0)) >>= λ p. some p.console) ≡ (o >>= λ r. some r.0)
    shown none = refl
    shown (some r) = refl
