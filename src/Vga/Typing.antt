-- ===== src/Vga/Typing.antt =====
-- `vga_putchar` and `vga_puts` of src/kernel/vga.c against the terminal.
use alma_os.Base.{
  ℕ, List, [], ◌∷◌, ◌++◌, true, false, ◌+◌, ◌-◌, ◌*◌, ◌/◌, ◌<◌, ◌==◌, ltb, if◌then◌else◌, ◌≡◌, refl,
  ◌∙◌, sym, ap, ap₂, arith, ==_ne,
}
use mathlib.Core.Path.{subst}
use mathlib.Core.List.{append-nil, append_assoc}
use native.Mathlib.Decide.{ℕ_discrete, dec_lt}
use alma_os.Vga.{Screen, store, width, entry, scroll, place, wrap, update_cursor, putchar, puts}
use alma_os.Vga.Terminal.{Terminal, with_cell, move_to, backspace, print, type_char, type_text}
use alma_os.Vga.Grid.{
  Shows, SameBeyond, Shows-new_line, Shows-move_to, Shows-store, wrap-inside, move_to-inside,
}

abbrev Result : Screen → Terminal → Screen → Type 0
Result s t' s' = Shows s' t' × SameBeyond s s'

-- The cell before the position, blanked.
Result-blank :
    {s : Screen} {t : Terminal}
    → 0 < s.col
    → Shows s t
    → Result s
        (record t {
          col = t.col - 1;
          grid = with_cell t.grid t.row (t.col - 1) (entry b' ' t.attr);
        })
        (record s {
          col = s.col - 1;
          cells = store s.cells (s.row * width + (s.col - 1)) (entry b' ' s.attr);
        })
Result-blank {s} {t} pos h =
    let (stored, beyond) =
      Shows-store (s.col - 1) (entry b' ' s.attr) (omega (arith, h.col_in)) h in
    (
      record {
        same_col = ap (λ k. k - 1) h.same_col;
        same_row = h.same_row;
        same_attr = h.same_attr;
        col_in = omega (arith, h.col_in);
        row_in = h.row_in;
        same_cells = λ r c hr hc.
            stored.same_cells r c hr hc
            ∙ ap₂ (λ n a. with_cell t.grid t.row (n - 1) (entry b' ' a) r c) h.same_col h.same_attr;
      },
      beyond,
    )

Result-wrap : (s s' : Screen) (t' : Terminal) → Result s t' s' → Result s t' (wrap s')
Result-wrap s s' t' r = rw (wrap-inside s' r.0.col_in r.0.row_in) r

place-backspace :
    (s : Screen)
    → place s 8 ≡ (
        if ltb 0 s.col
        then record s {
          col = s.col - 1;
          cells = store s.cells (s.row * width + (s.col - 1)) (entry b' ' s.attr);
        }
        else s)
unfolding place
place-backspace s = refl

Result-backspace :
    {s : Screen} {t : Terminal} → Shows s t → Result s (backspace t) (wrap (place s 8))
unfolding backspace
Result-backspace {s} {t} h = elim (dec_lt 0 s.col) [
  | yes pos ↦
      rw (place-backspace s, test_true s.col pos, test_true t.col (omega (arith, h.same_col)))
        (Result-wrap s _ _ (Result-blank pos h))
  | no first ↦
      rw
        (
          place-backspace s,
          test_false s.col first,
          test_false t.col (λ k. first (omega (arith, h.same_col))),
        )
        (Result-wrap s s t (h, λ j k. refl))
]
  where
    test_true : (n : ℕ) → 0 < n → ltb 0 n ≡ true
    test_true n p = ground arith

    test_false : (n : ℕ) → (0 < n → ⊥) → ltb 0 n ≡ false
    test_false n p = ground arith

Result-print :
    {s : Screen} {t : Terminal} (c : ℕ)
    → Shows s t
    → Result s (print c t) (
        wrap (record s {
          cells = store s.cells (s.row * width + s.col) (entry c s.attr);
          col = s.col + 1;
        }))
unfolding print
Result-print {s} {t} c h =
    let stored = Shows-store s.col (entry c s.attr) h.col_in h in
    let moved = Shows-move_to (s.col + 1) stored.0 in
    let same =
      ap₂ (λ n a. move_to (n + 1) (record t { grid = with_cell t.grid t.row n (entry c a) }))
        h.same_col h.same_attr in
    (
      subst
          (Shows (
            wrap (record s {
              cells = store s.cells (s.row * width + s.col) (entry c s.attr);
              col = s.col + 1;
            })))
          same moved.0,
      λ j k. moved.1 j k ∙ stored.1 j k,
    )

Result-return :
    {s : Screen} {t : Terminal}
    → Shows s t
    → Result s (record t { col = 0 }) (wrap (record s { col = 0 }))
Result-return {s} {t} h =
    subst (λ t'. Result s t' (wrap (record s { col = 0 }))) (move_to-inside 0 t (omega arith))
      (Shows-move_to 0 h)

Result-tab :
    {s : Screen} {t : Terminal}
    → Shows s t
    → Result s (move_to ((t.col / 8 + 1) * 8) t) (wrap (record s { col = (s.col + 8) / 8 * 8 }))
Result-tab {s} {t} h =
    subst (λ n. Result s (move_to n t) (wrap (record s { col = (s.col + 8) / 8 * 8 })))
      (ap (λ n. (n + 8) / 8 * 8) h.same_col ∙ next_stop t.col)
      (Shows-move_to ((s.col + 8) / 8 * 8) h)
  where
    next_stop : (n : ℕ) → (n + 8) / 8 * 8 ≡ (n / 8 + 1) * 8
    next_stop n = omega arith

place-print :
    (s : Screen) (c : ℕ)
    → (c == b'\n') ≡ false
    → (c == b'\r') ≡ false
    → (c == b'\t') ≡ false
    → (c == 8) ≡ false
    → place s c
      ≡ record s { cells = store s.cells (s.row * width + s.col) (entry c s.attr); col = s.col + 1 }
unfolding place
place-print s c lf cr tab bs = rw (lf, cr, tab, bs) refl

typed_lf :
    {s : Screen} {t : Terminal} → Shows s t → Result s (type_char b'\n' t) (wrap (place s b'\n'))
unfolding type_char place
typed_lf h = Shows-new_line h

typed_cr :
    {s : Screen} {t : Terminal} → Shows s t → Result s (type_char b'\r' t) (wrap (place s b'\r'))
unfolding type_char place
typed_cr h = Result-return h

typed_tab :
    {s : Screen} {t : Terminal} → Shows s t → Result s (type_char b'\t' t) (wrap (place s b'\t'))
unfolding type_char place
typed_tab h = Result-tab h

typed_bs : {s : Screen} {t : Terminal} → Shows s t → Result s (type_char 8 t) (wrap (place s 8))
unfolding type_char
typed_bs h = Result-backspace h

-- The two tests and the branches of `vga_putchar` on a character.
Result-place :
    {s : Screen} {t : Terminal} (c : ℕ) → Shows s t → Result s (type_char c t) (wrap (place s c))
unfolding type_char
Result-place {s} {t} c h = elim (ℕ_discrete c b'\n') [
  | yes lf ↦ subst (λ k. Result s (type_char k t) (wrap (place s k))) (sym lf) (typed_lf h)
  | no a ↦ elim (ℕ_discrete c b'\r') [
    | yes cr ↦ subst (λ k. Result s (type_char k t) (wrap (place s k))) (sym cr) (typed_cr h)
    | no b ↦ elim (ℕ_discrete c b'\t') [
      | yes tab ↦ subst (λ k. Result s (type_char k t) (wrap (place s k))) (sym tab) (typed_tab h)
      | no d ↦ elim (ℕ_discrete c 8) [
        | yes bs ↦ subst (λ k. Result s (type_char k t) (wrap (place s k))) (sym bs) (typed_bs h)
        | no ne ↦
            rw
              (
                place-print s c (==_ne c _ a) (==_ne c _ b) (==_ne c _ d) (==_ne c _ ne),
                ==_ne c _ a,
                ==_ne c _ b,
                ==_ne c _ d,
                ==_ne c _ ne,
              )
              (Result-print c h)
      ]
    ]
  ]
]

-- Where the hardware cursor and the serial port stand.
abbrev pub Follows : Screen → Type 0
Follows s = s.cursor ≡ s.row * 80 + s.col

Shows-cursor : {s : Screen} {t : Terminal} → Shows s t → Shows (update_cursor s) t
unfolding update_cursor
Shows-cursor h = record {
  same_col = h.same_col;
  same_row = h.same_row;
  same_attr = h.same_attr;
  col_in = h.col_in;
  row_in = h.row_in;
  same_cells = h.same_cells;
}

Follows-cursor : {s : Screen} {t : Terminal} → Shows s t → Follows (update_cursor s)
unfolding update_cursor
Follows-cursor h = omega (arith, h.col_in, h.row_in)

cells-cursor : (s : Screen) (j : ℕ) → (update_cursor s).cells j ≡ s.cells j
unfolding update_cursor
cells-cursor s j = refl

Shows-mirrored :
    {s : Screen} {t : Terminal} (sent : List ℕ) → Shows s t → Shows (record s { mirrored = sent }) t
Shows-mirrored sent h = record {
  same_col = h.same_col;
  same_row = h.same_row;
  same_attr = h.same_attr;
  col_in = h.col_in;
  row_in = h.row_in;
  same_cells = h.same_cells;
}

-- One character on a console that shows a terminal: it shows the terminal with the character typed,
-- the cells past the screen stay and the cursor is at the position.
pub putchar-type_char :
    {s : Screen} {t : Terminal} (c : ℕ)
    → Shows s t
    → Shows (putchar s c) (type_char c t) × SameBeyond s (putchar s c) × Follows (putchar s c)
unfolding putchar
putchar-type_char {s} {t} c h =
    let sent = record s { mirrored = s.mirrored ++ (c ∷ []) } in
    let (shown, beyond) = Result-place c (Shows-mirrored (s.mirrored ++ (c ∷ [])) h) in
    (Shows-cursor shown, λ j k. cells-cursor _ j ∙ beyond j k, Follows-cursor shown)

mirrored-wrap : (s : Screen) → (wrap s).mirrored ≡ s.mirrored
unfolding wrap scroll
mirrored-wrap s = ground arith

mirrored-place : (s : Screen) (c : ℕ) → (place s c).mirrored ≡ s.mirrored
unfolding place
mirrored-place s c = ground arith

mirrored-putchar : (s : Screen) (c : ℕ) → (putchar s c).mirrored ≡ s.mirrored ++ (c ∷ [])
unfolding putchar update_cursor
mirrored-putchar s c = mirrored-wrap _ ∙ mirrored-place _ c

-- A text on a console that shows a terminal: it shows the terminal with the text typed character
-- by character, cells past the screen stay as they were, and the serial port got the same text.
pub puts-type_text :
    (cs : List ℕ) {s : Screen} {t : Terminal}
    → Shows s t
    → Shows (puts s cs) (type_text cs t)
      × SameBeyond s (puts s cs)
      × (puts s cs).mirrored ≡ s.mirrored ++ cs
unfolding type_text puts
puts-type_text [] {s} h = (h, λ j k. refl, sym (append-nil s.mirrored))
puts-type_text (c ∷ cs) {s} {t} h =
    let (shown, beyond, _) = putchar-type_char c h in
    let (text, after, sent) = puts-type_text cs shown in
    (
      text,
      λ j k. after j k ∙ beyond j k,
      sent ∙ ap (λ m. m ++ cs) (mirrored-putchar s c) ∙ append_assoc s.mirrored (c ∷ []) cs,
    )

pub puts-append : (xs ys : List ℕ) (s : Screen) → puts s (xs ++ ys) ≡ puts (puts s xs) ys
unfolding puts
puts-append [] ys s = refl
puts-append (x ∷ xs) ys s = puts-append xs ys (putchar s x)

pub puts-cons : (c : ℕ) (cs : List ℕ) (s : Screen) → puts s (c ∷ cs) ≡ puts (putchar s c) cs
unfolding puts
puts-cons c cs s = refl

pub puts-nil : (s : Screen) → puts s [] ≡ s
unfolding puts
puts-nil s = refl
