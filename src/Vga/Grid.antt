-- ===== src/Vga/Grid.antt =====
-- The console of src/kernel/vga.c shows the terminal of `Terminal`: row-major video memory, two
-- tests after each character, and loops that scroll, against lines and cells.
use alma_os.Base.{ℕ, false, ◌+◌, ◌*◌, ◌<◌, ◌≤◌, ltb, ◌≡◌, refl, ◌∙◌, ap, arith}
use native.Mathlib.Decide.{dec_lt}
use alma_os.Vga.{Screen, Cells, store, width, entry, scroll, wrap}
use alma_os.Vga.Scroll.{store_ne, scroll-upper, scroll-last, scroll-after}
use alma_os.Vga.Terminal.{Terminal, with_cell, scrolled, new_line, move_to}

-- The position is on the screen, and the screen shows the terminal there.
pub record Shows (s : Screen) (t : Terminal) : Type 0 where
  pub same_col : s.col ≡ t.col
  pub same_row : s.row ≡ t.row
  pub same_attr : s.attr ≡ t.attr
  pub col_in : s.col < 80
  pub row_in : s.row < 25
  pub same_cells : (r c : ℕ) → r < 25 → c < 80 → s.cells (r * 80 + c) ≡ t.grid r c

-- `s'` differs from `s` inside the screen's 2000 cells only.
abbrev pub SameBeyond : Screen → Screen → Type 0
SameBeyond s s' = (j : ℕ) → 2000 ≤ j → s'.cells j ≡ s.cells j

cells-store :
    (cells : Cells) (grid : ℕ → ℕ → ℕ) (row col v : ℕ)
    → col < 80
    → ((r c : ℕ) → r < 25 → c < 80 → cells (r * 80 + c) ≡ grid r c)
    → (r c : ℕ) → r < 25
    → c < 80
    → store cells (row * 80 + col) v (r * 80 + c) ≡ with_cell grid row col v r c
cells-store cells grid row col v h same r c hr hc = ground (arith, same r c)

pub wrap-inside : (s : Screen) → s.col < 80 → s.row < 25 → wrap s ≡ s
unfolding wrap
wrap-inside s h k = ground arith

wrap-over : (s : Screen) → 80 ≤ s.col → wrap s ≡ wrap (record s { col = 0; row = s.row + 1 })
unfolding wrap
wrap-over s h = ground arith

wrap-bottom : (s : Screen) → s.col < 80 → 25 ≤ s.row → wrap s ≡ scroll s
unfolding wrap
wrap-bottom s h k = ground arith

-- The loops of `vga_scroll` show the lines one up, with a blank one below.
Shows-scroll :
    {s : Screen} {t : Terminal}
    → Shows s t
    → Shows
        (scroll (record s { col = 0; row = s.row + 1 }))
        (record t { col = 0; row = 24; grid = scrolled t.attr t.grid })
Shows-scroll {s} {t} h = record {
  same_col = unfold scroll in refl;
  same_row = unfold scroll in refl;
  same_attr = unfold scroll in h.same_attr;
  col_in = unfold scroll in omega arith;
  row_in = unfold scroll in omega arith;
  same_cells = lines;
}
  where
    lines :
        (r c : ℕ)
        → r < 25
        → c < 80
        → (scroll (record s { col = 0; row = s.row + 1 })).cells (r * 80 + c)
          ≡ scrolled t.attr t.grid r c
    lines r c hr hc = elim (dec_lt r 24) [
      | yes upper ↦
          scroll-upper (record s { col = 0; row = s.row + 1 }) (r * 80 + c) (omega arith)
          ∙ ap s.cells (omega arith)
          ∙ h.same_cells (r + 1) c (omega arith) hc
          ∙ ground arith
      | no lower ↦
          scroll-last (record s { col = 0; row = s.row + 1 }) (r * 80 + c) (omega arith)
            (omega arith)
          ∙ ap (entry b' ') h.same_attr
          ∙ ground arith
    ]

new_line-room : (t : Terminal) → t.row < 24 → new_line t ≡ record t { col = 0; row = t.row + 1 }
unfolding new_line
new_line-room t h = ground arith

new_line-full :
    (t : Terminal)
    → t.row ≡ 24
    → new_line t ≡ record t { col = 0; row = 24; grid = scrolled t.attr t.grid }
unfolding new_line
new_line-full t h =
    rw (not_below t.row h)
      (ap (λ r. record t { col = 0; row = r; grid = scrolled t.attr t.grid }) h)
  where
    not_below : (r : ℕ) → r ≡ 24 → ltb r 24 ≡ false
    not_below r h = ground arith

-- Going to the next line, with the second test of `vga_putchar` to follow.
pub Shows-new_line :
    {s : Screen} {t : Terminal}
    → Shows s t
    → Shows (wrap (record s { col = 0; row = s.row + 1 })) (new_line t)
      × SameBeyond s (wrap (record s { col = 0; row = s.row + 1 }))
Shows-new_line {s} {t} h =
    let next = record s { col = 0; row = s.row + 1 } in
    elim (dec_lt s.row 24) [
      | yes room ↦
          rw (wrap-inside next (omega arith) (omega arith), new_line-room t (omega arith))
            (
              record {
                same_col = refl;
                same_row = omega arith;
                same_attr = h.same_attr;
                col_in = omega arith;
                row_in = omega arith;
                same_cells = h.same_cells;
              },
              λ j k. refl,
            )
      | no full ↦
          rw (wrap-bottom next (omega arith) (omega arith), new_line-full t (omega arith))
            (Shows-scroll h, λ j k. scroll-after next j (omega arith))
    ]

pub move_to-inside : (n : ℕ) (t : Terminal) → n < 80 → move_to n t ≡ record t { col = n }
unfolding move_to
move_to-inside n t h = ground arith

move_to-over : (n : ℕ) (t : Terminal) → 80 ≤ n → move_to n t ≡ new_line t
unfolding move_to
move_to-over n t h = ground arith

-- Going to a column, with both tests of `vga_putchar` to follow.
pub Shows-move_to :
    {s : Screen} {t : Terminal} (n : ℕ)
    → Shows s t
    → Shows (wrap (record s { col = n })) (move_to n t) × SameBeyond s (wrap (record s { col = n }))
Shows-move_to {s} {t} n h = elim (dec_lt n 80) [
  | yes inside ↦
      rw (wrap-inside (record s { col = n }) inside h.row_in, move_to-inside n t inside)
        (
          record {
            same_col = refl;
            same_row = h.same_row;
            same_attr = h.same_attr;
            col_in = inside;
            row_in = h.row_in;
            same_cells = h.same_cells;
          },
          λ j k. refl,
        )
  | no over ↦
      rw (wrap-over (record s { col = n }) (omega arith), move_to-over n t (omega arith))
        (Shows-new_line h)
]

pub Shows-store :
    {s : Screen} {t : Terminal} (col v : ℕ)
    → col < 80
    → Shows s t
    → Shows
        (record s { cells = store s.cells (s.row * width + col) v })
        (record t { grid = with_cell t.grid t.row col v })
      × SameBeyond s (record s { cells = store s.cells (s.row * width + col) v })
Shows-store {s} {t} col v inside h = (
  record {
    same_col = h.same_col;
    same_row = h.same_row;
    same_attr = h.same_attr;
    col_in = h.col_in;
    row_in = h.row_in;
    same_cells = λ r c hr hc.
        cells-store s.cells t.grid s.row col v inside h.same_cells r c hr hc
        ∙ ap (λ k. with_cell t.grid k col v r c) h.same_row;
  },
  λ j k. store_ne s.cells (s.row * width + col) j v (omega arith),
)
