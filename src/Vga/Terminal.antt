-- ===== src/Vga/Terminal.antt =====
-- What the console promises: a terminal of 25 lines of 80 cells, with no video memory. A line is a
-- function of the column.
use alma_os.Base.{ℕ, List, [], ◌∷◌, ◌+◌, ◌-◌, ◌*◌, ◌/◌, ◌==◌, ltb, ◌&&◌, if◌then◌else◌}
use alma_os.Vga.{entry}

pub record Terminal : Type 0 where
  pub grid : ℕ → ℕ → ℕ
  pub col : ℕ
  pub row : ℕ
  pub attr : ℕ

abbrev pub with_cell : (ℕ → ℕ → ℕ) → ℕ → ℕ → ℕ → ℕ → ℕ → ℕ
with_cell grid row col v r c = if r == row && c == col then v else grid r c

-- The lines move up by one, and a blank one comes in at the bottom.
abbrev pub scrolled : ℕ → (ℕ → ℕ → ℕ) → ℕ → ℕ → ℕ
scrolled attr grid r c = if ltb r 24 then grid (r + 1) c else entry b' ' attr

-- The start of the next line.
unfoldable pub new_line : Terminal → Terminal
new_line t =
    if ltb t.row 24
    then record t { col = 0; row = t.row + 1 }
    else record t { col = 0; grid = scrolled t.attr t.grid }

-- To the column on the same line, or on to the next line from column 80 on.
unfoldable pub move_to : ℕ → Terminal → Terminal
move_to col t = if ltb col 80 then record t { col = col } else new_line t

unfoldable pub backspace : Terminal → Terminal
backspace t =
    if ltb 0 t.col
    then record t { col = t.col - 1; grid = with_cell t.grid t.row (t.col - 1) (entry b' ' t.attr) }
    else t

unfoldable pub print : ℕ → Terminal → Terminal
print c t = move_to (t.col + 1) (record t { grid = with_cell t.grid t.row t.col (entry c t.attr) })

unfoldable pub type_char : ℕ → Terminal → Terminal
type_char c t =
    if c == b'\n'
    then new_line t
    else if c == b'\r'
    then record t { col = 0 }
    else if c == b'\t'
    then move_to ((t.col / 8 + 1) * 8) t
    else if c == 8
    then backspace t
    else print c t

unfoldable pub type_text : List ℕ → Terminal → Terminal
type_text [] t = t
type_text (c ∷ cs) t = type_text cs (type_char c t)
