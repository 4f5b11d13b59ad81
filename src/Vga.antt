-- ===== src/Vga.antt =====
-- The text console, src/kernel/vga.c up to its printf: 80 x 25 cells of a character and an attribute
-- in video memory, a write position, and the hardware cursor. `vga_putchar` hands every character
-- to the serial port too. Cells are numbered from VGA_ADDR on, so a write past the screen would
-- show as a cell from 2000 on.
pub mod Entries
pub mod Scroll
pub mod Grid
pub mod Terminal
pub mod Typing
mod Tests
use alma_os.Base.{
  ℕ, zero, suc, List, [], ◌∷◌, ◌++◌, Bool, true, false, ◌+◌, ◌-◌, ◌*◌, ◌/◌, ◌%◌, ◌^◌, ◌==◌, leb,
  ltb, if◌then◌else◌, bit_or, bit_and, u8, u16,
}

abbrev pub width : ℕ
width = 80

abbrev pub height : ℕ
height = 25

abbrev pub Cells : Type 0
Cells = ℕ → ℕ

abbrev pub store : Cells → ℕ → ℕ → Cells
store cells i v = λ j. if j == i then v else cells j

-- The file's static variables, video memory, the CRT's cursor register and what went to the serial
-- port, oldest first.
pub record Screen : Type 0 where
  pub cells : Cells
  pub col : ℕ
  pub row : ℕ
  pub attr : ℕ
  pub cursor : ℕ
  pub mirrored : List ℕ

-- `(uint16_t)c` of a `char`, which is signed on this target.
unfoldable pub widen : ℕ → ℕ
widen c = if ltb c 128 then c else 0xFF00 + c

-- `vga_entry`
pub entry : ℕ → ℕ → ℕ
unfolding widen
entry c attr = bit_or (widen c) (u16 (attr * 2 ^ 8))

-- The two bytes that `vga_update_cursor` writes make up the position.
pub update_cursor : Screen → Screen
update_cursor s = record s { cursor = u16 (s.row * width + s.col) }

-- The first loop of `vga_scroll` from `i` on, with `n` rounds left.
pub shift_up : Cells → ℕ → ℕ → Cells
shift_up cells i zero = cells
shift_up cells i (suc n) = shift_up (store cells i (cells (i + width))) (i + 1) n

-- `for (; n; i++, n--) vga[i] = v`
pub fill : ℕ → Cells → ℕ → ℕ → Cells
fill v cells i zero = cells
fill v cells i (suc n) = fill v (store cells i v) (i + 1) n

pub scroll : Screen → Screen
scroll s = record s {
  cells =
      fill (entry b' ' s.attr) (shift_up s.cells 0 ((height - 1) * width)) ((height - 1) * width)
        width;
  row = height - 1;
}

pub clear : Screen → Screen
unfolding update_cursor
clear s =
    update_cursor
      (record s { cells = fill (entry b' ' s.attr) s.cells 0 (width * height); col = 0; row = 0 })

pub init : Screen → Screen
unfolding clear
init s = clear (record s { attr = 0x07; col = 0; row = 0 })

pub set_color : Screen → ℕ → ℕ → Screen
set_color s fg bg = record s { attr = u8 (bit_or (bg * 2 ^ 4) (bit_and fg 0x0F)) }

-- The part of `vga_putchar` that looks at the character.
pub place : Screen → ℕ → Screen
place s c =
    if c == b'\n'
    then record s { col = 0; row = s.row + 1 }
    else if c == b'\r'
    then record s { col = 0 }
    else if c == b'\t'
    then record s { col = (s.col + 8) / 8 * 8 }
    else if c == 8
    then if ltb 0 s.col
      then record s {
        col = s.col - 1;
        cells = store s.cells (s.row * width + (s.col - 1)) (entry b' ' s.attr);
      }
      else s
    else record s {
      cells = store s.cells (s.row * width + s.col) (entry c s.attr);
      col = s.col + 1;
    }

-- The two tests that follow.
pub wrap : Screen → Screen
wrap s =
    let s' = if leb width s.col then record s { col = 0; row = s.row + 1 } else s in
    if leb height s'.row then scroll s' else s'

pub putchar : Screen → ℕ → Screen
putchar s c = update_cursor (wrap (place (record s { mirrored = s.mirrored ++ (c ∷ []) }) c))

pub puts : Screen → List ℕ → Screen
puts s [] = s
puts s (c ∷ cs) = puts (putchar s c) cs

pub set_cursor : Screen → ℕ → ℕ → Screen
set_cursor s col row = update_cursor (record s { col = col; row = row })
