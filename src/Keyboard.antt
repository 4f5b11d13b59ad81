-- ===== src/Keyboard.antt =====
-- The PS/2 keyboard driver, src/kernel/keyboard.c: the ring of 128 characters that the interrupt
-- handler fills and the shell drains, the modifier flags, and the choice of layout.
-- `inb(KB_DATA_PORT)` is the handler's argument. A `char` is its bit pattern; the comparisons of
-- the source with letters come out the same on signed and on unsigned characters.
pub mod Tables
pub mod Spec
pub mod Decode
pub mod Ring
pub mod Run
pub mod Layouts
mod Tests
use alma_os.Base.{
  ℕ, suc, zero, List, [], ◌∷◌, Bool, true, false, not, ◌&&◌, ◌||◌, Option, none, some, ◌+◌, ◌%◌,
  ◌==◌, leb, if◌then◌else◌, get_or, set, replicate, bit_xor, has_bit,
}

-- The arrays that `kb_map`, `kb_map_shift` and `kb_map_altgr` can point to.
pub data Table : Type 0 where
  us shift_us altgr_us abnt2 shift_abnt2 altgr_abnt2 : Table

unfoldable pub contents : Table → List ℕ
contents us = Tables.us
contents shift_us = Tables.shift_us
contents altgr_us = Tables.altgr_us
contents abnt2 = Tables.abnt2
contents shift_abnt2 = Tables.shift_abnt2
contents altgr_abnt2 = Tables.altgr_abnt2

pub data Layout : Type 0 where
  layout_us layout_abnt2 : Layout

abbrev pub buffer_size : ℕ
buffer_size = 128

-- The file's static variables.
pub record Keyboard : Type 0 where
  pub buffer : List ℕ
  pub head : ℕ
  pub tail : ℕ
  pub shift : Bool
  pub altgr : Bool
  pub caps : Bool
  pub ext : Bool
  pub kb_map : Table
  pub map_shift : Table
  pub map_altgr : Table

-- A full ring drops the character.
pub push : Keyboard → ℕ → Keyboard
push s c =
    let next = (s.head + 1) % buffer_size in
    if next == s.tail then s else record s { buffer = set s.buffer s.head c; head = next }

pub set_layout : Keyboard → Layout → Keyboard
set_layout s layout_abnt2 = record s {
  kb_map = abnt2;
  map_shift = shift_abnt2;
  map_altgr = altgr_abnt2;
}
set_layout s layout_us = record s { kb_map = us; map_shift = shift_us; map_altgr = altgr_us }

layout_of : Table → Layout
layout_of abnt2 = layout_abnt2
layout_of _ = layout_us

-- Compares the pointer `kb_map`.
pub get_layout : Keyboard → Layout
unfolding layout_of
get_layout s = layout_of s.kb_map

pub init : Keyboard → Keyboard
unfolding set_layout
init s =
    set_layout
      (record s { head = 0; tail = 0; shift = false; altgr = false; caps = false; ext = false })
      layout_abnt2

-- The static initialisers.
abbrev pub power_on : Keyboard
power_on = record {
  buffer = replicate buffer_size 0;
  head = 0;
  tail = 0;
  shift = false;
  altgr = false;
  caps = false;
  ext = false;
  kb_map = abnt2;
  map_shift = shift_abnt2;
  map_altgr = altgr_abnt2;
}

unfoldable pub is_letter : ℕ → Bool
is_letter c = leb b'a' c && leb c b'z' || leb b'A' c && leb c b'Z'

-- The character of a make code that is no modifier, from the flags and the active tables.
unfoldable pub translate : Keyboard → ℕ → ℕ
translate s scancode =
    let table = if s.altgr then s.map_altgr else if s.shift then s.map_shift else s.kb_map in
    let c = get_or (contents table) scancode 0 in
    if s.caps && is_letter c then bit_xor c 0x20 else c

-- `if (c) kb_push(c)`
pub push_nonzero : Keyboard → ℕ → Keyboard
push_nonzero s c = if c == 0 then s else push s c

-- A key release: `released` is `scancode & 0x7F`.
pub release : Keyboard → ℕ → Keyboard
release s released = record s {
  shift = if released == 0x2A || released == 0x36 then false else s.shift;
  altgr = if s.ext && released == 0x38 then false else s.altgr;
  ext = false;
}

-- A key press.
pub press : Keyboard → ℕ → Keyboard
press s scancode =
    if scancode == 0x2A || scancode == 0x36
    then record s { shift = true; ext = false }
    else if scancode == 0x3A
    then record s { caps = not s.caps; ext = false }
    else if s.ext && scancode == 0x38
    then record s { altgr = true; ext = false }
    else (let s' = record s { ext = false } in push_nonzero s' (translate s' scancode))

pub handler : Keyboard → ℕ → Keyboard
handler s scancode =
    if scancode == 0xE0
    then record s { ext = true }
    else if has_bit scancode 7
    then release s (scancode % 128)
    else press s scancode

pub has_data : Keyboard → Bool
has_data s = not (s.head == s.tail)

-- The character at the tail, which moves on.
unfoldable pub pop : Keyboard → ℕ × Keyboard
pop s = (get_or s.buffer s.tail 0, record s { tail = (s.tail + 1) % buffer_size })

-- Not blocking: 0 for an empty ring.
pub read : Keyboard → ℕ × Keyboard
unfolding pop
read s = if s.head == s.tail then (0, s) else pop s

-- Blocking: while the ring is empty, `hlt` waits for the next interrupt. The list holds the
-- scancodes that come while it waits; `none` means that it waits still.
pub getchar : Keyboard → List ℕ → Option (ℕ × Keyboard)
unfolding pop
getchar s [] = if s.head == s.tail then none else some (pop s)
getchar s (code ∷ codes) =
    let wait = getchar (handler s code) codes in if s.head == s.tail then wait else some (pop s)
