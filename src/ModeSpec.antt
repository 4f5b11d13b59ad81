-- ===== src/ModeSpec.antt =====
-- The specification of a video mode that the command `mode` takes, src/kernel/cmd_video.c:
-- `vga13`, or a width, a height and perhaps the bits per pixel, with `x` between. A pointer into the
-- text is what is left of it.
pub mod Sizes
mod Tests
use alma_os.Base.{
  ℕ, List, [], ◌∷◌, Bool, true, false, not, ◌&&◌, Option, none, some, ◌+◌, ◌-◌, ◌*◌, ◌%◌, ◌^◌, ◌==◌,
  leb, if◌then◌else◌, get_or, drop, u32,
}
use alma_os.Base.Text.{codes}
use alma_os.CString.Texts.{differ}
use alma_os.Getopt.{is_zero}

-- `*width`, `*height` and `*bpp`.
pub record Mode : Type 0 where
  pub width : ℕ
  pub height : ℕ
  pub bpp : ℕ

abbrev pub is_digit : ℕ → Bool
is_digit c = leb b'0' c && leb c b'9'

-- `parse_uint` with the value and `any` so far: whether there was a digit, the value, and the rest.
pub parse_uint_from : ℕ → Bool → List ℕ → Bool × ℕ × List ℕ
parse_uint_from value any [] = (any, value, [])
parse_uint_from value any (c ∷ cs) =
    let on = parse_uint_from (u32 (u32 (value * 10) + (c - b'0'))) true cs in
    if is_digit c then on else (any, value, c ∷ cs)

pub parse_uint : List ℕ → Bool × ℕ × List ℕ
parse_uint cursor = parse_uint_from 0 false cursor

-- `*cursor == c`, where the end of the text is the NUL.
abbrev pub starts_with : ℕ → List ℕ → Bool
starts_with c cursor = get_or cursor 0 0 == c

-- From the third number on.
pub parse_bpp : ℕ → ℕ → List ℕ → Option Mode
parse_bpp width height cursor =
    let r = parse_uint cursor in
    if not r.0
    then none
    else if starts_with 0 r.2
    then some (record { width = width; height = height; bpp = r.1 })
    else none

-- From the second number on.
pub parse_height : ℕ → List ℕ → Option Mode
parse_height width cursor =
    let r = parse_uint cursor in
    if not r.0
    then none
    else if starts_with 0 r.2
    then some (record { width = width; height = r.1; bpp = 32 })
    else if not (starts_with b'x' r.2)
    then none
    else parse_bpp width r.1 (drop 1 r.2)

-- From the first number on.
pub parse_width : List ℕ → Option Mode
parse_width cursor =
    let r = parse_uint cursor in
    if not r.0
    then none
    else if not (starts_with b'x' r.2)
    then none
    else parse_height r.1 (drop 1 r.2)

-- `parse_mode_spec`; `none` for false.
pub parse_mode_spec : List ℕ → Option Mode
parse_mode_spec spec =
    if is_zero (differ spec (codes "vga13"))
    then some (record { width = 0; height = 0; bpp = 8 })
    else parse_width spec
