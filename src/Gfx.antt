-- ===== src/Gfx.antt =====
-- The graphics bridge, src/kernel/gfx_bridge.c: a buffer in memory for the rasterizer and its copy to
-- the framebuffer of the video mode. Pointers are numbers, since no object runs past the end of the
-- address space. A float is its bit pattern.
pub mod Colours
pub mod Buffers
pub mod Rows
mod Tests
use alma_os.Base.{
  ℕ, zero, suc, List, [], ◌∷◌, ◌++◌, Bool, true, false, not, ◌&&◌, ◌||◌, Option, none, some, ◌+◌,
  ◌-◌, ◌*◌, ◌/◌, ◌%◌, ◌^◌, ◌==◌, ltb, leb, if◌then◌else◌, u8, u16, u32, bit_or,
}
use alma_os.CString.{Memory, store}
use alma_os.Kalloc.{Region, pages}
use alma_os.Video.{Kind, text, vga13, vbe_lfb, ModeInfo}

unfoldable pub channel_of : ℕ → ℕ → ℕ
channel_of rgba shift = u8 (rgba / 2 ^ shift % 2 ^ 8)

unfoldable pub narrow_channel : ℕ → ℕ → ℕ
narrow_channel value size = if size == 0 || leb 8 size then value else value / 2 ^ (8 - size)

-- `uint32_t` shifts: what leaves the 32 bits is lost.
unfoldable pub rgba_to_direct : ModeInfo → ℕ → ℕ
rgba_to_direct mode rgba =
    let red = narrow_channel (channel_of rgba 24) mode.red_size in
    let green = narrow_channel (channel_of rgba 16) mode.green_size in
    let blue = narrow_channel (channel_of rgba 8) mode.blue_size in
    bit_or (bit_or (u32 (red * 2 ^ mode.red_pos)) (u32 (green * 2 ^ mode.green_pos)))
      (u32 (blue * 2 ^ mode.blue_pos))

unfoldable pub rgba_to_332 : ℕ → ℕ
rgba_to_332 rgba =
    let red = channel_of rgba 24 / 2 ^ 5 in
    let green = channel_of rgba 16 / 2 ^ 5 in
    let blue = channel_of rgba 8 / 2 ^ 6 in u8 (bit_or (bit_or (red * 2 ^ 5) (green * 2 ^ 2)) blue)

-- The file's static variables; the buffers are addresses, `none` for NULL.
pub record Bridge : Type 0 where
  pub pixels : Option ℕ
  pub width : ℕ
  pub height : ℕ
  pub pitch : ℕ
  pub depth : Option ℕ
  pub ready : Bool
  pub mode : ModeInfo

-- The words of memory: a pixel or a float at each address.
abbrev pub Words : Type 0
Words = ℕ → ℕ

-- `memset(&bridge_framebuffer, 0, …)` and the two resets before it.
abbrev pub cleared : Bridge → Bridge
cleared b = record b {
  pixels = none;
  width = 0;
  height = 0;
  pitch = 0;
  depth = none;
  ready = false;
}

-- `GFX_BRIDGE_DEPTH_FAR`, 1.0e30
abbrev pub depth_far : ℕ
depth_far = 0x7149F2CA

-- The loop of `gfx_bridge_clear_depth`: `n` floats from the `i`th one on.
unfoldable pub fill_far : Words → ℕ → ℕ → ℕ → Words
fill_far mem depth i zero = mem
fill_far mem depth i (suc n) = fill_far (store mem (depth + 4 * i) depth_far) depth (i + 1) n

-- `gfx_bridge_clear_depth`
unfoldable pub clear_depth : Bridge → Words → Words
clear_depth b mem = elim b.depth [
  | none ↦ mem
  | some depth ↦ fill_far mem depth 0 (u32 (b.width * b.height))
]

-- `gfx_fb_clear` of the rasterizer: the pixels of a buffer, its pitch in words, set to a colour.
abbrev pub FbClear : Type 0
FbClear = Words → ℕ → ℕ → ℕ → ℕ → ℕ → Words

-- The bytes of a buffer with four for each pixel.
abbrev pub buffer_bytes : ModeInfo → ℕ
buffer_bytes mode = u32 (u32 (mode.width * mode.height) * 4)

-- No `return false` before the memory is asked for.
unfoldable pub has_pixels : ModeInfo → Bool
has_pixels mode = elim mode.kind [
  | text ↦ false
  | _ ↦ not (mode.framebuffer == 0 || mode.width == 0 || mode.height == 0)
]

abbrev pub attached : Bridge → ModeInfo → ℕ → ℕ → Bridge
attached b mode color depth = record b {
  mode = mode;
  pixels = some color;
  width = mode.width;
  height = mode.height;
  pitch = u32 (mode.width * 4);
  depth = some depth;
  ready = true;
}

-- The second request: a block for the colours is there.
unfoldable pub with_color :
    FbClear → Bridge → ModeInfo → Words → ℕ → Option ℕ × Region → (Bool × Bridge × Words) × Region
with_color clear b mode mem color (none, r) = ((false, b, mem), r)
with_color clear b mode mem color (some depth, r) =
    let b' = attached b mode color depth in
    let mem' = clear mem color b'.width b'.height b'.pitch 0x000000FF in
    ((true, b', clear_depth b' mem'), r)

-- The first request.
unfoldable pub request :
    FbClear → Bridge → ModeInfo → Words → Option ℕ × Region → (Bool × Bridge × Words) × Region
request clear b mode mem (none, r) = ((false, b, mem), r)
request clear b mode mem (some color, r) =
    with_color clear b mode mem color (pages r (buffer_bytes mode))

-- `gfx_bridge_init`, with the allocator's region: the result, the bridge, the memory and the region.
unfoldable pub init :
    FbClear → Bridge → ModeInfo → Words → Region → (Bool × Bridge × Words) × Region
init clear b mode mem r =
    let b' = cleared b in
    let asked = request clear b' mode mem (pages r (buffer_bytes mode)) in
    if has_pixels mode then asked else ((false, b', mem), r)

-- `gfx_bridge_framebuffer` and `gfx_bridge_depth_buffer`
unfoldable pub framebuffer : Bridge → Option ℕ
framebuffer b = if b.ready then b.pixels else none

unfoldable pub depth_buffer : Bridge → Option ℕ
depth_buffer b = if b.ready then b.depth else none

-- The bytes of a number, the lowest first.
unfoldable pub bytes_of : ℕ → ℕ → List ℕ
bytes_of zero n = []
bytes_of (suc k) n = u8 n ∷ bytes_of k (n / 2 ^ 8)

-- A case of the `switch`, and not `default: return`.
unfoldable pub known_bpp : ℕ → Bool
known_bpp bpp = bpp == 8 || bpp == 15 || bpp == 16 || bpp == 24 || bpp == 32

-- What `gfx_bridge_present` writes for a pixel. A `uint16_t` and a `uint32_t` are stored with the
-- lowest byte first.
unfoldable pub pixel_bytes : ModeInfo → ℕ → List ℕ
pixel_bytes mode rgba =
    if mode.bpp == 8
    then rgba_to_332 rgba ∷ []
    else if mode.bpp == 15 || mode.bpp == 16
    then bytes_of 2 (u16 (rgba_to_direct mode rgba))
    else if mode.bpp == 24
    then bytes_of 3 (rgba_to_direct mode rgba)
    else bytes_of 4 (rgba_to_direct mode rgba)

unfoldable pub store_all : Memory → ℕ → List ℕ → Memory
store_all mem p [] = mem
store_all mem p (b ∷ bs) = store_all (store mem p b) (p + 1) bs

-- A row from pixel `x` on, `n` pixels to go; each takes `size` bytes.
unfoldable pub put_row : (ℕ → List ℕ) → ℕ → (ℕ → ℕ) → ℕ → ℕ → ℕ → Memory → Memory
put_row convert size source row x zero mem = mem
put_row convert size source row x (suc n) mem =
    put_row convert size source row (x + 1) n (store_all mem (row + x * size) (convert (source x)))

-- The rows from `y` on, `n` rows to go.
unfoldable pub put_rows : (ℕ → List ℕ) → ℕ → ModeInfo → (ℕ → ℕ) → ℕ → ℕ → Memory → Memory
put_rows convert size mode source y zero mem = mem
put_rows convert size mode source y (suc n) mem = put_rows convert size mode source (y + 1) n (
    put_row convert size (λ x. source (y * mode.width + x)) (mode.framebuffer + y * mode.pitch) 0
      mode.width mem)

-- The bytes of a pixel.
unfoldable pub pixel_size : ModeInfo → ℕ
pixel_size mode =
    if mode.bpp == 8
    then 1
    else if mode.bpp == 15 || mode.bpp == 16
    then 2
    else if mode.bpp == 24
    then 3
    else 4

-- `gfx_bridge_present`; `source` gives the pixels of the buffer.
unfoldable pub present : Bridge → (ℕ → ℕ) → Memory → Memory
present b source mem =
    let rows =
      put_rows (pixel_bytes b.mode) (pixel_size b.mode) b.mode source 0 b.mode.height mem in
    if b.ready && known_bpp b.mode.bpp then rows else mem
