-- ===== src/Gfx/Tests.antt =====
-- Tests of the graphics bridge, and its theorems at concrete inputs.
use alma_os.Base.{ℕ, [], ◌∷◌, true, false, none, ◌+◌, ◌*◌, ◌<◌, get_or, ◌≡◌, ◌⊎◌, refl, arith}
use alma_os.Kalloc.{Region}
use alma_os.Video.{vga13_mode, no_mode, palette_entry}
use alma_os.Gfx.{
  Bridge, FbClear, attached, has_pixels, init, pixel_size, known_bpp, present, rgba_to_332,
}
use alma_os.Gfx.Colours.{IsNear, rgba_of, rgba_to_332-palette}
use alma_os.Gfx.Buffers.{IsAttached, IsDetached, init-IsAttached}
use alma_os.Gfx.Rows.{Outside, row_at, shown_row, present-rows}

abbrev detached : Bridge
detached = record {
  pixels = none;
  width = 0;
  height = 0;
  pitch = 0;
  depth = none;
  ready = false;
  mode = no_mode;
}

abbrev memory : ℕ → ℕ
memory q = 0

rgba_to_332-palette_example :
    (rgba_to_332 (rgba_of 200 100 50 255) ≡ 204)
    × (red green blue : ℕ) × (palette_entry 204
        ≡ (0x3C9, red) ∷ (0x3C9, green) ∷ (0x3C9, blue) ∷ [])
    × IsNear 32 200 red
    × IsNear 32 100 green
    × IsNear 64 50 blue
rgba_to_332-palette_example =
    rgba_to_332-palette 200 100 50 255
      (record { red = omega arith; green = omega arith; blue = omega arith; alpha = omega arith })

abbrev region : Region
region = record { base = 0x100000; capacity = 0x800000; offset = 0 }

abbrev no_clear : FbClear
no_clear mem color width height pitch colour = mem

init-IsAttached_example :
    (((init no_clear detached vga13_mode memory region).0.0 ≡ true)
        × IsAttached vga13_mode region
            (init no_clear detached vga13_mode memory region).0.1
            (init no_clear detached vga13_mode memory region).1
      ⊎ ((init no_clear detached vga13_mode memory region).0.0 ≡ false)
        × IsDetached (init no_clear detached vga13_mode memory region).0.1)
    × (has_pixels vga13_mode ≡ false
        → ((init no_clear detached vga13_mode memory region).0.0 ≡ false)
          × ((init no_clear detached vga13_mode memory region).1 ≡ region))
init-IsAttached_example = init-IsAttached no_clear detached vga13_mode memory region (record {
  base_aligned = refl;
  capacity_aligned = refl;
  offset_aligned = refl;
  used_in = omega arith;
  addressable = omega arith;
  small = omega arith;
})

abbrev bridge : Bridge
bridge = attached detached vga13_mode 0x100000 0x200000

present-rows_example :
    ((y j : ℕ)
      → y < 200
      → j < 320 * pixel_size vga13_mode
      → present bridge memory memory (row_at vga13_mode y + j)
        ≡ get_or (shown_row vga13_mode memory y) j 0)
    × ((q : ℕ)
        → ((y : ℕ) → y < 200 → Outside vga13_mode q y)
        → present bridge memory memory q ≡ memory q)
unfolding pixel_size known_bpp
present-rows_example = present-rows bridge memory memory refl refl (omega arith)
