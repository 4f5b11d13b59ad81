-- ===== src/Gfx/Colours.antt =====
-- The colours of src/kernel/gfx_bridge.c and the palette of src/kernel/video.c.
use alma_os.Base.{
  ℕ, [], ◌∷◌, ◌+◌, ◌*◌, ◌/◌, ◌%◌, ◌^◌, ◌<◌, ◌≤◌, u8, bit_or, ◌≡◌, refl, ap, ◌∙◌, arith,
}
use alma_os.Base.Bits.{bit_or-fields, bit_or_comm}
use alma_os.Video.{palette_entry}
use alma_os.Gfx.{channel_of, rgba_to_332}

-- A colour of the rasterizer from its channels.
abbrev pub rgba_of : ℕ → ℕ → ℕ → ℕ → ℕ
rgba_of r g b a = r * 2 ^ 24 + g * 2 ^ 16 + b * 2 ^ 8 + a

-- Channels of 8 bits.
pub record AreBytes (r g b a : ℕ) : Type 0 where
  pub red : r < 2 ^ 8
  pub green : g < 2 ^ 8
  pub blue : b < 2 ^ 8
  pub alpha : a < 2 ^ 8

channels :
    (r g b a : ℕ)
    → AreBytes r g b a
    → (channel_of (rgba_of r g b a) 24 ≡ r)
      × (channel_of (rgba_of r g b a) 16 ≡ g)
      × (channel_of (rgba_of r g b a) 8 ≡ b)
unfolding channel_of
channels r g b a h = (
  omega (arith, h.red, h.green, h.blue, h.alpha),
  omega (arith, h.red, h.green, h.blue, h.alpha),
  omega (arith, h.red, h.green, h.blue, h.alpha),
)

index_332 :
    (r g b : ℕ)
    → r < 2 ^ 3
    → g < 2 ^ 3
    → b < 2 ^ 2
    → u8 (bit_or (bit_or (r * 2 ^ 5) (g * 2 ^ 2)) b) ≡ r * 2 ^ 5 + g * 2 ^ 2 + b
index_332 r g b hr hg hb =
    let high : bit_or (r * 2 ^ 5) (g * 2 ^ 2) ≡ (r * 2 ^ 3 + g) * 2 ^ 2 =
      bit_or_comm (r * 2 ^ 5) (g * 2 ^ 2)
      ∙ (bit_or-fields 5 r (g * 2 ^ 2) (omega (arith, hg)) ∙ omega arith) in
    let whole : bit_or ((r * 2 ^ 3 + g) * 2 ^ 2) b ≡ r * 2 ^ 5 + g * 2 ^ 2 + b =
      bit_or_comm ((r * 2 ^ 3 + g) * 2 ^ 2) b
      ∙ (bit_or-fields 2 (r * 2 ^ 3 + g) b hb ∙ omega arith) in
    ap (λ t. u8 (bit_or t b)) high ∙ (ap u8 whole ∙ omega (arith, hr, hg, hb))

-- A component of the DAC, 6 bits, that stands for a channel of 8 up to a step of its field.
abbrev pub IsNear : ℕ → ℕ → ℕ → Type 0
IsNear step channel component = (component * 4 ≤ channel + step) × (channel < component * 4 + step)

IsNear-seven : (c : ℕ) → c < 2 ^ 8 → IsNear 32 c (u8 (c / 2 ^ 5 * 255 / 7 / 2 ^ 2))
IsNear-seven c h = (omega (arith, h), omega (arith, h))

IsNear-three : (c : ℕ) → c < 2 ^ 8 → IsNear 64 c (u8 (c / 2 ^ 6 * 255 / 3 / 2 ^ 2))
IsNear-three c h = (omega (arith, h), omega (arith, h))

palette_entry-fields :
    (red green blue : ℕ)
    → red < 2 ^ 3
    → green < 2 ^ 3
    → blue < 2 ^ 2
    → palette_entry (red * 2 ^ 5 + green * 2 ^ 2 + blue)
      ≡ (0x3C9, u8 (red * 255 / 7 / 2 ^ 2))
        ∷ (0x3C9, u8 (green * 255 / 7 / 2 ^ 2))
        ∷ (0x3C9, u8 (blue * 255 / 3 / 2 ^ 2))
        ∷ []
unfolding palette_entry
palette_entry-fields red green blue hr hg hb =
    let index = red * 2 ^ 5 + green * 2 ^ 2 + blue in
    let first : index / 2 ^ 5 % 2 ^ 3 ≡ red = omega (arith, hr, hg, hb) in
    let second : index / 2 ^ 2 % 2 ^ 3 ≡ green = omega (arith, hr, hg, hb) in
    let third : index % 2 ^ 2 ≡ blue = omega (arith, hr, hg, hb) in rw (first, second, third) refl

-- The palette shows a colour by the index that the bridge gives it: the index is made of the highest
-- bits of the channels, and the components of its entry are each within a step of their field, 32
-- for red and green and 64 for blue, of the channel.
pub rgba_to_332-palette :
    (r g b a : ℕ)
    → AreBytes r g b a
    → let index = r / 2 ^ 5 * 2 ^ 5 + g / 2 ^ 5 * 2 ^ 2 + b / 2 ^ 6 in
      (rgba_to_332 (rgba_of r g b a) ≡ index)
      × (red green blue : ℕ) × (palette_entry index
          ≡ (0x3C9, red) ∷ (0x3C9, green) ∷ (0x3C9, blue) ∷ [])
      × IsNear 32 r red
      × IsNear 32 g green
      × IsNear 64 b blue
rgba_to_332-palette r g b a h =
    let (red, green, blue) = channels r g b a h in
    let r3 : r / 2 ^ 5 < 2 ^ 3 = omega (arith, h.red) in
    let g3 : g / 2 ^ 5 < 2 ^ 3 = omega (arith, h.green) in
    let b2 : b / 2 ^ 6 < 2 ^ 2 = omega (arith, h.blue) in
    (
      unfold rgba_to_332 in
          rw (red, green, blue) (index_332 (r / 2 ^ 5) (g / 2 ^ 5) (b / 2 ^ 6) r3 g3 b2),
      u8 (r / 2 ^ 5 * 255 / 7 / 2 ^ 2),
      u8 (g / 2 ^ 5 * 255 / 7 / 2 ^ 2),
      u8 (b / 2 ^ 6 * 255 / 3 / 2 ^ 2),
      palette_entry-fields (r / 2 ^ 5) (g / 2 ^ 5) (b / 2 ^ 6) r3 g3 b2,
      IsNear-seven r h.red,
      IsNear-seven g h.green,
      IsNear-three b h.blue,
    )
