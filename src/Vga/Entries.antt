-- ===== src/Vga/Entries.antt =====
-- The cells that src/kernel/vga.c writes: character below, attribute above.
use alma_os.Base.{
  ℕ, true, ◌+◌, ◌*◌, ◌/◌, ◌%◌, ◌^◌, ◌<◌, ◌≤◌, ◌==◌, bit_or, bit_and, u8, ◌≡◌, refl, ◌∙◌, ap₂, arith,
  checked_below, checked_below-at, ==_iff,
}
use alma_os.Base.Bits.{bit_or-above, bit_or-fields}
use alma_os.Vga.{Screen, widen, entry, set_color}

entry-ascii_sum : (c attr : ℕ) → c < 128 → attr < 256 → entry c attr ≡ attr * 256 + c
unfolding entry widen
entry-ascii_sum c attr h k =
    ap₂ bit_or (ground arith) (omega arith) ∙ bit_or-fields 8 attr c (omega arith)

-- The cell of an ASCII character has the character in its low byte and the whole attribute in its
-- high byte.
pub entry-ascii :
    (c attr : ℕ) → c < 128 → attr < 256 → (entry c attr % 256 ≡ c) × (entry c attr / 256 ≡ attr)
entry-ascii c attr h k =
    (omega (arith, entry-ascii_sum c attr h k), omega (arith, entry-ascii_sum c attr h k))

or_ones : checked_below 256 (λ a. bit_or 255 a == 255) ≡ true
unfolding checked_below
or_ones = refl

-- A character from 128 on, such as ç of the ABNT2 keyboard, loses the attribute: its sign is
-- extended into the high byte, so that the cell has attribute 0xFF whatever the colours are.
pub entry-high :
    (c attr : ℕ)
    → 128 ≤ c
    → c < 256
    → attr < 256
    → (entry c attr % 256 ≡ c) × (entry c attr / 256 ≡ 0xFF)
unfolding entry widen
entry-high c attr h k a =
    let ones = (==_iff (bit_or 255 attr) 255).0 (checked_below-at 256 _ attr or_ones a) in
    let sum : entry c attr ≡ bit_or 255 attr * 256 + c =
      ap₂ bit_or (ground arith) (omega arith) ∙ bit_or-above 8 255 attr c k in
    (omega (arith, sum, ones), omega (arith, sum, ones))

colors_checked :
    checked_below 16
      (λ fg. checked_below 16 (λ bg. u8 (bit_or (bg * 2 ^ 4) (bit_and fg 0x0F)) == bg * 16 + fg))
    ≡ true
unfolding checked_below
colors_checked = refl

-- `vga_set_color` puts the background above the foreground.
pub attr-set_color :
    (s : Screen) (fg bg : ℕ) → fg < 16 → bg < 16 → (set_color s fg bg).attr ≡ bg * 16 + fg
unfolding set_color
attr-set_color s fg bg h k =
    (==_iff _ _).0 (checked_below-at 16 _ bg (checked_below-at 16 _ fg colors_checked h) k)
