-- ===== src/Vga/Scroll.antt =====
-- The loops over video memory in src/kernel/vga.c.
use alma_os.Base.{
  ℕ, zero, suc, ◌+◌, ◌*◌, ◌<◌, ◌≤◌, if◌then◌else◌, ◌≡◌, ◌≢◌, ◌⊎◌, refl, ◌∙◌, sym, ap, arith, ==_iff,
  ==_ne, ltb,
}
use native.Mathlib.Decide.{ℕ_discrete, dec_lt}
use alma_os.Vga.{Screen, Cells, store, width, entry, shift_up, fill, scroll, clear}

pub store_self : (cells : Cells) (i j v : ℕ) → j ≡ i → store cells i v j ≡ v
store_self cells i j v h = rw ((==_iff j i).1 h)

pub store_ne : (cells : Cells) (i j v : ℕ) → j ≢ i → store cells i v j ≡ cells j
store_ne cells i j v h = rw (==_ne j i h)

shift_up-outside :
    (n : ℕ) (cells : Cells) (i j : ℕ) → (j < i) ⊎ (i + n ≤ j) → shift_up cells i n j ≡ cells j
unfolding shift_up
shift_up-outside zero cells i j h = refl
shift_up-outside (suc n) cells i j h =
    shift_up-outside n (store cells i (cells (i + width))) (i + 1) j (omega arith)
    ∙ store_ne cells i j (cells (i + width)) (omega arith)

shift_up-inside :
    (n : ℕ) (cells : Cells) (i j : ℕ) → i ≤ j → j < i + n → shift_up cells i n j ≡ cells (j + width)
unfolding shift_up
shift_up-inside zero cells i j h k = absurd (omega arith)
shift_up-inside (suc n) cells i j h k = elim (ℕ_discrete j i) [
  | yes e ↦
      shift_up-outside n (store cells i (cells (i + width))) (i + 1) j (omega arith)
      ∙ store_self cells i j (cells (i + width)) e
      ∙ ap (λ t. cells (t + width)) (sym e)
  | no ne ↦
      shift_up-inside n (store cells i (cells (i + width))) (i + 1) j (omega arith) (omega arith)
      ∙ store_ne cells i (j + width) (cells (i + width)) (omega arith)
]

fill-outside :
    (n v : ℕ) (cells : Cells) (i j : ℕ) → (j < i) ⊎ (i + n ≤ j) → fill v cells i n j ≡ cells j
unfolding fill
fill-outside zero v cells i j h = refl
fill-outside (suc n) v cells i j h =
    fill-outside n v (store cells i v) (i + 1) j (omega arith) ∙ store_ne cells i j v (omega arith)

fill-inside : (n v : ℕ) (cells : Cells) (i j : ℕ) → i ≤ j → j < i + n → fill v cells i n j ≡ v
unfolding fill
fill-inside zero v cells i j h k = absurd (omega arith)
fill-inside (suc n) v cells i j h k = elim (ℕ_discrete j i) [
  | yes e ↦ fill-outside n v (store cells i v) (i + 1) j (omega arith) ∙ store_self cells i j v e
  | no ne ↦ fill-inside n v (store cells i v) (i + 1) j (omega arith) (omega arith)
]

-- A cell of the upper 24 lines comes from the line below.
pub scroll-upper : (s : Screen) (j : ℕ) → j < 24 * width → (scroll s).cells j ≡ s.cells (j + width)
unfolding scroll
scroll-upper s j h =
    fill-outside width _ (shift_up s.cells 0 1920) 1920 j (omega arith)
    ∙ shift_up-inside 1920 s.cells 0 j (omega arith) (omega arith)

-- The last line is blank.
pub scroll-last :
    (s : Screen) (j : ℕ) → 24 * width ≤ j → j < 25 * width → (scroll s).cells j ≡ entry b' ' s.attr
unfolding scroll
scroll-last s j h k =
    fill-inside width _ (shift_up s.cells 0 1920) 1920 j (omega arith) (omega arith)

-- Nothing after the screen is written.
pub scroll-after : (s : Screen) (j : ℕ) → 25 * width ≤ j → (scroll s).cells j ≡ s.cells j
unfolding scroll
scroll-after s j h =
    fill-outside width _ (shift_up s.cells 0 1920) 1920 j (omega arith)
    ∙ shift_up-outside 1920 s.cells 0 j (omega arith)

pub clear-cells :
    (s : Screen) (j : ℕ)
    → (clear s).cells j ≡ (if ltb j (25 * width) then entry b' ' s.attr else s.cells j)
unfolding clear
clear-cells s j = elim (dec_lt j (25 * width)) [
  | yes h ↦ fill-inside 2000 _ s.cells 0 j (omega arith) (omega arith) ∙ sym (unfold_if h)
  | no h ↦ fill-outside 2000 _ s.cells 0 j (omega arith) ∙ sym (unfold_else h)
]
  where
    unfold_if :
        j < 25 * width
        → (if ltb j (25 * width) then entry b' ' s.attr else s.cells j) ≡ entry b' ' s.attr
    unfold_if h = ground arith

    unfold_else :
        (j < 25 * width → ⊥)
        → (if ltb j (25 * width) then entry b' ' s.attr else s.cells j) ≡ s.cells j
    unfold_else h = ground arith
