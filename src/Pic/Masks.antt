-- ===== src/Pic/Masks.antt =====
-- The masks that src/kernel/pic.c sets.
use alma_os.Base.{
  ℕ, zero, suc, List, ◌∷◌, Bool, true, false, not, ◌&&◌, ◌||◌, ◌%◌, ◌<◌, ◌==◌, ==_iff, ==_ne, ltb,
  if◌then◌else◌, has_bit, ◌≡◌, ◌≢◌, inl, inr, refl, sym, ap, ◌∙◌, arith, Bool-cases,
}
use alma_os.Ports.{Event, wrote, asked, Device, inb, written}
use alma_os.Pic.{port_of, line_of, with_line, without_line, set_mask, clear_mask}

-- A test of all numbers below a bound.
abbrev all_below : ℕ → (ℕ → Bool) → Bool
all_below zero test = true
all_below (suc n) test = test n && all_below n test

all_below-test : (n : ℕ) (test : ℕ → Bool) (k : ℕ) → all_below n test ≡ true → k < n → test k ≡ true
all_below-test zero test k h below = absurd (omega (arith, below))
all_below-test (suc n) test k h below = elim (Bool-cases (k == n)) [
  | inl e ↦ ap test ((==_iff k n).0 e) ∙ (ground arith)
  | inr e ↦ all_below-test n test k (ground arith) (ground arith)
]

same : Bool → Bool → Bool
same a b = if a then b else not b

-- A line and another bit of a byte.
abbrev is_right : ℕ → ℕ → ℕ → Bool
is_right v k j =
    same (has_bit (with_line v k) j) (j == k || has_bit v j)
    && same (has_bit (without_line v k) j) (not (j == k) && has_bit v j)

all_right : all_below 256 (λ v. all_below 8 (λ k. all_below 8 (λ j. is_right v k j))) ≡ true
unfolding same
all_right = refl

same-≡ : (a b : Bool) → same a b ≡ true → a ≡ b
unfolding same
same-≡ true b h = sym h
same-≡ false b h = ground arith

right_lines :
    (v k j : ℕ)
    → v < 256
    → k < 8
    → j < 8
    → (has_bit (with_line v k) j ≡ (j == k || has_bit v j))
      × (has_bit (without_line v k) j ≡ (not (j == k) && has_bit v j))
right_lines v k j v_in k_in j_in =
    let at_v =
      all_below-test 256 (λ v. all_below 8 (λ k. all_below 8 (λ j. is_right v k j))) v all_right
        v_in in
    let at_k = all_below-test 8 (λ k. all_below 8 (λ j. is_right v k j)) k at_v k_in in
    let both = all_below-test 8 (λ j. is_right v k j) j at_k j_in in
    let two = both_true _ _ both in (same-≡ _ _ two.0, same-≡ _ _ two.1)
  where
    both_true : (a b : Bool) → (a && b) ≡ true → (a ≡ true) × (b ≡ true)
    both_true true b h = (refl, h)
    both_true false b h = absurd (ground arith)

-- One byte is written, to one port, and nothing elsewhere; its bits are given.
pub record IsMasked (port : ℕ) (bits : ℕ → Bool) (h h2 : List Event) : Type 0 where
  pub mask : ℕ
  pub here : written port h2 ≡ mask ∷ written port h
  pub elsewhere : (p : ℕ) → p ≢ port → written p h2 ≡ written p h
  pub bits_of_mask : (j : ℕ) → j < 8 → has_bit mask j ≡ bits j

IsMasked-write :
    (port mask : ℕ) (bits : ℕ → Bool) (h : List Event)
    → ((j : ℕ) → j < 8 → has_bit mask j ≡ bits j)
    → IsMasked port bits h (wrote port mask ∷ asked port ∷ h)
unfolding written
IsMasked-write port mask bits h right = record {
  mask = mask;
  here = rw ((==_iff port port).1 refl) refl;
  elsewhere = λ p ne. rw (==_ne port p (λ e. ne (sym e))) refl;
  bits_of_mask = right;
}

-- For each of the 16 interrupt lines, `pic_set_mask` and `pic_clear_mask` read the mask of the line's
-- controller and write it back with the line's bit set or cleared and the other bits as they were;
-- nothing is written to another port.
pub masks-IsMasked :
    (device : Device) (irq : ℕ) (h : List Event)
    → irq < 16
    → let port : ℕ = if ltb irq 8 then 0x21 else 0xA1 in
      let line = irq % 8 in
      let before = inb device h port in
      IsMasked port (λ j. j == line || has_bit before j) h (set_mask device irq h)
      × IsMasked port (λ j. not (j == line) && has_bit before j) h (clear_mask device irq h)
unfolding set_mask clear_mask port_of
masks-IsMasked device irq h below =
    let port = port_of irq in
    let v = inb device h port in
    let line : line_of irq ≡ irq % 8 = unfold line_of in ground arith in
    rw line (
      IsMasked-write port (with_line v (irq % 8)) _ h
          (λ j j_in. (right_lines v (irq % 8) j (omega arith) (omega arith) j_in).0),
      IsMasked-write port (without_line v (irq % 8)) _ h
          (λ j j_in. (right_lines v (irq % 8) j (omega arith) (omega arith) j_in).1),
    )
