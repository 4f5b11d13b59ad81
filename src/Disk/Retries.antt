-- ===== src/Disk/Retries.antt =====
-- The three attempts of `DISK_ReadSectors` in src/bootloader/stage2/disk.c.
use alma_os.Base.{
  ℕ, zero, suc, Bool, true, false, ◌+◌, ◌<◌, ◌≤◌, ◌≡◌, ◌⊎◌, inl, inr, refl, ap, ◌∙◌, arith,
  Bool-cases,
}
use native.Mathlib.Decide.{ℕ_discrete}
use alma_os.Disk.{Disk, Chs, attempts, read_sectors, lba_to_chs}

-- The first attempt that succeeds is number `k`.
pub record FirstSuccess (bios : ℕ → Chs → Bool) (at : Chs) (k : ℕ) : Type 0 where
  pub fails_before : (j : ℕ) → j < k → bios j at ≡ false
  pub succeeds : bios k at ≡ true

one_more :
    (bios : ℕ → Chs → Bool) (at : Chs) (resets k : ℕ)
    → bios resets at ≡ false
    → ((j : ℕ) → resets + 1 ≤ j → j < k → bios j at ≡ false)
    → (j : ℕ) → resets ≤ j
    → j < k
    → bios j at ≡ false
one_more bios at resets k f later j h q = elim (ℕ_discrete j resets) [
  | yes e ↦ ap (λ i. bios i at) e ∙ f
  | no ne ↦ later j (omega (arith, h, ne)) q
]

attempts-resets :
    (n : ℕ) (bios : ℕ → Chs → Bool) (at : Chs) (resets : ℕ)
    → ((k : ℕ) × (resets ≤ k)
        × (k < resets + n)
        × (attempts bios at n resets ≡ (true, k))
        × (bios k at ≡ true)
        × ((j : ℕ) → resets ≤ j → j < k → bios j at ≡ false))
      ⊎ ((attempts bios at n resets ≡ (false, resets + n))
          × ((j : ℕ) → resets ≤ j → j < resets + n → bios j at ≡ false))
unfolding attempts
attempts-resets zero bios at resets =
    inr (ap (λ r. (false, r)) (omega arith), λ j h k. absurd (omega (arith, h, k)))
attempts-resets (suc n) bios at resets = elim (Bool-cases (bios resets at)) [
  | inl t ↦
      inl (resets, omega arith, omega arith, rw t refl, t, λ j h k. absurd (omega (arith, h, k)))
  | inr f ↦ rw f (elim (attempts-resets n bios at (resets + 1)) [
    | inl (k, from, below, e, t, before) ↦
        inl (k, omega (arith, from), omega (arith, below), e, t, one_more bios at resets k f before)
    | inr (e, all_fail) ↦ inr (
      e ∙ ap (λ r. (false, r)) (omega arith),
      one_more bios at resets (resets + suc n) f (λ j a b. all_fail j a (omega (arith, b))),
    )
  ])
]

-- A read succeeds with the first of its three attempts that does, after a reset for each that
-- failed; it fails exactly when all three do, after three resets.
pub read_sectors-attempts :
    (bios : ℕ → Chs → Bool) (disk : Disk) (lba : ℕ)
    → let at = lba_to_chs disk lba in
      ((k : ℕ) × (k < 3) × FirstSuccess bios at k × (read_sectors bios disk lba ≡ (true, k)))
      ⊎ (((j : ℕ) → j < 3 → bios j at ≡ false) × (read_sectors bios disk lba ≡ (false, 3)))
unfolding read_sectors
read_sectors-attempts bios disk lba = elim (attempts-resets 3 bios (lba_to_chs disk lba) 0) [
  | inl (k, from, below, e, t, before) ↦
      inl (k, below, record { fails_before = λ j. before j (omega arith); succeeds = t }, e)
  | inr (e, all_fail) ↦ inr (λ j. all_fail j (omega arith), e)
]
