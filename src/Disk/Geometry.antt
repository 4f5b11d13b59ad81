-- ===== src/Disk/Geometry.antt =====
-- Cylinder, head and sector in src/bootloader/stage2/disk.c.
use alma_os.Base.{ℕ, ◌+◌, ◌-◌, ◌*◌, ◌/◌, ◌<◌, ◌≤◌, ◌^◌, ◌≡◌, ◌↔◌, refl, ap₂, ◌∙◌, arith, u16}
use native.Mathlib.Nat.{div-add-mod', mod-lt, div-lt_iff_lt-mul}
use alma_os.Disk.{Disk, Chs, lba_to_chs}

-- The number of a sector on the disk.
unfoldable pub number_of : Disk → Chs → ℕ
number_of disk p = (p.cylinder * disk.heads + p.head) * disk.sectors + (p.sector - 1)

-- There are tracks with sectors.
pub record HasSectors (disk : Disk) : Type 0 where
  pub sectors_pos : 0 < disk.sectors
  pub heads_pos : 0 < disk.heads

whole_lba : (disk : Disk) (lba : ℕ) → lba < 2 ^ 16 → number_of disk (lba_to_chs disk lba) ≡ lba
unfolding number_of lba_to_chs
whole_lba disk lba h =
    let same : u16 lba ≡ lba = omega arith in
    rw same (
      ap₂ (λ t s. t * disk.sectors + s) (div-add-mod' (lba / disk.sectors) disk.heads) (omega arith)
      ∙ div-add-mod' lba disk.sectors)

-- On a geometry with heads and sectors, the address of a sector below 65536 names the sector that was
-- asked for, with its head and its sector within the geometry; its cylinder is within it exactly
-- when the sector lies on the disk.
pub lba_to_chs-number_of :
    (disk : Disk) (lba : ℕ)
    → HasSectors disk
    → lba < 2 ^ 16
    → let p = lba_to_chs disk lba in
      (number_of disk p ≡ lba)
      × ((p.cylinder < disk.cylinders) ↔ (lba < disk.cylinders * disk.heads * disk.sectors))
      × (p.head < disk.heads)
      × (1 ≤ p.sector)
      × (p.sector ≤ disk.sectors)
unfolding lba_to_chs
lba_to_chs-number_of disk lba h small =
    let same : u16 lba ≡ lba = omega arith in
    (
      whole_lba disk lba small,
      rw same (
        (λ low. (div-lt_iff_lt-mul h.sectors_pos).0 ((div-lt_iff_lt-mul h.heads_pos).0 low)),
        (λ on_disk.
            (div-lt_iff_lt-mul h.heads_pos).1 ((div-lt_iff_lt-mul h.sectors_pos).1 on_disk)),
      ),
      mod-lt (u16 lba / disk.sectors) h.heads_pos,
      omega arith,
      omega (arith, mod-lt (u16 lba) h.sectors_pos),
    )

-- From 65536 on a sector gets the address of another one, 65536 sectors or a multiple of that
-- before it.
pub lba_to_chs-wraps :
    (disk : Disk) (lba : ℕ) → lba_to_chs disk (lba + 2 ^ 16) ≡ lba_to_chs disk lba
unfolding lba_to_chs
lba_to_chs-wraps disk lba = let same : u16 (lba + 2 ^ 16) ≡ u16 lba = omega arith in rw same refl
