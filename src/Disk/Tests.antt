-- ===== src/Disk/Tests.antt =====
-- Tests of the disk access, and its theorems at concrete inputs.
use alma_os.Base.{ℕ, Bool, true, false, ◌==◌, ◌≡◌, ◌↔◌, ◌*◌, ◌<◌, ◌≤◌, ◌⊎◌, refl, arith, not}
use alma_os.Disk.{Disk, Chs, lba_to_chs, attempts, read_sectors}
use alma_os.Disk.Geometry.{number_of, lba_to_chs-number_of}
use alma_os.Disk.Retries.{FirstSuccess, read_sectors-attempts}

-- A floppy of 1.44 MB.
abbrev floppy : Disk
floppy = record { id = 0; cylinders = 80; sectors = 18; heads = 2 }

root_directory : lba_to_chs floppy 19 ≡ record { cylinder = 0; head = 1; sector = 2 }
unfolding lba_to_chs
root_directory = refl

-- A drive that needs one reset.
abbrev once_reset : ℕ → Chs → Bool
once_reset resets at = not (resets == 0)

second_attempt : read_sectors once_reset floppy 19 ≡ (true, 1)
unfolding read_sectors attempts
second_attempt = refl

lba_to_chs-number_of_example :
    let p = lba_to_chs floppy 2879 in
    (number_of floppy p ≡ 2879)
    × ((p.cylinder < 80) ↔ (2879 < 80 * 2 * 18))
    × (p.head < 2)
    × (1 ≤ p.sector)
    × (p.sector ≤ 18)
lba_to_chs-number_of_example =
    lba_to_chs-number_of floppy 2879 (record { sectors_pos = omega arith; heads_pos = omega arith })
      (omega arith)

read_sectors-attempts_example :
    let at = lba_to_chs floppy 19 in
    ((k : ℕ) × (k < 3)
      × FirstSuccess once_reset at k
      × (read_sectors once_reset floppy 19 ≡ (true, k)))
    ⊎ (((j : ℕ) → j < 3 → once_reset j at ≡ false)
        × (read_sectors once_reset floppy 19 ≡ (false, 3)))
read_sectors-attempts_example = read_sectors-attempts once_reset floppy 19
