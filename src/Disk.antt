-- ===== src/Disk.antt =====
-- Disk access of stage 2, src/bootloader/stage2/disk.c. The BIOS calls are parameters: what the
-- drive parameters are, and whether a read of some sectors succeeds, given how often the drive was
-- reset before.
pub mod Geometry
pub mod Retries
mod Tests
use alma_os.Base.{
  ℕ, zero, suc, Bool, true, false, Option, none, some, ◌+◌, ◌*◌, ◌/◌, ◌%◌, if◌then◌else◌, u16,
}

-- `disk_t`
pub record Disk : Type 0 where
  pub id : ℕ
  pub cylinders : ℕ
  pub sectors : ℕ
  pub heads : ℕ

-- What `x86_Disk_GetDriveParams` reports: the last cylinder, the sectors of a track, the last head.
pub record DriveParams : Type 0 where
  pub last_cylinder : ℕ
  pub sectors : ℕ
  pub last_head : ℕ

-- `DISK_Initialize`; `none` for a failure of the BIOS.
pub initialize : Disk → ℕ → Option DriveParams → Bool × Disk
initialize disk drive none = (false, record disk { id = drive })
initialize disk drive (some p) = (
  true,
  record {
    id = drive;
    cylinders = u16 (p.last_cylinder + 1);
    sectors = p.sectors;
    heads = u16 (p.last_head + 1);
  },
)

-- What the BIOS addresses a sector by.
pub record Chs : Type 0 where
  pub cylinder : ℕ
  pub head : ℕ
  pub sector : ℕ

-- `DISK_LBA2CHS`, on a disk with sectors and heads.
pub lba_to_chs : Disk → ℕ → Chs
lba_to_chs disk lba =
    let lba16 = u16 lba in
    record {
      cylinder = lba16 / disk.sectors / disk.heads;
      head = lba16 / disk.sectors % disk.heads;
      sector = lba16 % disk.sectors + 1;
    }

-- The loop of `DISK_ReadSectors` with `n` rounds left and `resets` so far: whether the data are
-- there, and the number of resets.
pub attempts : (ℕ → Chs → Bool) → Chs → ℕ → ℕ → Bool × ℕ
attempts bios at zero resets = (false, resets)
attempts bios at (suc n) resets =
    let more = attempts bios at n (resets + 1) in if bios resets at then (true, resets) else more

pub read_sectors : (ℕ → Chs → Bool) → Disk → ℕ → Bool × ℕ
read_sectors bios disk lba = attempts bios (lba_to_chs disk lba) 3 0
