-- ===== src/Fat/Mounting.antt =====
-- `FAT_Initialize` and `FAT_ClusterToLba` of src/bootloader/stage2/fat.c: where the parts of a volume
-- lie.
use alma_os.Base.{
  ℕ, suc, List, [], ◌∷◌, Bool, true, false, none, some, ltb, ◌&&◌, ==_ne, ==_iff, Bool-cases, ◌≢◌,
  ◌⊎◌, inl, inr, sym, ◌+◌, ◌-◌, ◌*◌, ◌/◌, ◌<◌, ◌≤◌, ◌^◌, length, All, map, u8, u16, u32, sub32, ◌≡◌,
  refl, ap, ◌∙◌, arith,
}
use native.Mathlib.Nat.{add-mul, mul-le-mul_right}
use alma_os.Fat.{
  FileData, BootSector, Volume, Reader, boot_sector, root_lba, root_sectors, root_file, mountable,
  close_file, with_root, with_table, with_boot, initialize, cluster_to_lba,
}

-- Nothing is open.
abbrev pub AllClosed : List FileData → Type 0
AllClosed files = All (λ fd. fd.opened ≡ false) files

AllClosed-map : (files : List FileData) → AllClosed (map close_file files)
unfolding close_file
AllClosed-map [] = record {}
AllClosed-map (fd ∷ files) = (refl, AllClosed-map files)

-- A boot sector whose areas end below sector 65536, with tables below 64 KiB.
pub record IsSmall (b : BootSector) : Type 0 where
  pub table_sectors : b.sectors_per_fat < 128
  pub areas : b.reserved_sectors + b.sectors_per_fat * b.fat_count < 2 ^ 16
  pub entries : b.dir_entry_count < 2 ^ 11

-- Sectors of 512 bytes, clusters with sectors, and a table that fits into 64 KiB behind `data_size`
-- bytes.
abbrev pub IsFit : ℕ → BootSector → Type 0
IsFit data_size b =
    (b.bytes_per_sector ≡ 512)
    × (b.sectors_per_cluster ≢ 0)
    × (data_size + 512 * b.sectors_per_fat < 2 ^ 16)

all_true : (a b c : Bool) → (a && b && c) ≡ true → (a ≡ true) × (b ≡ true) × (c ≡ true)
all_true true true true h = (refl, refl, refl)
all_true true true false h = absurd (ground arith)
all_true true false c h = absurd (ground arith)
all_true false b c h = absurd (ground arith)

-- The code's test is the one of a fitting volume, as long as the table has less than 128 sectors.
mountable-IsFit :
    (data_size : ℕ) (b : BootSector)
    → b.sectors_per_fat < 128
    → ((mountable data_size b ≡ true) × IsFit data_size b)
      ⊎ ((mountable data_size b ≡ false) × (IsFit data_size b → ⊥))
unfolding mountable
mountable-IsFit data_size b small = elim (Bool-cases (mountable data_size b)) [
  | inl e ↦
      let (whole, some_sectors, room) = all_true _ _ _ e in
      let bytes : b.bytes_per_sector ≡ 512 = (==_iff b.bytes_per_sector 512).0 whole in
      inl (e, (bytes, (λ none_there. ground arith), fits bytes room))
  | inr e ↦ inr (e, (λ fit. absurd (refused fit e)))
]
  where
    fits :
        b.bytes_per_sector ≡ 512
        → ltb (data_size + u16 (b.bytes_per_sector * b.sectors_per_fat)) 0x10000 ≡ true
        → data_size + 512 * b.sectors_per_fat < 2 ^ 16
    fits bytes room =
        let room_512 : ltb (data_size + u16 (512 * b.sectors_per_fat)) 0x10000 ≡ true =
          rw bytes at room in
        ground arith

    refused : IsFit data_size b → mountable data_size b ≡ false → ⊥
    refused (bytes, some_sectors, room) e =
        let room_512 : ltb (data_size + u16 (512 * b.sectors_per_fat)) 0x10000 ≡ true =
          ground arith in
        let e_512 = rw (bytes, ==_ne b.sectors_per_cluster 0 some_sectors, room_512) at e in
        ground arith

-- A volume as its boot sector describes it: the root directory behind the reserved sectors and the
-- tables, the data behind the root directory, whose last sector may be partly used.
pub record IsMounted (b : BootSector) (v : Volume) : Type 0 where
  pub same_boot : v.boot ≡ b
  pub root_start : v.root.first_cluster ≡ b.reserved_sectors + b.sectors_per_fat * b.fat_count
  pub root_bytes : v.root.size ≡ 32 * b.dir_entry_count
  pub data_after : v.root.first_cluster * 512 + v.root.size ≤ v.data_lba * 512
  pub data_next : v.data_lba * 512 < v.root.first_cluster * 512 + v.root.size + 512
  pub closed : AllClosed v.files

root_lba-small :
    (b : BootSector) → IsSmall b → root_lba b ≡ b.reserved_sectors + b.sectors_per_fat * b.fat_count
root_lba-small b s =
    let tables : u16 (b.sectors_per_fat * b.fat_count) ≡ b.sectors_per_fat * b.fat_count =
      omega (arith, s.areas) in
    ap (λ t. u16 (b.reserved_sectors + t)) tables ∙ omega (arith, s.areas)

root_sectors-512 :
    (b : BootSector)
    → IsSmall b
    → b.bytes_per_sector ≡ 512
    → root_sectors b ≡ (b.dir_entry_count * 32 + 511) / 512
root_sectors-512 b s bytes =
    ap (λ k. u32 (b.dir_entry_count * 32 + k - 1) / k) bytes ∙ omega (arith, s.entries)

abbrev mounted : Volume → BootSector → List ℕ → List ℕ → Volume
mounted v b table buffer = record {
  boot = b;
  root = root_file b buffer;
  files = map close_file v.files;
  table = table;
  data_lba = u32 (root_lba b + root_sectors b);
}

IsMounted-mounted :
    (v : Volume) (b : BootSector) (table buffer : List ℕ)
    → IsSmall b
    → b.bytes_per_sector ≡ 512
    → IsMounted b (mounted v b table buffer)
IsMounted-mounted v b table buffer s bytes_512 =
    let start : root_lba b ≡ b.reserved_sectors + b.sectors_per_fat * b.fat_count =
      root_lba-small b s in
    let sectors : root_sectors b ≡ (b.dir_entry_count * 32 + 511) / 512 =
      root_sectors-512 b s bytes_512 in
    let low : root_lba b < 2 ^ 16 = omega (arith, start, s.areas) in
    record {
      same_boot = refl;
      root_start = start;
      root_bytes = omega (arith, s.entries);
      data_after = omega (arith, sectors, low, s.entries);
      data_next = omega (arith, sectors, low, s.entries);
      closed = AllClosed-map v.files;
    }

initialize-mounted :
    (read : Reader) (data_size : ℕ) (v : Volume) (bytes table buffer : List ℕ)
    → read 0 1 ≡ some bytes
    → mountable data_size (boot_sector bytes) ≡ true
    → read (boot_sector bytes).reserved_sectors (u8 (boot_sector bytes).sectors_per_fat)
      ≡ some table
    → read (root_lba (boot_sector bytes)) 1 ≡ some buffer
    → initialize read data_size v ≡ some (mounted v (boot_sector bytes) table buffer)
unfolding initialize with_boot with_table with_root
initialize-mounted read data_size v bytes table buffer first fits second third =
    rw (first, fits, second, third) refl

length-closed : (files : List FileData) → length (map close_file files) ≡ length files
length-closed [] = refl
length-closed (fd ∷ files) = ap suc (length-closed files)

-- A reader reads the boot sector, all sectors of the first table and the first sector of the root
-- directory of a volume whose tables have less than 128 sectors, whose areas end below sector 65536
-- and whose root directory has less than 2048 entries. When its sectors have 512 bytes, its clusters
-- have sectors and its table fits into memory, it is mounted as the boot sector describes it, with
-- nothing open; otherwise it is refused.
pub initialize-IsMounted :
    (read : Reader) (data_size : ℕ) (v : Volume) (bytes table buffer : List ℕ)
    → read 0 1 ≡ some bytes
    → IsSmall (boot_sector bytes)
    → read (boot_sector bytes).reserved_sectors (boot_sector bytes).sectors_per_fat ≡ some table
    → read (root_lba (boot_sector bytes)) 1 ≡ some buffer
    → (IsFit data_size (boot_sector bytes)
        × (v' : Volume) × (initialize read data_size v ≡ some v')
        × IsMounted (boot_sector bytes) v'
        × (v'.table ≡ table)
        × (length v'.files ≡ length v.files))
      ⊎ ((IsFit data_size (boot_sector bytes) → ⊥) × (initialize read data_size v ≡ none))
initialize-IsMounted read data_size v bytes table buffer first small second third =
    let b = boot_sector bytes in
    let whole : b.sectors_per_fat ≡ u8 b.sectors_per_fat = omega (arith, small.table_sectors) in
    elim (mountable-IsFit data_size b small.table_sectors) [
      | inl (accepted, fit) ↦ inl (
        fit,
        mounted v b table buffer,
        initialize-mounted read data_size v bytes table buffer first accepted
            (ap (read b.reserved_sectors) (sym whole) ∙ second) third,
        IsMounted-mounted v b table buffer small fit.0,
        refl,
        length-closed v.files,
      )
      | inr (refused, unfit) ↦ inr (unfit, unfold initialize with_boot in rw (first, refused) refl)
    ]

pub cluster_to_lba-exact :
    (v : Volume) (c : ℕ)
    → 2 ≤ c
    → c < 2 ^ 32
    → v.data_lba + (c - 2) * v.boot.sectors_per_cluster < 2 ^ 32
    → cluster_to_lba v c ≡ v.data_lba + (c - 2) * v.boot.sectors_per_cluster
unfolding cluster_to_lba
cluster_to_lba-exact v c two small in_reach =
    let before : sub32 c 2 ≡ c - 2 = omega (arith, two, small) in
    ap (λ n. u32 (v.data_lba + u32 (n * v.boot.sectors_per_cluster))) before
    ∙ omega (arith, in_reach)

-- The sectors of two clusters do not meet, and those of the first lie where the data begin: each
-- cluster ends before the next starts, as long as the sector numbers stay below 2^32.
pub cluster_to_lba-apart :
    (v : Volume) (c d : ℕ)
    → 2 ≤ c
    → c < d
    → d < 2 ^ 32
    → v.data_lba + (d - 2) * v.boot.sectors_per_cluster < 2 ^ 32
    → (v.data_lba ≤ cluster_to_lba v c)
      × (cluster_to_lba v c + v.boot.sectors_per_cluster ≤ cluster_to_lba v d)
cluster_to_lba-apart v c d two less small in_reach =
    let m = c - 2 in
    let k = v.boot.sectors_per_cluster in
    let room : (m + 1) * k ≤ (d - 2) * k = mul-le-mul_right k (omega (arith, two, less)) in
    let whole : (m + 1) * k ≡ m * k + 1 * k = add-mul m 1 k in
    let here =
      cluster_to_lba-exact v c two (omega (arith, less, small))
        (omega (arith, room, whole, in_reach)) in
    let there = cluster_to_lba-exact v d (omega (arith, two, less)) small in_reach in
    (omega (arith, here), omega (arith, here, there, room, whole))
