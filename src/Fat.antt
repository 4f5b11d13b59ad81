-- ===== src/Fat.antt =====
-- The FAT12 reader of stage 2, src/bootloader/stage2/fat.c: mounting a volume, the table of clusters
-- and the table of open files. `uint16_t` and `int` have 16 bits there, so their arithmetic wraps at
-- 2^16. A read of sectors is a parameter, `none` for a failure.
pub mod Clusters
pub mod Handles
pub mod Reading
pub mod Streams
pub mod Chains
pub mod Contents
pub mod Rounds
pub mod Advance
pub mod Sequential
pub mod Reads
pub mod Places
pub mod Entries
pub mod Endless
pub mod Names
pub mod Paths
pub mod Finding
pub mod Mounting
mod Tests
mod ReadTests
use alma_os.Base.{
  ℕ, zero, suc, List, [], ◌∷◌, Bool, true, false, not, ◌&&◌, ◌||◌, Option, none, some, ◌+◌, ◌-◌,
  ◌*◌, ◌/◌, ◌%◌, ◌^◌, ◌==◌, ltb, leb, if◌then◌else◌, get_or, set, map, u8, u16, u32, sub32, has_bit,
  length,
}

abbrev pub sector_size : ℕ
sector_size = 512

-- `MAX_FILE_HANDLES`
abbrev pub max_handles : ℕ
max_handles = 10

-- `fat_file_t` and `fat_file_data_t`; `none` is ROOT_DIRECTORY_HANDLE.
pub record FileData : Type 0 where
  pub buffer : List ℕ
  pub handle : Option ℕ
  pub is_directory : Bool
  pub position : ℕ
  pub size : ℕ
  pub opened : Bool
  pub first_cluster : ℕ
  pub current_cluster : ℕ
  pub sector_in_cluster : ℕ

-- The part of `fat_boot_sector_t` that is read.
pub record BootSector : Type 0 where
  pub bytes_per_sector : ℕ
  pub sectors_per_cluster : ℕ
  pub reserved_sectors : ℕ
  pub fat_count : ℕ
  pub dir_entry_count : ℕ
  pub sectors_per_fat : ℕ

-- `g_Data`, `g_Fat` and `g_DataSectionLba`.
pub record Volume : Type 0 where
  pub boot : BootSector
  pub root : FileData
  pub files : List FileData
  pub table : List ℕ
  pub data_lba : ℕ

abbrev pub byte_at : List ℕ → ℕ → ℕ
byte_at bytes i = get_or bytes i 0

abbrev pub word_at : List ℕ → ℕ → ℕ
word_at bytes i = byte_at bytes i + byte_at bytes (i + 1) * 2 ^ 8

-- The fields of the packed structure, at their offsets.
pub boot_sector : List ℕ → BootSector
boot_sector bytes = record {
  bytes_per_sector = word_at bytes 11;
  sectors_per_cluster = byte_at bytes 13;
  reserved_sectors = word_at bytes 14;
  fat_count = byte_at bytes 16;
  dir_entry_count = word_at bytes 17;
  sectors_per_fat = word_at bytes 22;
}

pub close_file : FileData → FileData
close_file fd = record fd { opened = false }

abbrev pub root_lba : BootSector → ℕ
root_lba b = u16 (b.reserved_sectors + u16 (b.sectors_per_fat * b.fat_count))

abbrev pub root_size : BootSector → ℕ
root_size b = u16 (32 * b.dir_entry_count)

-- `rootDirSectors`
abbrev pub root_sectors : BootSector → ℕ
root_sectors b = u32 (b.dir_entry_count * 32 + b.bytes_per_sector - 1) / b.bytes_per_sector

abbrev pub root_file : BootSector → List ℕ → FileData
root_file b buffer = record {
  buffer = buffer;
  handle = none;
  is_directory = true;
  position = 0;
  size = root_size b;
  opened = true;
  first_cluster = root_lba b;
  current_cluster = root_lba b;
  sector_in_cluster = 0;
}

-- What a read of `count` sectors from `lba` on gives.
abbrev pub Reader : Type 0
Reader = ℕ → ℕ → Option (List ℕ)

-- The boot sector is one that the reader takes, and the table fits behind `data_size` bytes.
pub mountable : ℕ → BootSector → Bool
mountable data_size b =
    b.bytes_per_sector == 512
    && not (b.sectors_per_cluster == 0)
    && ltb (data_size + u16 (b.bytes_per_sector * b.sectors_per_fat)) 0x10000

pub with_root : Volume → BootSector → List ℕ → Option (List ℕ) → Option Volume
with_root v b table none = none
with_root v b table (some buffer) = some (record {
  boot = b;
  root = root_file b buffer;
  files = map close_file v.files;
  table = table;
  data_lba = u32 (root_lba b + root_sectors b);
})

pub with_table : Reader → Volume → BootSector → Option (List ℕ) → Option Volume
with_table read v b none = none
with_table read v b (some table) = with_root v b table (read (root_lba b) 1)

pub with_boot : Reader → ℕ → Volume → Option (List ℕ) → Option Volume
with_boot read data_size v none = none
with_boot read data_size v (some bytes) =
    let b = boot_sector bytes in
    let rest = with_table read v b (read b.reserved_sectors (u8 b.sectors_per_fat)) in
    if mountable data_size b then rest else none

-- `FAT_Initialize`: the volume, or `none` for `false`. `data_size` is `sizeof(fat_data_t)`.
pub initialize : Reader → ℕ → Volume → Option Volume
initialize read data_size v = with_boot read data_size v (read 0 1)

-- `FAT_ClusterToLba`
unfoldable pub cluster_to_lba : Volume → ℕ → ℕ
cluster_to_lba v cluster = u32 (v.data_lba + u32 (sub32 cluster 2 * v.boot.sectors_per_cluster))

-- `FAT_NextCluster`
unfoldable pub next_cluster : List ℕ → ℕ → ℕ
next_cluster table cluster =
    let val = word_at table (u32 (cluster * 3) / 2) in
    if cluster % 2 == 0 then val % 2 ^ 12 else val / 2 ^ 4

-- The loop of `FAT_OpenEntry`: the first handle that is free, from `i` on.
pub free_handle : List FileData → ℕ → Option ℕ
free_handle [] i = none
free_handle (fd ∷ files) i =
    let rest = free_handle files (i + 1) in if not fd.opened then some i else rest

-- The part of `fat_dir_entry_t` that is read.
pub record DirEntry : Type 0 where
  pub name : List ℕ
  pub attributes : ℕ
  pub first_cluster_high : ℕ
  pub first_cluster_low : ℕ
  pub size : ℕ

abbrev no_file : FileData
no_file = record {
  buffer = [];
  handle = some 0;
  is_directory = false;
  position = 0;
  size = 0;
  opened = false;
  first_cluster = 0;
  current_cluster = 0;
  sector_in_cluster = 0;
}

abbrev pub file_at : List FileData → ℕ → FileData
file_at files h = get_or files h no_file

abbrev pub cluster_of : DirEntry → ℕ
cluster_of e = u32 (e.first_cluster_low + e.first_cluster_high * 2 ^ 16)

-- The entry of the table before its first sector is read; the buffer and `Opened` stay.
pub prepared : FileData → ℕ → DirEntry → FileData
prepared fd h e = record fd {
  handle = some h;
  is_directory = has_bit e.attributes 4;
  position = 0;
  size = e.size;
  first_cluster = cluster_of e;
  current_cluster = cluster_of e;
  sector_in_cluster = 0;
}

abbrev pub with_file : Volume → ℕ → FileData → Volume
with_file v h fd = record v { files = set v.files h fd }

-- What follows from the read of the first sector.
pub loaded : Volume → ℕ → FileData → Option (List ℕ) → Option ℕ × Volume
loaded v h fd none = (none, with_file v h fd)
loaded v h fd (some buffer) = (some h, with_file v h (record fd { buffer = buffer; opened = true }))

pub open_at : Reader → Volume → DirEntry → Option ℕ → Option ℕ × Volume
open_at read v e none = (none, v)
open_at read v e (some h) =
    loaded v h (prepared (file_at v.files h) h e) (read (cluster_to_lba v (cluster_of e)) 1)

-- `FAT_OpenEntry`: the handle of the file, or `none` for NULL.
pub open_entry : Reader → Volume → DirEntry → Option ℕ × Volume
open_entry read v e = open_at read v e (free_handle v.files 0)

-- `FAT_Close`; `none` closes the root directory, which is only wound back.
pub close : Volume → Option ℕ → Volume
close v none = record v {
  root = record v.root { position = 0; current_cluster = v.root.first_cluster };
}
close v (some h) = with_file v h (close_file (file_at v.files h))
