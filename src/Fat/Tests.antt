-- ===== src/Fat/Tests.antt =====
-- Tests of the FAT12 reader, and its theorems at concrete inputs.
use alma_os.Base.{
  true, ℕ, List, [], ◌∷◌, ◌++◌, false, none, some, ◌<◌, ◌==◌, ◌≡◌, ◌⊎◌, if◌then◌else◌, replicate,
  length, refl, arith,
}
use alma_os.Fat.{
  Volume, DirEntry, Reader, max_handles, no_file, boot_sector, mountable, initialize,
  cluster_to_lba, next_cluster, open_entry, cluster_of, file_at,
}
use alma_os.Fat.Clusters.{packed, next_cluster-packed}
use alma_os.Fat.Handles.{IsTable, AllOpen, OthersKept, Result, open_entry-outcome}
use alma_os.Fat.Mounting.{IsFit, IsMounted, initialize-IsMounted}

-- The boot sector of a floppy, up to the fields that are read.
abbrev floppy_boot : List ℕ
floppy_boot = replicate 11 0 ++ (0 ∷ 2 ∷ 1 ∷ 1 ∷ 0 ∷ 2 ∷ 224 ∷ 0 ∷ 64 ∷ 11 ∷ 0xF0 ∷ 9 ∷ 0 ∷ [])

abbrev floppy_table : List ℕ
floppy_table = packed (0xFF0 ∷ 0xFFF ∷ 3 ∷ 0xFFF ∷ [])

-- The root directory starts at sector 19.
abbrev floppy : Reader
floppy lba count =
    if lba == 0 then some floppy_boot else if lba == 1 then some floppy_table else some (lba ∷ [])

abbrev blank : Volume
blank = record {
  boot = boot_sector [];
  root = no_file;
  files = replicate 10 no_file;
  table = [];
  data_lba = 33;
}

initialize-IsMounted_example :
    (IsFit 6000 (boot_sector floppy_boot)
      × (v' : Volume) × (initialize floppy 6000 blank ≡ some v')
      × IsMounted (boot_sector floppy_boot) v'
      × (v'.table ≡ floppy_table)
      × (length v'.files ≡ 10))
    ⊎ ((IsFit 6000 (boot_sector floppy_boot) → ⊥) × (initialize floppy 6000 blank ≡ none))
unfolding boot_sector
initialize-IsMounted_example =
    initialize-IsMounted floppy 6000 blank floppy_boot floppy_table (19 ∷ []) refl
      (record { table_sectors = omega arith; areas = omega arith; entries = omega arith }) refl refl

-- A table of 128 sectors has 64 KiB, and passes for an empty one.
mountable-wraps : mountable 6000 (record (boot_sector floppy_boot) { sectors_per_fat = 128 }) ≡ true
unfolding mountable boot_sector
mountable-wraps = refl

abbrev used : Volume
used = record blank { boot = record blank.boot { sectors_per_cluster = 1 } }

next_cluster-packed_example : next_cluster floppy_table 2 ≡ 3
next_cluster-packed_example =
    next_cluster-packed (0xFF0 ∷ 0xFFF ∷ 3 ∷ 0xFFF ∷ []) 2 (omega arith) (omega arith) (omega arith)

abbrev kernel : DirEntry
kernel = record {
  name = [];
  attributes = 0x20;
  first_cluster_high = 0;
  first_cluster_low = 2;
  size = 700;
}

open_entry-outcome_example :
    (AllOpen used.files × (open_entry floppy used kernel ≡ (none, used)))
    ⊎ ((h : ℕ) × (h < max_handles)
        × ((file_at used.files h).opened ≡ false)
        × IsTable (open_entry floppy used kernel).1
        × OthersKept h used (open_entry floppy used kernel).1
        × Result h kernel
            (floppy (cluster_to_lba used (cluster_of kernel)) 1)
            (open_entry floppy used kernel))
open_entry-outcome_example = open_entry-outcome floppy used kernel refl
