-- ===== src/Fat/ReadTests.antt =====
-- Tests of reading and searching files, and the theorems at concrete inputs.
use alma_os.Base.{
  ℕ, zero, suc, List, [], ◌∷◌, ◌++◌, Bool, true, false, not, checked_below, checked_below-at,
  Option, some, none, ◌+◌, ◌*◌, ◌<◌, ◌==◌, min, length, take, drop, replicate, map, ◌≡◌, refl, sym,
  ap, ◌∙◌, arith, if◌then◌else◌, ◌>>=◌,
}
use alma_os.Base.Text.{codes}
use alma_os.BootUtil.{toupper}
use alma_os.Fat.{next_cluster, FileData, Volume, Reader, no_file, BootSector}
use alma_os.Fat.Clusters.{packed}
use alma_os.Fat.Reading.{
  data_of, with_data, moved, read_file, entry_of, entry_size, refill, refill_of, refill_root,
  refilled,
}
use alma_os.Fat.Streams.{IsSectored, upcoming, ahead}
use alma_os.Fat.Chains.{Disk, IsPlaced, sectors, cluster_bytes}
use alma_os.Fat.Contents.{contents}
use alma_os.Fat.Sequential.{IsReadOf}
use alma_os.Fat.Reads.{wrapped, read_file-remaining, read_file-wraps}
use alma_os.Fat.Places.{IsPlace}
use alma_os.Fat.Entries.{entry_number, find_entry-first}
use alma_os.Fat.Endless.{find_entry-endless}
use alma_os.Fat.Names.{fat_name-parts}
use alma_os.Fat.Paths.{in_array, open_found, open_file-root}
use alma_os.Fat.Finding.{same_bytes, find_entry, fat_name, find_file, open_file}

abbrev boot : BootSector
boot = record {
  bytes_per_sector = 512;
  sectors_per_cluster = 1;
  reserved_sectors = 1;
  fat_count = 2;
  dir_entry_count = 16;
  sectors_per_fat = 9;
}

-- The entry of kernel.bin, behind one that is not it.
abbrev kernel_entry : List ℕ
kernel_entry = codes "KERNEL  BIN" ++ (0x20 ∷ (replicate 14 0 ++ (2 ∷ 0 ∷ 88 ∷ 2 ∷ 0 ∷ 0 ∷ [])))

abbrev directory_sector : List ℕ
directory_sector = replicate 32 b'A' ++ (kernel_entry ++ replicate 448 0)

abbrev floppy : Reader
floppy lba count = some (if lba == 19 then directory_sector else replicate 512 lba)

abbrev bytes_in : Option (List ℕ) → List ℕ
bytes_in none = []
bytes_in (some bytes) = bytes

floppy-IsSectored : IsSectored floppy
floppy-IsSectored lba bytes e = sym (ap (λ o. length (bytes_in o)) e) ∙ sizes (lba == 19)
  where
    sizes : (b : Bool) → length (if b then directory_sector else replicate 512 lba) ≡ 512
    sizes true = refl
    sizes false = refl

-- 600 bytes, of which 500 have been read.
abbrev open_one : FileData
open_one = record {
  buffer = replicate 512 20;
  handle = some 0;
  is_directory = false;
  position = 500;
  size = 600;
  opened = true;
  first_cluster = 2;
  current_cluster = 2;
  sector_in_cluster = 0;
}

abbrev root : FileData
root = record {
  buffer = directory_sector;
  handle = none;
  is_directory = true;
  position = 0;
  size = 512;
  opened = true;
  first_cluster = 19;
  current_cluster = 19;
  sector_in_cluster = 0;
}

abbrev volume : Volume
volume = record {
  boot = boot;
  root = root;
  files = open_one ∷ replicate 9 no_file;
  table = packed (0xFF0 ∷ 0xFFF ∷ 3 ∷ 0xFFF ∷ []);
  data_lba = 20;
}

abbrev floppy_disk : Disk
floppy_disk lba = if lba == 19 then directory_sector else replicate 512 lba

-- The file is in clusters 2 and 3, which the table joins.
open_one-IsPlaced : IsPlaced floppy_disk volume (3 ∷ []) open_one
unfolding next_cluster packed
open_one-IsPlaced = record {
  handle = 0;
  open_as = refl;
  chain = (
    record { from_2 = omega arith; no_end = omega arith; in_reach = omega arith },
    refl,
    (record { from_2 = omega arith; no_end = omega arith; in_reach = omega arith }, omega arith),
  );
  in_cluster = omega arith;
  buffered = refl;
}

floppy-whole : (lba : ℕ) → length (floppy_disk lba) ≡ 512
floppy-whole lba = sizes (lba == 19)
  where
    sizes : (b : Bool) → length (if b then directory_sector else replicate 512 lba) ≡ 512
    sizes true = refl
    sizes false = refl

read_file-remaining_example :
    (r : List ℕ × ℕ × Volume) × (read_file 300 floppy volume (some 0) 200 ≡ some r)
    × IsReadOf floppy volume
        (some 0)
        (min 200 100)
        (contents floppy_disk volume (3 ∷ []) open_one)
        r
unfolding data_of
read_file-remaining_example =
    read_file-remaining 300 floppy floppy_disk volume (some 0) (3 ∷ []) 200 (λ lba. refl)
      floppy-whole (omega arith) open_one-IsPlaced
      (record { a_file = refl; inside = omega arith; size_fits = omega arith; whole = refl })
      (omega arith) (omega arith) (omega arith) (unfold cluster_bytes sectors in omega arith)

-- 40000 bytes are left.
abbrev long : Volume
long = record volume { files = record open_one { size = 40500 } ∷ [] }

read_file-wraps_example :
    (read_file 2 floppy long (some 0) 512
      ≡ some (
        ahead (record open_one { size = 40500 }),
        wrapped 40000,
        with_data long (some 0) (moved (record open_one { size = 40500 }) (wrapped 40000)),
      ))
    × (512 < wrapped 40000)
unfolding data_of
read_file-wraps_example =
    read_file-wraps 0 floppy long (some 0) 512
      (record { a_file = refl; inside = omega arith; size_fits = omega arith; whole = refl })
      (omega arith) (omega arith) (omega arith)

first_sector : upcoming 1 floppy volume root ≡ directory_sector
unfolding upcoming refill refill_of refill_root refilled moved
first_sector = refl

first_differs :
    (i : ℕ)
    → i < 1
    → same_bytes 11 (codes "KERNEL  BIN") (entry_number directory_sector i).name ≡ false
unfolding same_bytes entry_of
first_differs zero below = refl
first_differs (suc i) below = absurd (omega (arith, below))

find_entry-first_example :
    (v' : Volume) × (find_entry 5 floppy volume none (codes "KERNEL  BIN")
      ≡ some (some (entry_number directory_sector 1), v'))
    × ((data_of v' none).position ≡ 0 + entry_size * 2)
unfolding data_of IsPlace same_bytes entry_of
find_entry-first_example =
    find_entry-first 1 5 floppy volume none (codes "KERNEL  BIN") directory_sector floppy-IsSectored
      (record { place = record {}; kind = refl; whole = refl; to_come = (1, first_sector) })
      (omega arith) (omega arith) first_differs refl (omega arith)

-- The search has passed the only sector of the root directory.
abbrev past : Volume
past = record volume { root = record root { position = 512 } }

slot_differs : ℕ → Bool
slot_differs i = not (
    same_bytes 11 (codes "SHELL   BIN")
      (entry_of (take entry_size (drop (entry_size * i) directory_sector))).name)

all_differ : checked_below 16 slot_differs ≡ true
unfolding slot_differs checked_below same_bytes entry_of
all_differ = refl

missing :
    (i : ℕ)
    → i < 16
    → same_bytes 11
        (codes "SHELL   BIN")
        (entry_of (take entry_size (drop (entry_size * i) directory_sector))).name
      ≡ false
unfolding slot_differs
missing i below = differs _ (checked_below-at 16 slot_differs i all_differ below)
  where
    differs : (b : Bool) → not b ≡ true → b ≡ false
    differs b e = ground arith

find_entry-endless_example : find_entry 1000 floppy past none (codes "SHELL   BIN") ≡ none
find_entry-endless_example =
    find_entry-endless 1000 floppy past (codes "SHELL   BIN")
      (record {
        root = refl;
        kind = refl;
        at_end = omega arith;
        between = omega arith;
        small = omega arith;
      })
      missing (omega arith)

fat_name-parts_example :
    fat_name (codes "kernel.bin" ++ (0 ∷ []))
    ≡ map toupper (codes "kernel") ++ (b' ' ∷ b' ' ∷ []) ++ map toupper (codes "bin")
fat_name-parts_example =
    fat_name-parts (codes "kernel") (codes "bin") [] (omega arith) (omega arith) (omega arith)
      (omega arith)

abbrev empty_array : List ℕ
empty_array = replicate 256 0

open_file-root_example :
    (open_file 20 floppy volume empty_array (codes "/kernel.bin" ++ (0 ∷ [])) ≡ (
      find_file 20 floppy volume none (in_array empty_array (codes "kernel.bin")) >>= λ found.
      some (open_found floppy found)))
    × (open_file 20 floppy volume empty_array (codes "kernel.bin" ++ (0 ∷ [])) ≡ (
        find_file 20 floppy volume none (in_array empty_array (codes "kernel.bin")) >>= λ found.
        some (open_found floppy found)))
open_file-root_example =
    open_file-root 20 floppy volume empty_array (codes "kernel.bin") [] (omega arith) (omega arith)
      (omega arith)
