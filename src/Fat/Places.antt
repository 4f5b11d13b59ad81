-- ===== src/Fat/Places.antt =====
-- What a read changes of the volume in src/bootloader/stage2/fat.c: the data of its handle, and nothing
-- that another read depends on.
use alma_os.Base.{
  ℕ, zero, suc, List, Option, some, none, ◌<◌, length, set, length-set, get_or-set_self, ◌≡◌, refl,
  arith,
}
use alma_os.Fat.{FileData, Volume, Reader, no_file, cluster_to_lba}
use alma_os.Fat.Reading.{
  data_of, with_data, left_of, moved, refill, refill_of, refill_file, next_place,
}
use alma_os.Fat.Streams.{upcoming}

-- The root directory, or a place of the table.
unfoldable pub IsPlace : Volume → Option ℕ → Type 0
IsPlace v none = Unit
IsPlace v (some h) = h < length v.files

pub data_of-with_data :
    (v : Volume) (h : Option ℕ) (fd : FileData) → IsPlace v h → data_of (with_data v h fd) h ≡ fd
unfolding data_of with_data IsPlace
data_of-with_data v none fd place = refl
data_of-with_data v (some h) fd place = get_or-set_self v.files h fd no_file place

pub IsPlace-with_data :
    (v : Volume) (h : Option ℕ) (fd : FileData) → IsPlace v h → IsPlace (with_data v h fd) h
unfolding with_data IsPlace
IsPlace-with_data v none fd place = record {}
IsPlace-with_data v (some h) fd place = omega (arith, length-set v.files h fd, place)

refill_of-others :
    (read : Reader) (v : Volume) (root : FileData) (files : List FileData) (x : FileData)
    (k : Option ℕ)
    → refill_of read (record v { root = root; files = files }) x k ≡ refill_of read v x k
unfolding refill_of refill_file next_place cluster_to_lba
refill_of-others read v root files x none = refl
refill_of-others read v root files x (some h) = refl

-- Reads depend on the boot sector, the table and where the data begin.
refill-with_data :
    (read : Reader) (v : Volume) (h : Option ℕ) (fd x : FileData)
    → refill read (with_data v h fd) x ≡ refill read v x
unfolding refill with_data
refill-with_data read v none fd x = refill_of-others read v fd v.files x x.handle
refill-with_data read v (some h) fd x = refill_of-others read v v.root (set v.files h fd) x x.handle

pub upcoming-with_data :
    (k : ℕ) (read : Reader) (v : Volume) (h : Option ℕ) (fd x : FileData)
    → upcoming k read (with_data v h fd) x ≡ upcoming k read v x
unfolding upcoming
upcoming-with_data zero read v h fd x = refl
upcoming-with_data (suc k) read v h fd x =
    let m = moved x (left_of x) in
    rw (refill-with_data read v h fd m, upcoming-with_data k read v h fd (refill read v m).1) refl
