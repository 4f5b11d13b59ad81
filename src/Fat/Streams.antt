-- ===== src/Fat/Streams.antt =====
-- What a file of src/bootloader/stage2/fat.c has to give from its position on, sector by sector.
use alma_os.Base.{
  ℕ, zero, suc, List, [], ◌++◌, Bool, true, false, Option, none, some, ◌+◌, leb, if◌then◌else◌, u32,
  length, drop, ◌≡◌, inl, inr, refl, ap, ◌∙◌, Bool-cases,
}
use alma_os.Fat.{FileData, Volume, Reader, cluster_to_lba}
use alma_os.Fat.Reading.{
  offset_of, left_of, moved, refilled, refill_root, next_place, refill_file, refill_of, refill,
}

-- A reader of one sector gives 512 bytes.
abbrev pub IsSectored : Reader → Type 0
IsSectored read = (lba : ℕ) (bytes : List ℕ) → read lba 1 ≡ some bytes → length bytes ≡ 512

-- The bytes up to the end of the buffer.
abbrev pub ahead : FileData → List ℕ
ahead fd = drop (offset_of fd) fd.buffer

-- The bytes from the position on, of `k` sectors or up to where no sector follows.
unfoldable pub upcoming : ℕ → Reader → Volume → FileData → List ℕ
upcoming zero read v fd = []
upcoming (suc k) read v fd =
    let next = refill read v (moved fd (left_of fd)) in
    ahead fd ++ (if next.0 then upcoming k read v next.1 else [])

-- A buffer is whole.
abbrev pub IsWhole : FileData → Type 0
IsWhole fd = length fd.buffer ≡ 512

-- What holds of both branches.
both :
    (P : Bool × FileData → Type 0) (c : Bool) (a b : Bool × FileData)
    → P a
    → P b
    → P (if c then a else b)
both P true a b h k = h
both P false a b h k = k

-- The buffer is whole, and the position and the kind of the file are as they were.
abbrev IsRefilled : FileData → Bool × FileData → Type 0
IsRefilled fd r = IsWhole r.1 × (r.1.position ≡ fd.position) × (r.1.is_directory ≡ fd.is_directory)

IsRefilled-refilled :
    (fd : FileData) (sector : Option (List ℕ))
    → ((bytes : List ℕ) → sector ≡ some bytes → length bytes ≡ 512)
    → IsWhole fd
    → IsRefilled fd (refilled fd sector)
unfolding refilled
IsRefilled-refilled fd none filled whole = (whole, refl, refl)
IsRefilled-refilled fd (some bytes) filled whole = (filled bytes refl, refl, refl)

next_place-kept :
    (v : Volume) (fd : FileData)
    → ((next_place v fd).position ≡ fd.position)
      × ((next_place v fd).buffer ≡ fd.buffer)
      × ((next_place v fd).is_directory ≡ fd.is_directory)
unfolding next_place
next_place-kept v fd =
    elim (Bool-cases (leb v.boot.sectors_per_cluster (u32 (fd.sector_in_cluster + 1)))) [
      | inl e ↦ rw e (refl, refl, refl)
      | inr e ↦ rw e (refl, refl, refl)
    ]

IsRefilled-refill_root :
    (read : Reader) (fd : FileData)
    → IsSectored read
    → IsWhole fd
    → IsRefilled fd (refill_root read fd)
unfolding refill_root
IsRefilled-refill_root read fd sectored whole =
    let on = record fd { current_cluster = u32 (fd.current_cluster + 1) } in
    let sector = read on.current_cluster 1 in
    both (IsRefilled fd) (leb fd.size fd.position) (false, fd) (refilled on sector)
      (whole, refl, refl) (IsRefilled-refilled on sector (sectored on.current_cluster) whole)

IsRefilled-refill_file :
    (read : Reader) (v : Volume) (fd : FileData)
    → IsSectored read
    → IsWhole fd
    → IsRefilled fd (refill_file read v fd)
unfolding refill_file
IsRefilled-refill_file read v fd sectored whole =
    let on = next_place v fd in
    let lba = u32 (cluster_to_lba v on.current_cluster + on.sector_in_cluster) in
    let (at, same, kind) = next_place-kept v fd in
    let whole_on : IsWhole on = ap length same ∙ whole in
    let r = IsRefilled-refilled on (read lba 1) (sectored lba) whole_on in
    both (IsRefilled fd) (leb 0xFF8 on.current_cluster) (false, record on { size = on.position })
      (refilled on (read lba 1)) (whole_on, at, kind) (r.0, r.1 ∙ at, r.2 ∙ kind)

IsRefilled-refill_of :
    (read : Reader) (v : Volume) (fd : FileData) (h : Option ℕ)
    → IsSectored read
    → IsWhole fd
    → IsRefilled fd (refill_of read v fd h)
unfolding refill_of
IsRefilled-refill_of read v fd none sectored whole = IsRefilled-refill_root read fd sectored whole
IsRefilled-refill_of read v fd (some h) sectored whole =
    IsRefilled-refill_file read v fd sectored whole

pub IsRefilled-refill :
    (read : Reader) (v : Volume) (fd : FileData)
    → IsSectored read
    → IsWhole fd
    → IsRefilled fd (refill read v fd)
unfolding refill
IsRefilled-refill read v fd sectored whole = IsRefilled-refill_of read v fd fd.handle sectored whole
