-- ===== src/Fat/Reading.antt =====
-- `FAT_ReadImpl` and `FAT_ReadEntry` of src/bootloader/stage2/fat.c. Of the memory behind a sector
-- buffer nothing is modelled: a copy ends there.
use alma_os.Base.{
  ℕ, zero, suc, List, [], ◌++◌, Bool, true, false, not, Option, none, some, ◌+◌, ◌-◌, ◌*◌, ◌%◌, ◌^◌,
  ◌==◌, leb, if◌then◌else◌, ◌>>=◌, u16, u32, sub32, take, drop,
}
use alma_os.BootUtil.{min_int}
use alma_os.Fat.{
  FileData, Volume, DirEntry, Reader, sector_size, byte_at, word_at, cluster_to_lba, next_cluster,
  file_at, with_file,
}

-- The data of a handle; `none` is the root directory.
unfoldable pub data_of : Volume → Option ℕ → FileData
data_of v none = v.root
data_of v (some h) = file_at v.files h

unfoldable pub with_data : Volume → Option ℕ → FileData → Volume
with_data v none fd = record v { root = fd }
with_data v (some h) fd = with_file v h fd

-- `Position % SECTOR_SIZE`
abbrev pub offset_of : FileData → ℕ
offset_of fd = fd.position % sector_size

-- `leftInBuffer`
abbrev pub left_of : FileData → ℕ
left_of fd = sector_size - offset_of fd

unfoldable pub moved : FileData → ℕ → FileData
moved fd n = record fd { position = u32 (fd.position + n) }

-- After a `DISK_ReadSectors` into the buffer: whether the loop goes on.
unfoldable pub refilled : FileData → Option (List ℕ) → Bool × FileData
refilled fd none = (false, fd)
refilled fd (some buffer) = (true, record fd { buffer = buffer })

unfoldable pub refill_root : Reader → FileData → Bool × FileData
refill_root read fd =
    let on = record fd { current_cluster = u32 (fd.current_cluster + 1) } in
    if leb fd.size fd.position then (false, fd) else refilled on (read on.current_cluster 1)

-- The cluster and the sector in it that come next.
unfoldable pub next_place : Volume → FileData → FileData
next_place v fd =
    let sector = u32 (fd.sector_in_cluster + 1) in
    if leb v.boot.sectors_per_cluster sector
    then record fd {
      sector_in_cluster = 0;
      current_cluster = next_cluster v.table fd.current_cluster;
    }
    else record fd { sector_in_cluster = sector }

unfoldable pub refill_file : Reader → Volume → FileData → Bool × FileData
refill_file read v fd =
    let on = next_place v fd in
    let lba = u32 (cluster_to_lba v on.current_cluster + on.sector_in_cluster) in
    if leb 0xFF8 on.current_cluster
    then (false, record on { size = on.position })
    else refilled on (read lba 1)

unfoldable pub refill_of : Reader → Volume → FileData → Option ℕ → Bool × FileData
refill_of read v fd none = refill_root read fd
refill_of read v fd (some h) = refill_file read v fd

-- What is done at the end of the buffer: `false` is `break`.
unfoldable pub refill : Reader → Volume → FileData → Bool × FileData
refill read v fd = refill_of read v fd fd.handle

-- The file, what has been copied out, and `bytesRead`.
pub record Progress : Type 0 where
  pub file : FileData
  pub out : List ℕ
  pub bytes_read : ℕ

-- The copy of `n` bytes and the numbers that follow it.
unfoldable pub copied : Progress → ℕ → Progress
copied p n = record {
  file = moved p.file n;
  out = p.out ++ take (u16 n) (drop (offset_of p.file) p.file.buffer);
  bytes_read = u32 (p.bytes_read + n);
}

abbrev pub with_file_of : Progress → FileData → Progress
with_file_of p fd = record p { file = fd }

-- The loop; `none` is a loop that needs more rounds.
unfoldable pub read_loop : ℕ → Reader → Volume → Progress → ℕ → Option Progress
read_loop zero read v p count = none
read_loop (suc fuel) read v p count =
    let left = left_of p.file in
    let n = min_int count left in
    let p' = copied p n in
    let count' = sub32 count n in
    let more = refill read v p'.file in
    let same = read_loop fuel read v p' count' in
    let next = read_loop fuel read v (with_file_of p' more.1) count' in
    if count == 0
    then some p
    else if left == n
    then (if more.0 then next else some (with_file_of p' more.1))
    else same

-- `byteCount` cut to the end of a file.
unfoldable pub clamped : FileData → ℕ → ℕ
clamped fd count = if not fd.is_directory then min_int count (sub32 fd.size fd.position) else count

-- `FAT_ReadImpl`, which `FAT_Read` and `FAT_ReadFar` call: the bytes, `bytesRead` and the volume.
unfoldable pub read_file : ℕ → Reader → Volume → Option ℕ → ℕ → Option (List ℕ × ℕ × Volume)
read_file fuel read v h count =
    let fd = data_of v h in
    read_loop fuel read v (record { file = fd; out = []; bytes_read = 0 }) (clamped fd count)
    >>= λ p. some (p.out, p.bytes_read, with_data v h p.file)

-- The fields of the packed structure, at their offsets.
unfoldable pub entry_of : List ℕ → DirEntry
entry_of bytes = record {
  name = take 11 bytes;
  attributes = byte_at bytes 11;
  first_cluster_high = word_at bytes 20;
  first_cluster_low = word_at bytes 26;
  size = word_at bytes 28 + word_at bytes 30 * 2 ^ 16;
}

abbrev pub entry_size : ℕ
entry_size = 32

-- The entry, if all of its bytes were read.
abbrev pub entry_result : List ℕ × ℕ × Volume → Option DirEntry × Volume
entry_result r = (if r.1 == entry_size then some (entry_of r.0) else none, r.2)

-- `FAT_ReadEntry`; each round reads a byte at least, so 33 rounds are enough.
unfoldable pub read_entry : Reader → Volume → Option ℕ → Option (Option DirEntry × Volume)
read_entry read v h = read_file 33 read v h entry_size >>= λ r. some (entry_result r)
