-- ===== src/Fat/Reads.antt =====
-- `FAT_Read` of src/bootloader/stage2/fat.c on files: the bytes that it gives, and the lengths at which
-- its 16-bit `min` goes wrong.
use alma_os.Base.{
  ℕ, suc, List, [], false, some, Option, ◌+◌, ◌-◌, ◌<◌, ◌≤◌, ◌^◌, min, u16, u32, sub32, length,
  none, sym, take, ◌≡◌, ap, ap₂, ◌∙◌, arith, ◌>>=◌,
}
use mathlib.Core.Path.{subst}
use alma_os.BootUtil.{min_int, widened, int_less}
use alma_os.Base.Segments.{take_whole, length-drop}
use alma_os.Fat.{FileData, Volume, Reader}
use alma_os.Fat.Reading.{
  Progress, data_of, with_data, offset_of, left_of, moved, copied, clamped, read_loop, read_file,
}
use alma_os.Fat.Streams.{IsSectored, IsWhole, ahead, upcoming}
use alma_os.Fat.Chains.{Disk, per_cluster, IsPlaced, Serves}
use alma_os.Fat.Contents.{contents, upcoming-contents}
use alma_os.Fat.Rounds.{read_loop-inside, read_loop-none}
use alma_os.Fat.Sequential.{IsReadOf, read_file-IsReadOf}

-- What is left of a file.
abbrev pub remaining : FileData → ℕ
remaining fd = fd.size - fd.position

-- A file that is read at or before its end.
pub record IsFile (fd : FileData) : Type 0 where
  pub a_file : fd.is_directory ≡ false
  pub inside : fd.position ≤ fd.size
  pub size_fits : fd.size < 2 ^ 32
  pub whole : IsWhole fd

clamped-small :
    (fd : FileData) (count : ℕ)
    → IsFile fd
    → remaining fd < 2 ^ 15
    → count < 2 ^ 15
    → clamped fd count ≡ min count (remaining fd)
unfolding clamped min_int widened int_less
clamped-small fd count f left small =
    let rest : sub32 fd.size fd.position ≡ remaining fd = omega (arith, f.inside, f.size_fits) in
    rw f.a_file (rw rest ground arith)

-- `FAT_Read` of less than 32768 bytes of a file that is at or before its end and of which less than
-- 32768 bytes are left. The disk's sectors have 512 bytes and can be read, a cluster has less than
-- 256 of them, the file's buffer holds its current sector, and the table leads from its current
-- cluster through clusters that hold the bytes that are left. The read gives the bytes asked for, or
-- those that are left when they are fewer, in their order in the sectors of those clusters.
-- `bytesRead` counts them, the position moves on by as many, and what the file gives next is what
-- follows them.
pub read_file-remaining :
    (fuel : ℕ) (read : Reader) (disk : Disk) (v : Volume) (h : Option ℕ) (cs : List ℕ) (count : ℕ)
    → Serves read disk
    → ((lba : ℕ) → length (disk lba) ≡ 512)
    → per_cluster v < 2 ^ 8
    → IsPlaced disk v cs (data_of v h)
    → IsFile (data_of v h)
    → remaining (data_of v h) < 2 ^ 15
    → count < 2 ^ 15
    → count < fuel
    → remaining (data_of v h) ≤ length (contents disk v cs (data_of v h))
    → (r : List ℕ × ℕ × Volume) × (read_file fuel read v h count ≡ some r)
      × IsReadOf read v h (min count (remaining (data_of v h))) (contents disk v cs (data_of v h)) r
read_file-remaining fuel read disk v h cs count serves whole byte placed f left small enough here =
    let fd = data_of v h in
    let n = min count (remaining fd) in
    let (k, same) = upcoming-contents read disk v cs fd serves whole byte placed in
    let held : remaining fd ≤ length (upcoming k read v fd) = omega (arith, here, ap length same) in
    subst
      (λ bytes.
        (r : List ℕ × ℕ × Volume) × (read_file fuel read v h count ≡ some r)
        × IsReadOf read v h n bytes r)
      same
      (read_file-IsReadOf fuel k read v h count n (clamped-small fd count f left small)
        (IsSectored-Serves read disk serves whole) f.whole (omega (arith, f.inside, f.size_fits))
        (omega (arith, small)) (omega (arith, enough)) (omega (arith, held)))
  where
    some-injective : (xs ys : List ℕ) → some xs ≡ some ys → length xs ≡ length ys
    some-injective xs ys e = ap (λ o. elim o [ none ↦ 0 | some zs ↦ length zs ]) e

    IsSectored-Serves :
        (read : Reader) (disk : Disk)
        → Serves read disk
        → ((lba : ℕ) → length (disk lba) ≡ 512)
        → IsSectored read
    IsSectored-Serves read disk serves whole lba bytes e =
        some-injective bytes (disk lba) (sym e ∙ serves lba) ∙ whole lba

-- 32-bit pattern of a length that `int` takes for a negative one.
abbrev pub wrapped : ℕ → ℕ
wrapped n = 2 ^ 32 - 2 ^ 16 + n

clamped-wraps :
    (fd : FileData) (count : ℕ)
    → IsFile fd
    → 2 ^ 15 ≤ remaining fd
    → remaining fd < 2 ^ 16
    → count < 2 ^ 15
    → clamped fd count ≡ wrapped (remaining fd)
unfolding clamped min_int widened int_less
clamped-wraps fd count f low high small =
    let rest : sub32 fd.size fd.position ≡ remaining fd = omega (arith, f.inside, f.size_fits) in
    rw f.a_file (rw rest ground arith)

min_int-wrapped :
    (n left : ℕ) → 2 ^ 15 ≤ n → n < 2 ^ 16 → left < 2 ^ 15 → min_int (wrapped n) left ≡ wrapped n
unfolding min_int widened int_less
min_int-wrapped n left low high small = ground arith

-- With 32768 to 65535 bytes left, a read of any smaller number of bytes gives only what the buffer
-- holds and counts nearly 2^32 bytes: `min` takes the rest of the file for a negative number. (What
-- it copies from behind the buffer is not modelled.)
pub read_file-wraps :
    (fuel : ℕ) (read : Reader) (v : Volume) (h : Option ℕ) (count : ℕ)
    → IsFile (data_of v h)
    → 2 ^ 15 ≤ remaining (data_of v h)
    → remaining (data_of v h) < 2 ^ 16
    → count < 2 ^ 15
    → let n = wrapped (remaining (data_of v h)) in
      (read_file (suc (suc fuel)) read v h count
        ≡ some (ahead (data_of v h), n, with_data v h (moved (data_of v h) n)))
      × (count < n)
unfolding read_file copied
read_file-wraps fuel read v h count f low high small =
    let fd = data_of v h in
    let n = wrapped (remaining fd) in
    let p : Progress = record { file = fd; out = []; bytes_read = 0 } in
    let cut = clamped-wraps fd count f low high small in
    let whole = min_int-wrapped (remaining fd) (left_of fd) low high (omega arith) in
    let over : sub32 n n ≡ 0 = omega (arith, high) in
    let round =
      read_loop-inside (suc fuel) read v p n n whole (omega (arith, low)) (omega (arith, low)) in
    let loop =
      round
      ∙ (ap (λ (m : ℕ). read_loop (suc fuel) read v (copied p n) m) over
          ∙ read_loop-none (suc fuel) read v (copied p n) (omega arith)) in
    let all_ahead : take (u16 n) (ahead fd) ≡ ahead fd =
      take_whole (u16 n) (ahead fd)
        (omega (arith, length-drop (offset_of fd) fd.buffer, f.whole, low, high)) in
    let counted : u32 (0 + n) ≡ n = omega (arith, high) in
    (
      ap (λ m. m >>= λ p'. some (p'.out, p'.bytes_read, with_data v h p'.file))
            (ap (read_loop (suc (suc fuel)) read v p) cut ∙ loop)
          ∙ ap₂ (λ o (b : ℕ). some (o, b, with_data v h (moved fd n))) all_ahead counted,
      omega (arith, low, small),
    )
