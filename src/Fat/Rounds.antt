-- ===== src/Fat/Rounds.antt =====
-- The rounds of the loop of FAT_ReadImpl in src/bootloader/stage2/fat.c.
use alma_os.Base.{
  ℕ, zero, suc, true, false, some, ◌<◌, ◌≤◌, ◌^◌, ◌==◌, ==_ne, sub32, ◌≡◌, ◌≢◌, refl, arith,
}
use alma_os.BootUtil.{min_int, widened, int_less}
use alma_os.Fat.{Volume, Reader}
use alma_os.Fat.Reading.{Progress, left_of, refill, copied, read_loop, with_file_of}

pub min_int-lower : (a b : ℕ) → a < 2 ^ 15 → b < 2 ^ 15 → a ≤ b → min_int a b ≡ a
unfolding min_int widened int_less
min_int-lower a b ha hb h = ground arith

pub min_int-upper : (a b : ℕ) → a < 2 ^ 15 → b < 2 ^ 15 → b ≤ a → min_int a b ≡ b
unfolding min_int widened int_less
min_int-upper a b ha hb h = ground arith

-- A round that stays in the buffer, and one that goes on behind it.
pub read_loop-inside :
    (fuel : ℕ) (read : Reader) (v : Volume) (p : Progress) (count n : ℕ)
    → min_int count (left_of p.file) ≡ n
    → count ≢ 0
    → left_of p.file ≢ n
    → read_loop (suc fuel) read v p count ≡ read_loop fuel read v (copied p n) (sub32 count n)
unfolding read_loop
read_loop-inside fuel read v p count n e some_left ne =
    rw (e, ==_ne count 0 some_left, ==_ne (left_of p.file) n ne) refl

pub read_loop-across :
    (fuel : ℕ) (read : Reader) (v : Volume) (p : Progress) (count n : ℕ)
    → min_int count (left_of p.file) ≡ n
    → count ≢ 0
    → left_of p.file ≡ n
    → (refill read v (copied p n).file).0 ≡ true
    → read_loop (suc fuel) read v p count
      ≡ read_loop fuel read v
          (with_file_of (copied p n) (refill read v (copied p n).file).1)
          (sub32 count n)
unfolding read_loop
read_loop-across fuel read v p count n e some_left whole on =
    let same : (left_of p.file == n) ≡ true = ground arith in
    rw (e, ==_ne count 0 some_left, same, on) refl

pub read_loop-last :
    (fuel : ℕ) (read : Reader) (v : Volume) (p : Progress) (count n : ℕ)
    → min_int count (left_of p.file) ≡ n
    → count ≢ 0
    → left_of p.file ≡ n
    → (refill read v (copied p n).file).0 ≡ false
    → read_loop (suc fuel) read v p count
      ≡ some (with_file_of (copied p n) (refill read v (copied p n).file).1)
unfolding read_loop
read_loop-last fuel read v p count n e some_left whole on =
    let same : (left_of p.file == n) ≡ true = ground arith in
    rw (e, ==_ne count 0 some_left, same, on) refl

pub read_loop-none :
    (fuel : ℕ) (read : Reader) (v : Volume) (p : Progress)
    → 0 < fuel
    → read_loop fuel read v p 0 ≡ some p
unfolding read_loop
read_loop-none zero read v p h = absurd (omega (arith, h))
read_loop-none (suc fuel) read v p h = refl
