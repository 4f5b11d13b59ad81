-- ===== src/Fat/Sequential.antt =====
-- Reads of src/bootloader/stage2/fat.c against the bytes that a file has to give.
use alma_os.Base.{
  ℕ, zero, suc, List, [], true, false, some, ◌+◌, ◌-◌, ◌<◌, ◌≤◌, ◌^◌, ltb, sub32, length, take,
  drop, length-append, ◌≡◌, inl, inr, refl, ap, ◌∙◌, arith, Bool-cases, Option, ◌>>=◌,
}
use mathlib.Core.Path.{subst}
use alma_os.Fat.{FileData, Volume, Reader}
use alma_os.Fat.Reading.{
  Progress, left_of, moved, refill, copied, read_loop, with_file_of, data_of, with_data, clamped,
  read_file,
}
use alma_os.Fat.Streams.{IsSectored, IsWhole, ahead, upcoming, IsRefilled-refill}
use alma_os.Fat.Rounds.{
  min_int-lower, min_int-upper, read_loop-inside, read_loop-across, read_loop-last, read_loop-none,
}
use alma_os.Fat.Advance.{
  IsRead, upcoming-on, length-upcoming_last, length-ahead, InReach, IsRead-within, IsRead-across,
  IsRead-last, IsRead-nothing,
}

-- The loop's numbers in the next sector.
abbrev in_next : Reader → Volume → Progress → Progress
in_next read v p = let p' = copied p (left_of p.file) in with_file_of p' (refill read v p'.file).1

in_next-ready :
    (k : ℕ) (read : Reader) (v : Volume) (p : Progress) (count : ℕ)
    → IsSectored read
    → IsWhole p.file
    → InReach p count
    → left_of p.file ≤ count
    → count ≤ length (upcoming (suc k) read v p.file)
    → (refill read v (copied p (left_of p.file)).file).0 ≡ true
    → IsWhole (in_next read v p).file
      × InReach (in_next read v p) (count - left_of p.file)
      × (count - left_of p.file ≤ length (upcoming k read v (in_next read v p).file))
unfolding copied
in_next-ready k read v p count sectored whole reach more here on =
    let left = left_of p.file in
    let (whole', at, kind) =
      IsRefilled-refill read v (moved p.file left) sectored (unfold moved in whole) in
    let later = upcoming k read v (in_next read v p).file in
    (
      whole',
      ((unfold moved in omega (arith, at, reach.0, more)), omega (arith, reach.1, more)),
      omega (
        arith,
        here,
        ap length (upcoming-on k read v p.file on),
        length-append (ahead p.file) later,
        length-ahead p.file whole,
      ),
    )

-- Every round reads a byte at least.
read_loop-IsRead :
    (fuel k : ℕ) (read : Reader) (v : Volume) (p : Progress) (count : ℕ)
    → IsSectored read
    → IsWhole p.file
    → InReach p count
    → count < 2 ^ 15
    → count < fuel
    → count ≤ length (upcoming k read v p.file)
    → (q : Progress) × (read_loop fuel read v p count ≡ some q)
      × IsRead read v count (upcoming k read v p.file) p q
read_loop-IsRead fuel k read v p zero sectored whole reach small enough here =
    (p, read_loop-none fuel read v p enough, IsRead-nothing k read v p whole)
read_loop-IsRead zero k read v p (suc c) sectored whole reach small enough here =
    absurd (omega (arith, enough))
read_loop-IsRead (suc fuel) zero read v p (suc c) sectored whole reach small enough here =
    absurd (unfold upcoming in omega (arith, here))
read_loop-IsRead (suc fuel) (suc k) read v p (suc c) sectored whole reach small enough here =
    elim (Bool-cases (ltb (suc c) (left_of p.file))) [
      | inl e ↦
          let less : suc c < left_of p.file = ground arith in
          let round =
            read_loop-inside fuel read v p (suc c) (suc c)
              (min_int-lower (suc c) (left_of p.file) small (omega arith) (omega (arith, less)))
              (omega arith) (omega (arith, less)) in
          let over : sub32 (suc c) (suc c) ≡ 0 = omega (arith, small) in
          (
            copied p (suc c),
            round
                ∙ (ap (λ (n : ℕ). read_loop fuel read v (copied p (suc c)) n) over
                    ∙ read_loop-none fuel read v (copied p (suc c)) (omega (arith, enough))),
            IsRead-within k read v p (suc c) whole reach less,
          )
      | inr e ↦
          let more : left_of p.file ≤ suc c = ground arith in
          let left = left_of p.file in
          let all_left = min_int-upper (suc c) left small (omega arith) more in
          elim (Bool-cases (refill read v (copied p left).file).0) [
            | inl on ↦
                let (whole', reach', here') =
                  in_next-ready k read v p (suc c) sectored whole reach more here on in
                let rest : sub32 (suc c) left ≡ suc c - left = omega (arith, small, more) in
                let (q, e', r) =
                  read_loop-IsRead fuel k read v (in_next read v p) (suc c - left) sectored whole'
                    reach' (omega (arith, small)) (omega (arith, enough)) here' in
                (
                  q,
                  read_loop-across fuel read v p (suc c) left all_left (omega arith) refl on
                      ∙ (ap (λ (n : ℕ). read_loop fuel read v (in_next read v p) n) rest ∙ e'),
                  IsRead-across k read v p q (suc c) whole sectored reach more (unfold copied in on)
                      r,
                )
            | inr off ↦
                let last : length (upcoming (suc k) read v p.file) ≡ length (ahead p.file) =
                  length-upcoming_last k read v p.file (unfold copied in off) in
                let same : left ≡ suc c =
                  omega (arith, last, length-ahead p.file whole, here, more) in
                let all : length (upcoming (suc k) read v p.file) ≡ suc c =
                  last ∙ (length-ahead p.file whole ∙ same) in
                let off' =
                  subst (λ (n : ℕ). (refill read v (copied p n).file).0 ≡ false) same off in
                let p' = copied p (suc c) in
                (
                  with_file_of p' (refill read v p'.file).1,
                  read_loop-last fuel read v p (suc c) (suc c) (all_left ∙ same) (omega arith) same
                      off',
                  IsRead-last k read v p (suc c) whole sectored reach same all,
                )
          ]
    ]

-- The bytes that a file has to give behind its position, and how a read moves along them: after a
-- read of `n` of them, `n` are taken away.
pub record IsReadOf (read : Reader) (v : Volume) (h : Option ℕ) (n : ℕ) (bytes : List ℕ)
    (r : List ℕ × ℕ × Volume) : Type 0 where
  pub given : r.0 ≡ take n bytes
  pub counted : r.1 ≡ n
  pub changed :
      (fd : FileData) × (r.2 ≡ with_data v h fd)
      × (fd.position ≡ (data_of v h).position + n)
      × (fd.is_directory ≡ (data_of v h).is_directory)
      × IsWhole fd
      × (n < length bytes → (k : ℕ) × (upcoming k read v fd ≡ drop n bytes))

pub read_file-IsReadOf :
    (fuel k : ℕ) (read : Reader) (v : Volume) (h : Option ℕ) (count n : ℕ)
    → clamped (data_of v h) count ≡ n
    → IsSectored read
    → IsWhole (data_of v h)
    → (data_of v h).position + n < 2 ^ 32
    → n < 2 ^ 15
    → n < fuel
    → n ≤ length (upcoming k read v (data_of v h))
    → (r : List ℕ × ℕ × Volume) × (read_file fuel read v h count ≡ some r)
      × IsReadOf read v h n (upcoming k read v (data_of v h)) r
unfolding read_file
read_file-IsReadOf fuel k read v h count n cut sectored whole reach small enough here =
    let p : Progress = record { file = data_of v h; out = []; bytes_read = 0 } in
    let (q, e, r) =
      read_loop-IsRead fuel k read v p n sectored whole (reach, omega (arith, small)) small enough
        here in
    (
      (q.out, q.bytes_read, with_data v h q.file),
      ap (λ m. m >>= λ p'. some (p'.out, p'.bytes_read, with_data v h p'.file))
          (ap (read_loop fuel read v p) cut ∙ e),
      record {
        given = r.given;
        counted = r.counted ∙ omega arith;
        changed = (q.file, refl, r.at, r.kind, r.whole, r.later);
      },
    )
