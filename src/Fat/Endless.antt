-- ===== src/Fat/Endless.antt =====
-- The search of the root directory in src/bootloader/stage2/fat.c behind its last entry.
use alma_os.Base.{
  ℕ, zero, suc, List, [], true, false, some, none, ◌+◌, ◌*◌, ◌/◌, ◌%◌, ◌^◌, ◌<◌, ◌≤◌, ◌==◌, take,
  drop, ◌≡◌, ◌≢◌, refl, ap, ◌∙◌, arith, ◌>>=◌, leb, Bool-cases, inl, inr,
}
use alma_os.Fat.{FileData, Volume, Reader}
use alma_os.Fat.Reading.{
  Progress, data_of, with_data, left_of, offset_of, moved, copied, refill, refill_of, refill_root,
  read_loop, with_file_of, read_file, read_entry, entry_of, entry_size, entry_result,
}
use alma_os.Fat.Streams.{ahead}
use alma_os.Fat.Rounds.{min_int-lower, read_loop-inside, read_loop-last, read_loop-none}
use alma_os.Fat.Entries.{clamped-directory}
use alma_os.Fat.Finding.{same_bytes, find_entry}

-- The root directory at or behind its end, between two entries.
pub record IsPast (fd : FileData) : Type 0 where
  pub root : fd.handle ≡ none
  pub kind : fd.is_directory ≡ true
  pub at_end : fd.size ≤ fd.position
  pub between : fd.position % entry_size ≡ 0
  pub small : fd.position + entry_size < 2 ^ 32

refill-past :
    (read : Reader) (v : Volume) (fd : FileData)
    → fd.handle ≡ none
    → fd.size ≤ fd.position
    → refill read v fd ≡ (false, fd)
unfolding refill
refill-past read v fd root at_end = ap (refill_of read v fd) root ∙ stops
  where
    stops : refill_of read v fd none ≡ (false, fd)
    stops =
        let end : leb fd.size fd.position ≡ true = ground arith in
        unfold refill_of refill_root in rw end refl

-- What the loop does: it gives the next 32 bytes of the last sector.
read_loop-past :
    (fuel : ℕ) (read : Reader) (v : Volume) (fd : FileData)
    → IsPast fd
    → let p : Progress = record { file = fd; out = []; bytes_read = 0 } in
      read_loop (suc (suc fuel)) read v p entry_size ≡ some (copied p entry_size)
unfolding copied moved
read_loop-past fuel read v fd past =
    let p : Progress = record { file = fd; out = []; bytes_read = 0 } in
    let n =
      min_int-lower entry_size (left_of fd) (omega arith) (omega arith)
        (omega (arith, past.between)) in
    elim (Bool-cases (left_of fd == entry_size)) [
      | inl e ↦
          let same : left_of fd ≡ entry_size = ground arith in
          let p' = copied p entry_size in
          let more : refill read v p'.file ≡ (false, p'.file) =
            refill-past read v p'.file past.root (omega (arith, past.at_end, past.small)) in
          read_loop-last (suc fuel) read v p entry_size entry_size n (omega arith) same
            (ap (λ r. r.0) more)
          ∙ ap (λ r. some (with_file_of p' r.1)) more
      | inr e ↦
          let ne : left_of fd ≢ entry_size = ground arith in
          read_loop-inside (suc fuel) read v p entry_size entry_size n (omega arith) ne
          ∙ read_loop-none (suc fuel) read v (copied p entry_size) (omega arith)
    ]

-- `FAT_ReadEntry` on the root directory at its end succeeds.
read_entry-past :
    (read : Reader) (v : Volume)
    → IsPast v.root
    → read_entry read v none
      ≡ some (
        some (entry_of (take entry_size (ahead v.root))),
        record v { root = moved v.root entry_size },
      )
unfolding read_entry read_file data_of with_data copied
read_entry-past read v past =
    let p : Progress = record { file = v.root; out = []; bytes_read = 0 } in
    let cut = clamped-directory v.root entry_size past.kind in
    let loop = ap (read_loop 33 read v p) cut ∙ read_loop-past 31 read v v.root past in
    let file = ap (λ m. m >>= λ q. some (q.out, q.bytes_read, with_data v none q.file)) loop in
    ap (λ m. m >>= λ r. some (entry_result r)) file

IsPast-moved :
    (fd : FileData)
    → IsPast fd
    → fd.position + 2 * entry_size < 2 ^ 32
    → IsPast (moved fd entry_size)
unfolding moved
IsPast-moved fd past small = record {
  root = past.root;
  kind = past.kind;
  at_end = omega (arith, past.at_end, small);
  between = omega (arith, past.between, small);
  small = omega (arith, small);
}

-- Behind the end of the root directory `FAT_FindFile` does not come to an end: it goes on to read the
-- entries of the last sector, and as long as none of them has the name and the position stays below
-- 2^32, no number of rounds gives an answer.
pub find_entry-endless :
    (fuel : ℕ) (read : Reader) (v : Volume) (name : List ℕ)
    → IsPast v.root
    → ((i : ℕ)
        → i < 16
        → same_bytes 11 name (entry_of (take entry_size (drop (entry_size * i) v.root.buffer))).name
          ≡ false)
    → v.root.position + entry_size * suc fuel < 2 ^ 32
    → find_entry fuel read v none name ≡ none
unfolding find_entry moved
find_entry-endless zero read v name past missing reach = refl
find_entry-endless (suc fuel) read v name past missing reach =
    let fd = v.root in
    let v' = record v { root = moved fd entry_size } in
    let slot : offset_of fd ≡ entry_size * (offset_of fd / entry_size) =
      omega (arith, past.between) in
    let other =
      ap (λ (n : ℕ). same_bytes 11 name (entry_of (take entry_size (drop n fd.buffer))).name) slot
      ∙ missing (offset_of fd / entry_size) (omega arith) in
    rw (read_entry-past read v past, other)
      (find_entry-endless fuel read v' name (IsPast-moved fd past (omega (arith, reach))) missing
        (omega (arith, reach)))
