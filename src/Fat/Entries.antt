-- ===== src/Fat/Entries.antt =====
-- `FAT_ReadEntry` and `FAT_FindFile` of src/bootloader/stage2/fat.c against the bytes that a directory
-- has to give.
use alma_os.Base.{
  ℕ, zero, suc, List, true, false, Option, some, ◌+◌, ◌*◌, ◌^◌, ◌<◌, ◌≤◌, length, take, drop, ◌≡◌,
  refl, ap, ap₂, ◌∙◌, arith, ◌>>=◌,
}
use alma_os.Base.Segments.{drop-drop, length-drop}
use alma_os.Fat.{FileData, Volume, Reader, DirEntry}
use alma_os.Fat.Reading.{
  data_of, with_data, clamped, read_entry, entry_of, entry_size, entry_result,
}
use alma_os.Fat.Streams.{IsSectored, IsWhole, upcoming}
use alma_os.Fat.Sequential.{read_file-IsReadOf}
use alma_os.Fat.Places.{IsPlace, data_of-with_data, IsPlace-with_data, upcoming-with_data}
use alma_os.Fat.Finding.{same_bytes, find_entry}

-- The entry number `i` of the bytes of a directory.
abbrev pub entry_number : List ℕ → ℕ → DirEntry
entry_number bytes i = entry_of (take entry_size (drop (entry_size * i) bytes))

-- A directory that is being read, with `bytes` to come.
pub record IsDirectory (read : Reader) (v : Volume) (h : Option ℕ) (bytes : List ℕ) : Type 0 where
  pub place : IsPlace v h
  pub kind : (data_of v h).is_directory ≡ true
  pub whole : IsWhole (data_of v h)
  pub to_come : (k : ℕ) × (upcoming k read v (data_of v h) ≡ bytes)

pub clamped-directory :
    (fd : FileData) (count : ℕ) → fd.is_directory ≡ true → clamped fd count ≡ count
unfolding clamped
clamped-directory fd count kind = rw kind refl

whole_entry :
    (r : List ℕ × ℕ × Volume) (bytes : List ℕ) (v : Volume)
    → r.0 ≡ bytes
    → r.1 ≡ entry_size
    → r.2 ≡ v
    → some (entry_result r) ≡ some (some (entry_of bytes), v)
whole_entry r bytes v a b c =
    rw b (ap₂ (λ (l : List ℕ) (w : Volume). some (some (entry_of l), w)) a c)

-- One entry is read, and what follows it comes next.
read_entry-next :
    (read : Reader) (v : Volume) (h : Option ℕ) (bytes : List ℕ)
    → IsSectored read
    → IsDirectory read v h bytes
    → (data_of v h).position + entry_size < 2 ^ 32
    → entry_size < length bytes
    → (v' : Volume) × (read_entry read v h ≡ some (some (entry_number bytes 0), v'))
      × ((data_of v' h).position ≡ (data_of v h).position + entry_size)
      × IsDirectory read v' h (drop entry_size bytes)
unfolding read_entry
read_entry-next read v h bytes sectored d reach room =
    let fd = data_of v h in
    let (k, up) = d.to_come in
    let enough : entry_size ≤ length (upcoming k read v fd) = omega (arith, ap length up, room) in
    let (r, e, out) =
      read_file-IsReadOf 33 k read v h entry_size entry_size
        (clamped-directory fd entry_size d.kind) sectored d.whole reach (omega arith) (omega arith)
        enough in
    let (fd', at, position, kind, whole, later) = out.changed in
    let (k', rest) = later (omega (arith, ap length up, room)) in
    let here = data_of-with_data v h fd' d.place in
    let e' : read_entry read v h
        ≡ some (some (entry_of (take entry_size bytes)), with_data v h fd') =
      unfold read_entry in
      (ap (λ m. m >>= λ r. some (entry_result r)) e
        ∙ whole_entry r (take entry_size bytes) (with_data v h fd')
            (out.given ∙ ap (take entry_size) up) out.counted at) in
    (
      with_data v h fd',
      e',
      ap (λ f. f.position) here ∙ position,
      record {
        place = IsPlace-with_data v h fd' d.place;
        kind = ap (λ f. f.is_directory) here ∙ (kind ∙ d.kind);
        whole = ap (λ f. length f.buffer) here ∙ whole;
        to_come = (
          k',
          ap (upcoming k' read (with_data v h fd')) here
              ∙ (upcoming-with_data k' read v h fd' fd' ∙ (rest ∙ ap (drop entry_size) up)),
        );
      },
    )

-- `FAT_FindFile` gives the first entry of a directory that has the name, as long as that is not its
-- last 32 bytes: the entries before it are passed, and the position is behind the one found.
pub find_entry-first :
    (m fuel : ℕ) (read : Reader) (v : Volume) (h : Option ℕ) (name bytes : List ℕ)
    → IsSectored read
    → IsDirectory read v h bytes
    → (data_of v h).position + entry_size * suc m < 2 ^ 32
    → entry_size * suc m < length bytes
    → ((i : ℕ) → i < m → same_bytes 11 name (entry_number bytes i).name ≡ false)
    → same_bytes 11 name (entry_number bytes m).name ≡ true
    → m < fuel
    → (v' : Volume) × (find_entry fuel read v h name ≡ some (some (entry_number bytes m), v'))
      × ((data_of v' h).position ≡ (data_of v h).position + entry_size * suc m)
unfolding find_entry
find_entry-first m zero read v h name bytes sectored d reach room before found enough =
    absurd (omega (arith, enough))
find_entry-first zero (suc fuel) read v h name bytes sectored d reach room before found enough =
    let (v', e, at, d') =
      read_entry-next read v h bytes sectored d (omega (arith, reach)) (omega (arith, room)) in
    (v', rw (e, found) refl, omega (arith, at))
find_entry-first (suc m) (suc fuel) read v h name bytes sectored d reach room before found enough =
    let (v', e, at, d') =
      read_entry-next read v h bytes sectored d (omega (arith, reach)) (omega (arith, room)) in
    let later = drop entry_size bytes in
    let shift : (i : ℕ) → entry_number later i ≡ entry_number bytes (suc i) = λ i.
      ap (λ l. entry_of (take entry_size l))
        (drop-drop (entry_size * i) entry_size bytes
          ∙ ap (λ (n : ℕ). drop n bytes) {y = entry_size * suc i} (omega arith)) in
    let (w, e', at') =
      find_entry-first m fuel read v' h name later sectored d' (omega (arith, reach, at))
        (omega (arith, room, length-drop entry_size bytes))
        (λ i below.
          ap (λ x. same_bytes 11 name x.name) (shift i) ∙ before (suc i) (omega (arith, below)))
        (ap (λ x. same_bytes 11 name x.name) (shift m) ∙ found) (omega (arith, enough)) in
    (
      w,
      rw (e, before 0 (omega arith)) (e' ∙ ap (λ x. some (some x, w)) (shift m)),
      omega (arith, at, at'),
    )
