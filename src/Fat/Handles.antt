-- ===== src/Fat/Handles.antt =====
-- The table of open files in src/bootloader/stage2/fat.c.
use alma_os.Base.{
  ℕ, suc, List, [], ◌∷◌, true, false, Option, none, some, ◌+◌, ◌<◌, length, All, length-set,
  get_or-set_self, get_or-set_ne, ◌≡◌, ◌≢◌, ◌⊎◌, inl, inr, refl, sym, ap, ◌∙◌, arith, Bool-cases,
}
use mathlib.Core.Path.{subst}
use alma_os.Fat.{
  FileData, Volume, DirEntry, Reader, max_handles, free_handle, file_at, no_file, prepared,
  cluster_of, cluster_to_lba, loaded, open_at, open_entry, close, close_file,
}

-- The table has its ten places.
abbrev pub IsTable : Volume → Type 0
IsTable v = length v.files ≡ max_handles

-- Every place is taken.
abbrev pub AllOpen : List FileData → Type 0
AllOpen files = All (λ fd. fd.opened ≡ true) files

free_handle-cases :
    (files : List FileData) (i : ℕ)
    → ((h : ℕ) × (free_handle files i ≡ some (i + h))
        × (h < length files)
        × ((file_at files h).opened ≡ false))
      ⊎ ((free_handle files i ≡ none) × AllOpen files)
unfolding free_handle
free_handle-cases [] i = inr (refl, record {})
free_handle-cases (fd ∷ files) i = elim (Bool-cases fd.opened) [
  | inr free ↦ inl (0, rw free (ap some (omega arith)), omega arith, free)
  | inl taken ↦ rw taken (elim (free_handle-cases files (i + 1)) [
    | inl (h, e, below, free) ↦ inl (suc h, e ∙ ap some (omega arith), omega (arith, below), free)
    | inr (e, all_open) ↦ inr (e, (refl, all_open))
  ])
]

-- A place other than `h` is as it was.
abbrev pub OthersKept : ℕ → Volume → Volume → Type 0
OthersKept h v v' = (k : ℕ) → h ≢ k → file_at v'.files k ≡ file_at v.files k

-- A file just opened, with its first sector.
pub record IsFresh (e : DirEntry) (buffer : List ℕ) (fd : FileData) : Type 0 where
  pub is_open : fd.opened ≡ true
  pub first_sector : fd.buffer ≡ buffer
  pub at_start : fd.position ≡ 0
  pub whole_size : fd.size ≡ e.size
  pub first_cluster : fd.current_cluster ≡ cluster_of e
  pub first_of_cluster : fd.sector_in_cluster ≡ 0

-- The result for place `h`, after what the read of the first sector gave.
abbrev pub Result : ℕ → DirEntry → Option (List ℕ) → Option ℕ × Volume → Type 0
Result h e none r = (r.0 ≡ none) × ((file_at r.1.files h).opened ≡ false)
Result h e (some buffer) r = (r.0 ≡ some h) × IsFresh e buffer (file_at r.1.files h)

Result-loaded :
    (v : Volume) (h : ℕ) (e : DirEntry) (sector : Option (List ℕ))
    → IsTable v
    → h < max_handles
    → (file_at v.files h).opened ≡ false
    → let r = loaded v h (prepared (file_at v.files h) h e) sector in
      IsTable r.1 × OthersKept h v r.1 × Result h e sector r
unfolding loaded
Result-loaded v h e none whole below free =
    let fd = prepared (file_at v.files h) h e in
    (
      length-set v.files h fd ∙ whole,
      λ k ne. get_or-set_ne v.files h k fd no_file ne,
      (
        refl,
        ap (λ f. f.opened) (get_or-set_self v.files h fd no_file (omega (arith, whole, below)))
            ∙ (unfold prepared in free),
      ),
    )
Result-loaded v h e (some buffer) whole below free =
    let fd = record (prepared (file_at v.files h) h e) { buffer = buffer; opened = true } in
    let there = get_or-set_self v.files h fd no_file (omega (arith, whole, below)) in
    (
      length-set v.files h fd ∙ whole,
      λ k ne. get_or-set_ne v.files h k fd no_file ne,
      (
        refl,
        record {
          is_open = ap (λ f. f.opened) there;
          first_sector = ap (λ f. f.buffer) there;
          at_start = ap (λ f. f.position) there ∙ (unfold prepared in refl);
          whole_size = ap (λ f. f.size) there ∙ (unfold prepared in refl);
          first_cluster = ap (λ f. f.current_cluster) there ∙ (unfold prepared in refl);
          first_of_cluster = ap (λ f. f.sector_in_cluster) there ∙ (unfold prepared in refl);
        },
      ),
    )

-- `FAT_OpenEntry` on a table of ten places: NULL without a change when all are open; otherwise the
-- first sector of the file goes to a place that was free. If that read fails the result is NULL and
-- the place stays free; if not, the place is open, at position 0 of a file of the entry's size and
-- first cluster. No other place changes.
pub open_entry-outcome :
    (read : Reader) (v : Volume) (e : DirEntry)
    → IsTable v
    → (AllOpen v.files × (open_entry read v e ≡ (none, v)))
      ⊎ ((h : ℕ) × (h < max_handles)
          × ((file_at v.files h).opened ≡ false)
          × IsTable (open_entry read v e).1
          × OthersKept h v (open_entry read v e).1
          × Result h e (read (cluster_to_lba v (cluster_of e)) 1) (open_entry read v e))
unfolding open_entry open_at
open_entry-outcome read v e whole = elim (free_handle-cases v.files 0) [
  | inr (none_free, all_open) ↦ inl (all_open, rw none_free refl)
  | inl (h, found, below, free) ↦
      let inside : h < max_handles = omega (arith, below, whole) in
      let at : free_handle v.files 0 ≡ some h = found ∙ ap some (omega arith) in
      let sector = read (cluster_to_lba v (cluster_of e)) 1 in
      let opens : open_entry read v e ≡ loaded v h (prepared (file_at v.files h) h e) sector =
        ap (open_at read v e) at in
      let (table, kept, result) =
        subst (λ (r : Option ℕ × Volume). IsTable r.1 × OthersKept h v r.1 × Result h e sector r)
          (sym opens) (Result-loaded v h e sector whole inside free) in
      inr (h, inside, free, table, kept, result)
]

-- After `FAT_Close` the place of a file is free, and no other place has changed.
close-frees :
    (v : Volume) (h : ℕ)
    → IsTable v
    → h < max_handles
    → IsTable (close v (some h))
      × ((file_at (close v (some h)).files h).opened ≡ false)
      × OthersKept h v (close v (some h))
unfolding close
close-frees v h whole below =
    let fd = close_file (file_at v.files h) in
    (
      length-set v.files h fd ∙ whole,
      ap (λ f. f.opened) (get_or-set_self v.files h fd no_file (omega (arith, whole, below)))
          ∙ (unfold close_file in refl),
      λ k ne. get_or-set_ne v.files h k fd no_file ne,
    )
