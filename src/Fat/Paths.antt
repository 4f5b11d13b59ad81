-- ===== src/Fat/Paths.antt =====
-- `FAT_Open` of src/bootloader/stage2/fat.c on a file of the root directory.
use alma_os.Base.{
  ℕ, suc, List, [], ◌∷◌, ◌++◌, Bool, true, Option, some, none, ◌+◌, ◌<◌, ==_ne, length, drop, All,
  length-append, ◌≡◌, ◌≢◌, refl, ap, ◌∙◌, arith, ◌>>=◌, ltb,
}
use alma_os.BootUtil.{strchr, strlen}
use alma_os.Fat.{Volume, Reader, DirEntry, close}
use alma_os.Fat.Names.{take_base}
use alma_os.Fat.Finding.{
  find_file, next_name, written_name, split_path, opened, Opened, enter, stops, open_path, relative,
  open_file,
}

-- The characters of a name in a path.
abbrev pub IsStep : ℕ → Type 0
IsStep c = (c ≢ 0) × (c ≢ b'/')

strchr-step : (name more : List ℕ) → All IsStep name → strchr (name ++ (0 ∷ more)) b'/' ≡ none
unfolding strchr
strchr-step [] more ok = refl
strchr-step (c ∷ name) more ok =
    rw (==_ne c 0 ok.0.0, ==_ne c b'/' ok.0.1, strchr-step name more ok.1) refl

strlen-step : (name more : List ℕ) → All IsStep name → strlen (name ++ (0 ∷ more)) ≡ length name
unfolding strlen
strlen-step [] more ok = refl
strlen-step (c ∷ name) more ok = rw (==_ne c 0 ok.0.0, strlen-step name more ok.1) refl

drop_name : (name more : List ℕ) → drop (length name) (name ++ more) ≡ more
drop_name [] more = refl
drop_name (c ∷ name) more = drop_name name more

next_name-last :
    (name more : List ℕ) → All IsStep name → next_name (name ++ (0 ∷ more)) ≡ (name, true, 0 ∷ more)
unfolding next_name split_path
next_name-last name more ok =
    rw
      (
        strchr-step name more ok,
        strlen-step name more ok,
        take_base name (0 ∷ more),
        drop_name name (0 ∷ more),
      )
      refl

-- What is found, opened after the root directory is closed; NULL when nothing is found.
pub open_found : Reader → Option DirEntry × Volume → Option (Option ℕ) × Volume
open_found read (none, v) = (none, close v none)
open_found read (some e, v) = opened read (close v none) e

enter-last :
    (read : Reader) (next : Volume → Option (Option ℕ) → Option Opened)
    (found : Option DirEntry × Volume)
    → ((v : Volume) (file : Option (Option ℕ)) → next v file ≡ some (file, v))
    → enter read true none next found ≡ some (open_found read found)
unfolding enter open_found stops
enter-last read next (none, v) ends = refl
enter-last read next (some e, v) ends =
    let step = opened read (close v none) e in ends step.1 step.0

-- The name in the array, with its terminator and the stale bytes behind it.
abbrev pub in_array : List ℕ → List ℕ → List ℕ
in_array array name = name ++ (0 ∷ drop (suc (length name)) array)

open_path-last :
    (rounds : ℕ) (read : Reader) (v : Volume) (array name more : List ℕ) (fuel : ℕ)
    → All IsStep name
    → 0 < length name
    → length name < 256
    → open_path (suc (suc fuel)) rounds read v (some none) array (name ++ (0 ∷ more)) ≡ (
        find_file rounds read v none (in_array array name) >>= λ found.
        some (open_found read found))
unfolding open_path written_name
open_path-last rounds read v array [] more fuel ok some_name fits =
    absurd (omega (arith, some_name))
open_path-last rounds read v array (c ∷ name) more fuel ok some_name fits =
    let path = (c ∷ name) ++ (0 ∷ more) in
    let room : ltb (length (c ∷ name)) 256 ≡ true = ground arith in
    let round : List ℕ × Bool × List ℕ → Option Opened = λ part.
      written_name array part.0 >>= λ array'. find_file rounds read v none array' >>= λ found.
      enter read part.1 none (λ v' file. open_path (suc fuel) rounds read v' file array' part.2)
        found in
    rw (==_ne c 0 ok.0.0) (
      ap round (next_name-last (c ∷ name) more ok)
      ∙ rw room (ends (find_file rounds read v none (in_array array (c ∷ name)))))
  where
    ends :
        (search : Option (Option DirEntry × Volume))
        → (search >>= λ found.
            enter read true none
              (λ v' file.
                open_path (suc fuel) rounds read v' file (in_array array (c ∷ name)) (0 ∷ more))
              found)
          ≡ (search >>= λ found. some (open_found read found))
    ends none = refl
    ends (some found) = enter-last read _ found (λ v' file. refl)

-- `FAT_Open` of a name below the root, with or without a `/` before it: the root directory is
-- searched for the name and closed, and what is found is opened; NULL when nothing is found or it
-- cannot be opened.
pub open_file-root :
    (rounds : ℕ) (read : Reader) (v : Volume) (array name more : List ℕ)
    → All IsStep name
    → 0 < length name
    → length name < 256
    → let answer = find_file rounds read v none (in_array array name) >>= λ found.
        some (open_found read found) in
      (open_file rounds read v array (b'/' ∷ (name ++ (0 ∷ more))) ≡ answer)
      × (open_file rounds read v array (name ++ (0 ∷ more)) ≡ answer)
unfolding open_file relative
open_file-root rounds read v array [] more ok some_name fits = absurd (omega (arith, some_name))
open_file-root rounds read v array (c ∷ name) more ok some_name fits =
    let path = (c ∷ name) ++ (0 ∷ more) in
    let long : length path ≡ suc (length name + length more + 1) =
      omega (arith, length-append (c ∷ name) (0 ∷ more)) in
    let loop =
      ap (λ (n : ℕ). open_path (suc n) rounds read v (some none) array path) long
      ∙ open_path-last rounds read v array (c ∷ name) more (length name + length more + 1) ok
          some_name fits in
    (loop, rw (==_ne c b'/' ok.0.1) loop)
