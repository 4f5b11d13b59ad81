-- ===== src/Fat/Finding.antt =====
-- `FAT_FindFile` and `FAT_Open` of src/bootloader/stage2/fat.c. A string is the memory from its first
-- byte on, stale bytes behind its terminator included.
use alma_os.Base.{
  ℕ, zero, suc, List, [], ◌∷◌, ◌++◌, Bool, true, false, not, ◌&&◌, Option, none, some, ◌==◌, ltb,
  if◌then◌else◌, ◌>>=◌, take, drop, replicate, has_bit, length,
}
use alma_os.BootUtil.{toupper, strchr, strlen}
use alma_os.Fat.{Volume, DirEntry, Reader, byte_at, open_entry, close}
use alma_os.Fat.Reading.{read_entry}

-- A part of `fatName`: up to `n` characters of the name, then spaces.
unfoldable pub upper_chars : ℕ → List ℕ → List ℕ
upper_chars zero name = []
upper_chars (suc n) [] = replicate (suc n) b' '
upper_chars (suc n) (c ∷ name) =
    if c == 0 then replicate (suc n) b' ' else toupper c ∷ upper_chars n name

-- Where `ext` points, from the start of the name.
unfoldable pub extension_at : List ℕ → ℕ
extension_at name = elim (strchr name b'.') [ none ↦ 11 | some k ↦ k ]

unfoldable pub fat_name : List ℕ → List ℕ
fat_name name =
    let ext = extension_at name in
    upper_chars 8 (take ext name)
    ++ (if byte_at name ext == b'.' then upper_chars 3 (drop (suc ext) name) else replicate 3 b' ')

-- `memcmp(a, b, n) == 0`
unfoldable pub same_bytes : ℕ → List ℕ → List ℕ → Bool
same_bytes zero a b = true
same_bytes (suc n) a b = byte_at a 0 == byte_at b 0 && same_bytes n (drop 1 a) (drop 1 b)

-- The loop of `FAT_FindFile`; the outer `none` is a loop that needs more rounds.
unfoldable pub find_entry :
    ℕ → Reader → Volume → Option ℕ → List ℕ → Option (Option DirEntry × Volume)
find_entry zero read v h name = none
find_entry (suc fuel) read v h name = read_entry read v h >>= λ r. elim r.0 [
  | none ↦ some (none, r.1)
  | some e ↦
      if same_bytes 11 name e.name then some (some e, r.1) else find_entry fuel read r.1 h name
]

-- `FAT_FindFile`: the entry, or `none` for `false`.
unfoldable pub find_file :
    ℕ → Reader → Volume → Option ℕ → List ℕ → Option (Option DirEntry × Volume)
find_file fuel read v h name = find_entry fuel read v h (fat_name name)

unfoldable pub split_path : Option ℕ → List ℕ → List ℕ × Bool × List ℕ
split_path (some k) path = (take k path, false, drop (suc k) path)
split_path none path = (take (strlen path) path, true, drop (strlen path) path)

-- The next name of a path, whether it is the last one, and the rest of the path.
unfoldable pub next_name : List ℕ → List ℕ × Bool × List ℕ
next_name path = split_path (strchr path b'/') path

-- The array `name` after a name and its terminator are written; `none` is a write past its 256
-- bytes.
unfoldable pub written_name : List ℕ → List ℕ → Option (List ℕ)
written_name array part =
    if ltb (length part) 256 then some (part ++ (0 ∷ drop (suc (length part)) array)) else none

-- A `return NULL` of the loop.
unfoldable pub stops : Bool → DirEntry → Bool
stops is_last e = not is_last && not (has_bit e.attributes 4)

unfoldable pub some_file : Option ℕ → Option (Option ℕ)
some_file none = none
some_file (some h) = some (some h)

-- The handle of `FAT_OpenEntry` as a file, NULL or not.
unfoldable pub opened : Reader → Volume → DirEntry → Option (Option ℕ) × Volume
opened read v e = let o = open_entry read v e in (some_file o.0, o.1)

-- What `FAT_Open` gives: NULL or a file, and the volume.
abbrev pub Opened : Type 0
Opened = Option (Option ℕ) × Volume

-- The end of a round: what was found is opened, and `next` goes on from it.
unfoldable pub enter :
    Reader
    → Bool
    → Option ℕ
    → (Volume → Option (Option ℕ) → Option Opened)
    → Option DirEntry × Volume
    → Option Opened
enter read is_last h next (none, v) = some (none, close v h)
enter read is_last h next (some e, v) =
    let v' = close v h in
    let step = opened read v' e in
    let more = next step.1 step.0 in if stops is_last e then some (none, v') else more

-- The loop of `FAT_Open`, with `rounds` for each search. The outer `none` stands for a search that
-- needs more rounds and for undefined behaviour: a name that does not fit in its array, and a path
-- that goes on below a directory for which there was no handle or no sector.
unfoldable pub open_path :
    ℕ → ℕ → Reader → Volume → Option (Option ℕ) → List ℕ → List ℕ → Option Opened
open_path zero rounds read v current array path = none
open_path (suc fuel) rounds read v current array path =
    let part = next_name path in
    if byte_at path 0 == 0
    then some (current, v)
    else (current >>= λ h. written_name array part.0 >>= λ array'.
        find_file rounds read v h array' >>= λ found.
        enter read part.1 h (λ v' file. open_path fuel rounds read v' file array' part.2) found)

-- `if (path[0] == '/') path++;`
unfoldable pub relative : List ℕ → List ℕ
relative path = if byte_at path 0 == b'/' then drop 1 path else path

-- `FAT_Open`: NULL or the file. Each round takes a character of the path or more.
unfoldable pub open_file : ℕ → Reader → Volume → List ℕ → List ℕ → Option Opened
open_file rounds read v array path =
    let rest = relative path in open_path (suc (length rest)) rounds read v (some none) array rest
