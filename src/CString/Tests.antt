-- ===== src/CString/Tests.antt =====
-- Tests of the string routines, and their theorems at concrete inputs.
use alma_os.Base.{ℕ, List, [], ◌∷◌, ◌+◌, ◌<◌, some, none, ◌≡◌, inl, refl, arith, get_or}
use alma_os.Base.Int.{pos, negsuc}
use alma_os.CString.{Memory, strlen, strcmp, strncmp, memcpy}
use alma_os.CString.Texts.{IsText, strlen-IsText}
use alma_os.CString.Copies.{SameOutside, memcpy_lem}

-- "mem" at 16 and "mode" at 32.
abbrev words : List ℕ
words =
    0 ∷ 0 ∷ 0 ∷ 0 ∷ 0 ∷ 0 ∷ 0 ∷ 0 ∷ 0 ∷ 0 ∷ 0 ∷ 0 ∷ 0 ∷ 0 ∷ 0 ∷ 0 ∷ b'm' ∷ b'e' ∷ b'm' ∷ 0 ∷ 0 ∷ 0
    ∷ 0 ∷ 0 ∷ 0 ∷ 0 ∷ 0 ∷ 0 ∷ 0 ∷ 0 ∷ 0 ∷ 0 ∷ b'm' ∷ b'o' ∷ b'd' ∷ b'e' ∷ 0 ∷ []

abbrev sample : Memory
sample p = get_or words p 0

abbrev mem : List ℕ
mem = b'm' ∷ b'e' ∷ b'm' ∷ []

abbrev mode : List ℕ
mode = b'm' ∷ b'o' ∷ b'd' ∷ b'e' ∷ []

mem-IsText : IsText sample 16 mem
mem-IsText = omega arith

mode-IsText : IsText sample 32 mode
mode-IsText = omega arith

strlen-sample : (strlen 9 sample 32 ≡ some 4) × (strlen 3 sample 32 ≡ none)
unfolding strlen
strlen-sample = (refl, refl)

strcmp-sample : (strcmp 9 sample 16 32 ≡ some (negsuc 9)) × (strncmp sample 16 32 1 ≡ pos 0)
unfolding strcmp strncmp
strcmp-sample = (refl, refl)

strlen-IsText_example : strlen 9 sample 32 ≡ some 4
strlen-IsText_example = strlen-IsText 9 sample 32 mode mode-IsText (omega arith)

-- A move by one place to the left.
memcpy_lem_example :
    ((i : ℕ) → i < 4 → memcpy sample 31 32 4 (31 + i) ≡ sample (32 + i))
    × SameOutside sample (memcpy sample 31 32 4) 31 4
memcpy_lem_example = memcpy_lem 4 sample 31 32 (inl (omega arith))
