-- ===== src/BootUtil.antt =====
-- Small routines of stage 2: utility.c, ctype.c and string.c in src/bootloader/stage2. An `int` has
-- 16 bits there and `uint32_t` is a `long`. A string is the memory from its first byte on; past the
-- end of the list there is a NUL.
mod Tests
use alma_os.Base.{
  ℕ, zero, suc, List, [], ◌∷◌, Bool, Option, none, some, ◌+◌, ◌-◌, ◌%◌, ◌^◌, ◌==◌, ltb, leb, ◌&&◌,
  if◌then◌else◌, u16, u32,
}

-- `a < b` on 16-bit patterns.
unfoldable pub int_less : ℕ → ℕ → Bool
int_less a b = ltb ((a + 2 ^ 15) % 2 ^ 16) ((b + 2 ^ 15) % 2 ^ 16)

-- An `int` as an `uint32_t`.
unfoldable pub widened : ℕ → ℕ
widened a = if ltb a (2 ^ 15) then a else 2 ^ 32 - 2 ^ 16 + a

-- `min`, called with two `uint32_t` and its result used as one.
unfoldable pub min_int : ℕ → ℕ → ℕ
min_int a b = widened (if int_less (u16 a) (u16 b) then u16 a else u16 b)

-- `max`
unfoldable pub max_int : ℕ → ℕ → ℕ
max_int a b = widened (if int_less (u16 b) (u16 a) then u16 a else u16 b)

unfoldable pub align : ℕ → ℕ → ℕ
align number align_to =
    if align_to == 0
    then number
    else (let rem = number % align_to in
        if ltb 0 rem then u32 (number + align_to - rem) else number)

abbrev pub islower : ℕ → Bool
islower c = leb b'a' c && leb c b'z'

unfoldable pub toupper : ℕ → ℕ
toupper c = if islower c then c - b'a' + b'A' else c

abbrev next : Option ℕ → Option ℕ
next none = none
next (some i) = some (suc i)

-- The place of the first `chr` before the terminator; `none` is NULL.
unfoldable pub strchr : List ℕ → ℕ → Option ℕ
strchr [] chr = none
strchr (c ∷ str) chr = if c == 0 then none else if c == chr then some 0 else next (strchr str chr)

unfoldable pub strlen : List ℕ → ℕ
strlen [] = 0
strlen (c ∷ str) = if c == 0 then 0 else suc (strlen str)

-- What `strcpy` writes, the terminator included.
pub strcpy : List ℕ → List ℕ
strcpy [] = 0 ∷ []
strcpy (c ∷ src) = if c == 0 then 0 ∷ [] else c ∷ strcpy src
