-- ===== src/CString.antt =====
-- The kernel's string and memory routines, src/kernel/string.c, over a memory of bytes.
-- An object does not run past the end of the address space, so pointers are plain numbers.
-- `strlen`, `strcmp` and `strcpy` look for a terminator and take fuel; `none` means that it ran out.
pub mod Texts
pub mod Copies
pub mod TextCopies
mod Tests
use alma_os.Base.{
  ℕ, zero, suc, Bool, true, false, not, ◌&&◌, ◌||◌, Option, none, some, ◌+◌, ◌%◌, ◌==◌,
  if◌then◌else◌, u8,
}
use alma_os.Base.Int.{ℤ, pos, sub_ℕ}

-- The byte at each address.
abbrev pub Memory : Type 0
Memory = ℕ → ℕ

abbrev pub store : Memory → ℕ → ℕ → Memory
store m p v = λ q. if q == p then v else m q

-- The loop of `strlen` at `len`.
strlen_from : ℕ → Memory → ℕ → ℕ → Option ℕ
strlen_from zero m s len = none
strlen_from (suc fuel) m s len =
    let more = strlen_from fuel m s (len + 1) in if m (s + len) == 0 then some len else more

pub strlen : ℕ → Memory → ℕ → Option ℕ
unfolding strlen_from
strlen fuel m s = strlen_from fuel m s 0

pub strcmp : ℕ → Memory → ℕ → ℕ → Option ℤ
strcmp zero m a b = none
strcmp (suc fuel) m a b =
    let more = strcmp fuel m (a + 1) (b + 1) in
    if not (m a == 0) && m a == m b then more else some (sub_ℕ (m a) (m b))

-- `n` falls by one in each round, and stops the loop at 0.
pub strncmp : Memory → ℕ → ℕ → ℕ → ℤ
strncmp m a b zero = pos 0
strncmp m a b (suc n) =
    let more = strncmp m (a + 1) (b + 1) n in
    if not (m a == 0) && m a == m b then more else sub_ℕ (m a) (m b)

-- The result is the memory; the C function returns `dst`.
pub strcpy : ℕ → Memory → ℕ → ℕ → Option Memory
strcpy zero m dst src = none
strcpy (suc fuel) m dst src =
    let m' = store m dst (m src) in
    let more = strcpy fuel m' (dst + 1) (src + 1) in if m src == 0 then some m' else more

-- The second loop of `strncpy`: the rest is filled with zeros.
unfoldable pub fill_zero : Memory → ℕ → ℕ → Memory
fill_zero m dst zero = m
fill_zero m dst (suc n) = fill_zero (store m dst 0) (dst + 1) n

pub strncpy : Memory → ℕ → ℕ → ℕ → Memory
strncpy m dst src zero = m
strncpy m dst src (suc n) =
    let more = strncpy (store m dst (m src)) (dst + 1) (src + 1) n in
    if m src == 0 then fill_zero m dst (suc n) else more

pub memcpy : Memory → ℕ → ℕ → ℕ → Memory
memcpy m dst src zero = m
memcpy m dst src (suc n) = memcpy (store m dst (m src)) (dst + 1) (src + 1) n

pub memset : Memory → ℕ → ℕ → ℕ → Memory
memset m dst val zero = m
memset m dst val (suc n) = memset (store m dst (u8 val)) (dst + 1) val n

pub memcmp : Memory → ℕ → ℕ → ℕ → ℤ
memcmp m a b zero = pos 0
memcmp m a b (suc n) =
    let more = memcmp m (a + 1) (b + 1) n in if not (m a == m b) then sub_ℕ (m a) (m b) else more
