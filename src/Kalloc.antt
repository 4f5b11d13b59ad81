-- ===== src/Kalloc.antt =====
-- The kernel's page allocator, src/kernel/kalloc.c: a bump allocator over the largest usable region
-- of the E820 map at or above 1 MiB. The `uint32_t` and `uint64_t` wraps are written out.
pub mod Blocks
pub mod Choice
mod Tests
use alma_os.Base.{
  ℕ, List, [], ◌∷◌, Bool, true, false, not, ◌&&◌, ◌||◌, Option, none, some, ◌+◌, ◌-◌, ◌*◌, ◌/◌, ◌%◌,
  ◌^◌, ◌==◌, ltb, if◌then◌else◌, u32, u64, sub32,
}

abbrev pub page_size : ℕ
page_size = 4096

abbrev pub min_physical : ℕ
min_physical = 0x100000

-- `x & ~(KALLOC_PAGE_SIZE - 1u)`
abbrev pub page_floor : ℕ → ℕ
page_floor x = x / page_size * page_size

-- 0 where rounding up would overflow.
pub align_up : ℕ → ℕ
align_up value =
    if ltb (0xFFFFFFFF - (page_size - 1)) value then 0 else page_floor (u32 (value + page_size - 1))

-- `e820_entry_t`, less the extended attributes, which nothing reads.
pub record Entry : Type 0 where
  pub base : ℕ
  pub size : ℕ
  pub entry_type : ℕ

-- The file's static variables `kalloc_region_*`.
pub record Region : Type 0 where
  pub base : ℕ
  pub capacity : ℕ
  pub offset : ℕ

abbrev pub no_region : Region
no_region = record { base = 0; capacity = 0; offset = 0 }

-- A page-aligned start and the bytes from it on.
pub record Span : Type 0 where
  pub start : ℕ
  pub bytes : ℕ

-- `end` after its clipping to 4 GiB.
unfoldable pub end_of : Entry → ℕ
end_of e = let end = u64 (e.base + e.size) in if ltb 0x1_0000_0000 end then 0x1_0000_0000 else end

-- `usable_size`, before the start is aligned.
unfoldable pub usable_of : Entry → ℕ
usable_of e = u32 ((end_of e + 2 ^ 64 - e.base) % 2 ^ 64)

-- The part from the first page boundary on; `none` is `continue`.
pub trim : ℕ → ℕ → Option Span
trim usable_base usable_size =
    let aligned = align_up usable_base in
    let waste = sub32 aligned usable_base in
    if aligned == 0 || not (ltb waste usable_size)
    then none
    else some (record { start = aligned; bytes = sub32 usable_size waste })

-- The loop body of `kalloc_init` up to the comparison: `none` is `continue`.
pub candidate : Entry → Option Span
candidate e =
    if not (e.entry_type == 1)
    then none
    else if ltb e.base min_physical
    then none
    else if ltb 0xFFFFFFFF e.base
    then none
    else trim (u32 e.base) (usable_of e)

-- The comparison with the best region so far.
unfoldable pub better : Region → Option Span → Region
better r none = r
better r (some s) =
    if ltb r.capacity s.bytes then record r { base = s.start; capacity = page_floor s.bytes } else r

pub scan : Region → List Entry → Region
scan r [] = r
scan r (e ∷ es) = scan (better r (candidate e)) es

-- `none` is a null pointer from `boot_info_get` or `boot_info_e820_entries`; the length of the list
-- is `mmap_count`.
pub init : Option (List Entry) → Bool × Region
init none = (false, no_region)
init (some entries) = let r = scan no_region entries in (ltb 0 r.capacity, r)

-- The address of the block, or `none` for NULL.
pub pages : Region → ℕ → Option ℕ × Region
pages r size =
    if r.capacity == 0 || size == 0
    then (none, r)
    else (let aligned = align_up size in
        if aligned == 0 || ltb (sub32 r.capacity r.offset) aligned
        then (none, r)
        else (some (u32 (r.base + r.offset)), record r { offset = u32 (r.offset + aligned) }))
