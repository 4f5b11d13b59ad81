-- ===== src/BootMemory.antt =====
-- The memory map and the boot allocator of stage 2, src/bootloader/stage2/memory.c. A far pointer is
-- its 32 bits, the segment above the offset, and NULL is 0; the guards against a NULL allocator or
-- map are the types. The byte routines at the file's start are those of CString.
pub mod Requests
pub mod Maps
mod Tests
use alma_os.Base.{
  ℕ, List, [], ◌∷◌, Bool, true, false, not, ◌&&◌, ◌||◌, Option, none, some, ◌+◌, ◌-◌, ◌*◌, ◌/◌, ◌%◌,
  ◌^◌, ◌==◌, ltb, leb, if◌then◌else◌, u16, u32, u64, sub32, length, bit_or, replicate,
}

-- `memory_e820_entry_t`
pub record Entry : Type 0 where
  pub base : ℕ
  pub size : ℕ
  pub entry_type : ℕ
  pub extended : ℕ

abbrev zero_entry : Entry
zero_entry = record { base = 0; size = 0; entry_type = 0; extended = 0 }

-- `memory_map_t`: the buffer that `Entries` points to, `none` for NULL, `EntryCount` and `Capacity`.
pub record MemoryMap : Type 0 where
  pub entries : Option (List Entry)
  pub count : ℕ
  pub capacity : ℕ

-- `memory_allocator_t`
pub record Allocator : Type 0 where
  pub base : ℕ
  pub capacity : ℕ
  pub offset : ℕ

-- `MEMORY_PhysicalToFar`
pub physical_to_far : ℕ → ℕ
physical_to_far address = u16 (address / 2 ^ 4) * 2 ^ 16 + u16 (address % 2 ^ 4)

-- Where a far pointer points to in real mode.
abbrev pub linear : ℕ → ℕ
linear far = far / 2 ^ 16 * 16 + far % 2 ^ 16

-- `MEMORY_Map_Init`: the buffer is cleared.
pub map_init : Option (List Entry) → ℕ → MemoryMap
map_init none capacity = record { entries = none; count = 0; capacity = capacity }
map_init (some buffer) capacity = record {
  entries = some (replicate capacity zero_entry);
  count = 0;
  capacity = capacity;
}

-- `MEMORY_Map_Collect`, with what the BIOS reports: `none` for a failure.
pub map_collect : MemoryMap → Option (List Entry) → Bool × MemoryMap
map_collect map report = elim map.entries [
  | none ↦ (false, map)
  | some buffer ↦ if map.capacity == 0 then (false, map) else elim report [
    | none ↦ (false, record map { entries = some (replicate map.capacity zero_entry) })
    | some found ↦ (true, record map { entries = some found; count = u16 (length found) })
  ]
]

-- `MEMORY_Allocator_Init`
pub allocator_init : ℕ → ℕ → Allocator
allocator_init base capacity = record { base = base; capacity = capacity; offset = 0 }

-- The loop body of `MEMORY_Allocator_InitFromMap`: the region lies in the entry. `false` is
-- `continue`.
pub covers : Entry → ℕ → ℕ → Bool
covers entry base region_end =
    if not (entry.entry_type == 1)
    then false
    else if ltb base entry.base
    then false
    else if ltb (u64 (entry.base + entry.size)) region_end
    then false
    else true

pub any_covers : List Entry → ℕ → ℕ → Bool
any_covers [] base region_end = false
any_covers (entry ∷ entries) base region_end =
    let rest = any_covers entries base region_end in
    if covers entry base region_end then true else rest

-- `MEMORY_Allocator_InitFromMap`; the buffer holds `count` entries. The allocator stays as it is
-- when no entry covers the region.
pub init_from_map : Allocator → Option (List Entry) → ℕ → ℕ → Bool × Allocator
init_from_map a none base desired = (false, a)
init_from_map a (some entries) base desired =
    if any_covers entries base (u32 (base + desired))
    then (true, allocator_init base desired)
    else (false, a)

-- The offset rounded up to the alignment.
pub aligned_offset : Allocator → ℕ → ℕ
aligned_offset a alignment =
    let remainder = a.offset % alignment in
    if remainder == 0 then a.offset else u32 (a.offset + (alignment - remainder))

-- From `alignedOffset` on.
pub take_block : Allocator → ℕ → ℕ → ℕ × Allocator
take_block a size aligned =
    if ltb a.capacity aligned
    then (0, a)
    else if ltb (sub32 a.capacity aligned) size
    then (0, a)
    else (physical_to_far (u32 (a.base + aligned)), record a { offset = u32 (aligned + size) })

-- `MEMORY_Allocator_Alloc`
pub alloc : Allocator → ℕ → ℕ → ℕ × Allocator
alloc a size alignment =
    if size == 0
    then (0, a)
    else take_block a size (aligned_offset a (if ltb alignment 1 then 1 else alignment))

-- `memory_boot_info_t`
pub record BootInfo : Type 0 where
  pub boot_drive : ℕ
  pub video_mode : ℕ
  pub flags : ℕ
  pub memory_map : MemoryMap
  pub kernel_allocator : Allocator
  pub io_buffer : ℕ
  pub io_buffer_size : ℕ
  pub framebuffer : ℕ
  pub framebuffer_width : ℕ
  pub framebuffer_height : ℕ
  pub framebuffer_pitch : ℕ
  pub framebuffer_bpp : ℕ
  pub framebuffer_flags : ℕ

pub is_some : Option (List Entry) → Bool
is_some none = false
is_some (some entries) = true

pub map_usable : Option MemoryMap → Bool
map_usable none = false
map_usable (some map) = is_some map.entries && not (map.count == 0)

-- The three `|=`.
pub flags_of : Option MemoryMap → ℕ → ℕ → ℕ → ℕ
flags_of map io_buffer io_buffer_size framebuffer =
    bit_or
      (bit_or (if map_usable map then 0x01 else 0)
        (if not (io_buffer == 0) && not (io_buffer_size == 0) then 0x02 else 0))
      (if not (framebuffer == 0) then 0x04 else 0)

pub map_or_empty : Option MemoryMap → MemoryMap
map_or_empty none = record { entries = none; count = 0; capacity = 0 }
map_or_empty (some map) = map

pub allocator_or_empty : Option Allocator → Allocator
allocator_or_empty none = record { base = 0; capacity = 0; offset = 0 }
allocator_or_empty (some a) = a

-- `MEMORY_BootInfo_Init`, with the framebuffer's description as a tuple of width, height, pitch, bits
-- per pixel and flags.
pub boot_info_init :
    ℕ → ℕ → Option MemoryMap → Option Allocator → ℕ → ℕ → ℕ → ℕ × ℕ × ℕ × ℕ × ℕ → BootInfo
boot_info_init boot_drive video_mode map a io_buffer io_buffer_size framebuffer shape = record {
  boot_drive = boot_drive;
  video_mode = video_mode;
  flags = flags_of map io_buffer io_buffer_size framebuffer;
  memory_map = map_or_empty map;
  kernel_allocator = allocator_or_empty a;
  io_buffer = io_buffer;
  io_buffer_size = io_buffer_size;
  framebuffer = framebuffer;
  framebuffer_width = shape.0;
  framebuffer_height = shape.1;
  framebuffer_pitch = shape.2;
  framebuffer_bpp = shape.3;
  framebuffer_flags = shape.4;
}
