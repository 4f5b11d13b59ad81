-- ===== src/BootMemory/Tests.antt =====
-- Tests of the boot allocator and the memory map, and their theorems at concrete inputs.
use alma_os.Base.{List, [], ◌∷◌, ◌+◌, ◌⊎◌, ◌≡◌, refl, arith}
use alma_os.BootMemory.{
  Entry, Allocator, physical_to_far, linear, aligned_offset, take_block, alloc,
}
use alma_os.BootMemory.Requests.{Fits, next_multiple, alloc_outcome}

-- The kernel's heap, with three bytes used.
abbrev heap : Allocator
heap = record { base = 0x78000; capacity = 0x20000; offset = 3 }

aligned_block :
    alloc heap 100 16 ≡ (0x7801_0000, record { base = 0x78000; capacity = 0x20000; offset = 116 })
unfolding alloc aligned_offset take_block physical_to_far
aligned_block = refl

alloc_outcome_example :
    (Fits heap 100 16
      × (linear (alloc heap 100 16).0 ≡ heap.base + next_multiple heap.offset 16)
      × ((alloc heap 100 16).1 ≡ record heap { offset = next_multiple heap.offset 16 + 100 }))
    ⊎ ((Fits heap 100 16 → ⊥) × (alloc heap 100 16 ≡ (0, heap)))
alloc_outcome_example =
    alloc_outcome heap 100 16
      (record { used_in = omega arith; in_reach = omega arith; somewhere = omega arith })
      (omega arith) (omega arith) (omega arith)

abbrev low_memory : List Entry
low_memory =
    record { base = 0; size = 0x9FC00; entry_type = 1; extended = 1 }
    ∷ record { base = 0xF0000; size = 0x10000; entry_type = 2; extended = 1 }
    ∷ []
