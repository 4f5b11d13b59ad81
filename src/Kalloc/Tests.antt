-- ===== src/Kalloc/Tests.antt =====
-- Tests of the page allocator, and its theorems at concrete inputs.
use alma_os.Base.{List, [], ◌∷◌, ◌⊎◌, ◌+◌, ltb, true, some, none, ◌≡◌, refl, arith}
use alma_os.Kalloc.{
  Entry, Region, align_up, end_of, usable_of, trim, candidate, better, scan, init, pages,
}
use alma_os.Kalloc.Blocks.{
  IsValid, Fits, rounded, pages_outcome, serve, keep, AreApart, serve-AreApart,
}
use alma_os.Kalloc.Choice.{AmongEntries, most, capacity-init, init-IsCarved}

-- 640 KiB of low memory, a reserved hole, 127 MiB from 1 MiB on, and 2 MiB above 4 GiB.
abbrev qemu_map : List Entry
qemu_map =
    record { base = 0; size = 0x9FC00; entry_type = 1 }
    ∷ record { base = 0xF0000; size = 0x10000; entry_type = 2 }
    ∷ record { base = 0x100000; size = 0x7EE0000; entry_type = 1 }
    ∷ record { base = 0x1_0000_0000; size = 0x200000; entry_type = 1 }
    ∷ []

abbrev chosen : Region
chosen = record { base = 0x100000; capacity = 0x7EE0000; offset = 0 }

init-qemu_map : init (some qemu_map) ≡ (true, chosen)
unfolding init scan better candidate trim align_up usable_of end_of
init-qemu_map = refl

chosen-IsValid : IsValid chosen
chosen-IsValid = omega arith

served :
    serve chosen (5000 ∷ 0 ∷ 4096 ∷ 0x8000000 ∷ 1 ∷ [])
    ≡ record { at = 0x100000; bytes = 5000 }
      ∷ record { at = 0x102000; bytes = 4096 }
      ∷ record { at = 0x103000; bytes = 1 }
      ∷ []
unfolding serve keep pages align_up
served = refl

pages_outcome_example :
    (Fits chosen 5000
      × (pages chosen 5000 ≡ (some (0x100000 + 0), record chosen { offset = 0 + rounded 5000 })))
    ⊎ ((Fits chosen 5000 → ⊥) × (pages chosen 5000 ≡ (none, chosen)))
pages_outcome_example = pages_outcome 5000 chosen-IsValid (omega arith)

serve-AreApart_example :
    AreApart (0x100000 + 0) (0x100000 + 0x7EE0000) (serve chosen (5000 ∷ 4096 ∷ []))
serve-AreApart_example = serve-AreApart (5000 ∷ 4096 ∷ []) chosen-IsValid (omega arith)

capacity-init_example :
    ((init (some qemu_map)).1.capacity ≡ most qemu_map)
    × ((init (some qemu_map)).0 ≡ ltb 0 (most qemu_map))
capacity-init_example = capacity-init qemu_map (omega arith)

init-IsCarved_example :
    AmongEntries qemu_map (init (some qemu_map)).1
    × ((init (some qemu_map)).1.offset ≡ 0)
    × IsValid (init (some qemu_map)).1
unfolding init scan better candidate trim align_up usable_of end_of
init-IsCarved_example = init-IsCarved qemu_map (omega arith) refl
