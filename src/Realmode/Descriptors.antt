-- ===== src/Realmode/Descriptors.antt =====
-- The base in a segment descriptor, src/kernel/realmode.c.
use alma_os.Base.{ℕ, ◌+◌, ◌*◌, ◌/◌, ◌^◌, ==_ne, u8, u32, ◌≡◌, ◌≢◌, refl, arith}
use alma_os.CString.{Memory}
use alma_os.VideoCommands.{number_at}
use alma_os.Realmode.{gdt_set_base}

-- The base of the segment.
unfoldable pub gdt_base : Memory → ℕ → ℕ
gdt_base mem d = number_at mem (d + 2) 2 + mem (d + 4) * 2 ^ 16 + mem (d + 7) * 2 ^ 24

-- A byte that was stored, under those that were stored after it elsewhere.
bytes_of-gdt_set_base :
    (mem : Memory) (d base : ℕ)
    → (gdt_set_base mem d base (d + 2) ≡ u8 base)
      × (gdt_set_base mem d base (d + 2 + 1) ≡ u8 (base / 2 ^ 8))
      × (gdt_set_base mem d base (d + 4) ≡ u8 (base / 2 ^ 16))
      × (gdt_set_base mem d base (d + 7) ≡ u8 (base / 2 ^ 24))
unfolding gdt_set_base
bytes_of-gdt_set_base mem d base = (ground arith, ground arith, ground arith, ground arith)

-- `gdt_set_base` gives a segment its base, modulo 2 ^ 32, and changes only the bytes of the
-- base.
pub gdt_base-gdt_set_base :
    (mem : Memory) (d base : ℕ)
    → (gdt_base (gdt_set_base mem d base) d ≡ u32 base)
      × ((q : ℕ)
          → q ≢ d + 2
          → q ≢ d + 3
          → q ≢ d + 4
          → q ≢ d + 7
          → gdt_set_base mem d base q ≡ mem q)
unfolding gdt_base number_at
gdt_base-gdt_set_base mem d base =
    let (first, second, third, fourth) = bytes_of-gdt_set_base mem d base in
    (omega (arith, first, second, third, fourth), others)
  where
    others :
        (q : ℕ) → q ≢ d + 2 → q ≢ d + 3 → q ≢ d + 4 → q ≢ d + 7 → gdt_set_base mem d base q ≡ mem q
    others q n2 n3 n4 n7 =
        unfold gdt_set_base in
        rw (==_ne q (d + 2) n2, ==_ne q (d + 3) n3, ==_ne q (d + 4) n4, ==_ne q (d + 7) n7) refl
