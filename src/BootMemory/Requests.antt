-- ===== src/BootMemory/Requests.antt =====
-- Requests to the boot allocator of src/bootloader/stage2/memory.c.
use alma_os.Base.{
  ℕ, ◌+◌, ◌-◌, ◌%◌, ◌<◌, ◌≤◌, ◌^◌, ◌==◌, ltb, if◌then◌else◌, ◌≡◌, ◌≢◌, ◌⊎◌, inl, inr, refl, ap, ◌∙◌,
  arith, ==_iff, ==_ne,
}
use native.Mathlib.Decide.{ℕ_discrete, dec_lt}
use alma_os.BootMemory.{Allocator, alloc, aligned_offset, take_block, physical_to_far, linear}

-- The region lies within the first MiB, which a real mode pointer reaches, and its used part inside.
pub record IsValid (a : Allocator) : Type 0 where
  pub used_in : a.offset ≤ a.capacity
  pub in_reach : a.base + a.capacity ≤ 2 ^ 20
  pub somewhere : 0 < a.base

-- The least multiple of `alignment` from `n` on.
unfoldable pub next_multiple : ℕ → ℕ → ℕ
next_multiple n alignment = if n % alignment == 0 then n else n + (alignment - n % alignment)

linear-physical_to_far :
    (address : ℕ) → address < 2 ^ 20 → linear (physical_to_far address) ≡ address
unfolding physical_to_far
linear-physical_to_far address h = omega arith

aligned_offset-next_multiple :
    (a : Allocator) (alignment : ℕ)
    → IsValid a
    → 0 < alignment
    → alignment < 2 ^ 16
    → aligned_offset a alignment ≡ next_multiple a.offset alignment
unfolding aligned_offset next_multiple
aligned_offset-next_multiple a alignment v pos small = elim (ℕ_discrete (a.offset % alignment) 0) [
  | yes e ↦ rw ((==_iff (a.offset % alignment) 0).1 e) refl
  | no ne ↦ rw (==_ne (a.offset % alignment) 0 ne) (omega (arith, v.used_in, v.in_reach, small))
]

-- There is room for a request at the next multiple of its alignment.
pub record Fits (a : Allocator) (size alignment : ℕ) : Type 0 where
  pub positive : 0 < size
  pub room : next_multiple a.offset alignment + size ≤ a.capacity

alloc-aligned :
    (a : Allocator) (size alignment : ℕ)
    → size ≢ 0
    → 0 < alignment
    → alloc a size alignment ≡ take_block a size (aligned_offset a alignment)
unfolding alloc
alloc-aligned a size alignment ne pos = rw (==_ne size 0 ne, at_least alignment pos) refl
  where
    at_least : (k : ℕ) → 0 < k → (if ltb k 1 then 1 else k) ≡ k
    at_least k h = ground arith

alloc-nothing : (a : Allocator) (alignment : ℕ) → alloc a 0 alignment ≡ (0, a)
unfolding alloc
alloc-nothing a alignment = refl

take_block-fits :
    (a : Allocator) (size n : ℕ)
    → IsValid a
    → n + size ≤ a.capacity
    → take_block a size n ≡ (physical_to_far (a.base + n), record a { offset = n + size })
unfolding take_block
take_block-fits a size n v room = ground (arith, v.in_reach)

take_block-refused :
    (a : Allocator) (size n : ℕ) → IsValid a → a.capacity < n + size → take_block a size n ≡ (0, a)
unfolding take_block
take_block-refused a size n v full = ground (arith, v.in_reach)

alloc-next :
    (a : Allocator) (size alignment : ℕ)
    → IsValid a
    → size ≢ 0
    → 0 < alignment
    → alignment < 2 ^ 16
    → alloc a size alignment ≡ take_block a size (next_multiple a.offset alignment)
alloc-next a size alignment v ne pos word =
    alloc-aligned a size alignment ne pos
    ∙ ap (take_block a size) (aligned_offset-next_multiple a alignment v pos word)

-- A request to a valid allocator that fits gets the block at the next offset that is a multiple of
-- the alignment, by a far pointer that points there, and the offset moves behind it; every other
-- request gets NULL and changes nothing.
pub alloc_outcome :
    (a : Allocator) (size alignment : ℕ)
    → IsValid a
    → size < 2 ^ 32
    → 0 < alignment
    → alignment < 2 ^ 16
    → let n = next_multiple a.offset alignment in
      (Fits a size alignment
        × (linear (alloc a size alignment).0 ≡ a.base + n)
        × ((alloc a size alignment).1 ≡ record a { offset = n + size }))
      ⊎ ((Fits a size alignment → ⊥) × (alloc a size alignment ≡ (0, a)))
alloc_outcome a size alignment v small pos word = elim (ℕ_discrete size 0) [
  | yes e ↦ inr (
    λ f. absurd (omega (arith, f.positive, e)),
    ap (λ k. alloc a k alignment) e ∙ alloc-nothing a alignment,
  )
  | no ne ↦
      let n = next_multiple a.offset alignment in
      let next = alloc-next a size alignment v ne pos word in
      elim (dec_lt a.capacity (n + size)) [
        | yes full ↦
            inr
              (λ f. absurd (omega (arith, f.room, full)), next ∙ take_block-refused a size n v full)
        | no fits ↦
            let granted = next ∙ take_block-fits a size n v (omega (arith, fits)) in
            inl (
              record { positive = omega (arith, ne); room = omega (arith, fits) },
              ap (λ r. linear r.0) granted
                  ∙ linear-physical_to_far (a.base + n) (omega (arith, fits, ne, v.in_reach)),
              ap (λ r. r.1) granted,
            )
      ]
]
