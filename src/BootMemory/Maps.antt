-- ===== src/BootMemory/Maps.antt =====
-- The map and the boot information of src/bootloader/stage2/memory.c.
use alma_os.Base.{
  ℕ, List, [], ◌∷◌, Bool, true, false, not, bit_or, ◌&&◌, Option, some, ◌+◌, ◌<◌, ◌≤◌, ◌^◌, ◌==◌,
  All, if◌then◌else◌, ◌≡◌, ◌⊎◌, inl, inr, ◌↔◌, refl, arith, has_bit, Bool-cases, u32,
}
use alma_os.BootMemory.{
  Entry, Allocator, MemoryMap, allocator_init, covers, any_covers, init_from_map, map_usable,
  flags_of, boot_info_init,
}

-- A usable entry that holds the whole region.
pub record Holds (e : Entry) (base desired : ℕ) : Type 0 where
  pub usable : e.entry_type ≡ 1
  pub from : e.base ≤ base
  pub to : base + desired ≤ e.base + e.size

-- Some member has the property.
abbrev pub AnyOf : (Entry → Type 0) → List Entry → Type 0
AnyOf P [] = ⊥
AnyOf P (e ∷ es) = P e ⊎ AnyOf P es

abbrev pub IsRange : Entry → Type 0
IsRange e = e.base + e.size < 2 ^ 64

covers-Holds :
    (e : Entry) (base desired : ℕ)
    → IsRange e
    → (covers e base (base + desired) ≡ true) ↔ Holds e base desired
unfolding covers
covers-Holds e base desired r = ground arith

any_covers-Holds :
    (es : List Entry) (base desired : ℕ)
    → All IsRange es
    → (any_covers es base (base + desired) ≡ true) ↔ AnyOf (λ e. Holds e base desired) es
unfolding any_covers
any_covers-Holds [] base desired r = (λ t. cc, λ a. absurd a)
any_covers-Holds (e ∷ es) base desired r = elim (Bool-cases (covers e base (base + desired))) [
  | inl t ↦ rw t (λ u. inl ((covers-Holds e base desired r.0).0 t), λ a. refl)
  | inr f ↦ rw f (
    λ t. inr ((any_covers-Holds es base desired r.1).0 t),
    λ a. elim a [
      | inl h ↦ clash f ((covers-Holds e base desired r.0).1 h)
      | inr more ↦ (any_covers-Holds es base desired r.1).1 more
    ],
  )
]
  where
    clash : {b c : Bool} → b ≡ false → b ≡ true → c ≡ true
    clash f t = cc

taken :
    (a : Allocator) (es : List Entry) (base desired : ℕ)
    → base + desired < 2 ^ 32
    → any_covers es base (base + desired) ≡ true
    → init_from_map a (some es) base desired ≡ (true, allocator_init base desired)
unfolding init_from_map
taken a es base desired h t =
    let same : u32 (base + desired) ≡ base + desired = omega arith in rw (same, t) refl

left_alone :
    (a : Allocator) (es : List Entry) (base desired : ℕ)
    → base + desired < 2 ^ 32
    → any_covers es base (base + desired) ≡ false
    → init_from_map a (some es) base desired ≡ (false, a)
unfolding init_from_map
left_alone a es base desired h f =
    let same : u32 (base + desired) ≡ base + desired = omega arith in rw (same, f) refl

-- The allocator takes its fixed region exactly when one usable entry of the map holds all of it,
-- and then nothing of it is used; otherwise it stays as it was. The region ends below 4 GiB and the
-- ranges do not wrap.
pub init_from_map-Holds :
    (a : Allocator) (es : List Entry) (base desired : ℕ)
    → All IsRange es
    → base + desired < 2 ^ 32
    → (AnyOf (λ e. Holds e base desired) es
        × (init_from_map a (some es) base desired ≡ (true, allocator_init base desired)))
      ⊎ ((AnyOf (λ e. Holds e base desired) es → ⊥)
          × (init_from_map a (some es) base desired ≡ (false, a)))
init_from_map-Holds a es base desired r h =
    elim (Bool-cases (any_covers es base (base + desired))) [
      | inl t ↦ inl ((any_covers-Holds es base desired r).0 t, taken a es base desired h t)
      | inr f ↦ inr (
        λ some_holds. true_false f ((any_covers-Holds es base desired r).1 some_holds),
        left_alone a es base desired h f,
      )
    ]
  where
    true_false : {b : Bool} → b ≡ false → b ≡ true → ⊥
    true_false f t = cc

-- Each flag of the boot information says whether the part is there: a map with entries, an I/O
-- buffer of some size, a framebuffer.
pub boot_info_init-flags :
    (drive mode : ℕ) (map : Option MemoryMap) (a : Option Allocator) (io size fb : ℕ)
    (shape : ℕ × ℕ × ℕ × ℕ × ℕ)
    → let flags = (boot_info_init drive mode map a io size fb shape).flags in
      (has_bit flags 0 ≡ map_usable map)
      × (has_bit flags 1 ≡ (not (io == 0) && not (size == 0)))
      × (has_bit flags 2 ≡ not (fb == 0))
unfolding boot_info_init flags_of
boot_info_init-flags drive mode map a io size fb shape =
    bits (map_usable map) (not (io == 0) && not (size == 0)) (not (fb == 0))
  where
    bits :
        (b c d : Bool)
        → let flags =
            bit_or (bit_or (if b then 1 else 0) (if c then 2 else 0)) (if d then 4 else 0) in
          (has_bit flags 0 ≡ b) × (has_bit flags 1 ≡ c) × (has_bit flags 2 ≡ d)
    bits true true true = (refl, refl, refl)
    bits true true false = (refl, refl, refl)
    bits true false true = (refl, refl, refl)
    bits true false false = (refl, refl, refl)
    bits false true true = (refl, refl, refl)
    bits false true false = (refl, refl, refl)
    bits false false true = (refl, refl, refl)
    bits false false false = (refl, refl, refl)
