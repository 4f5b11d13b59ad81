-- ===== src/Kalloc/Blocks.antt =====
-- What `kalloc_pages` of src/kernel/kalloc.c gives out from a valid region.
use alma_os.Base.{
  ℕ, List, [], ◌∷◌, Option, none, some, ◌+◌, ◌-◌, ◌%◌, ◌^◌, ◌≤◌, ◌<◌, ◌≡◌, ◌⊎◌, inl, inr, refl,
  arith, All,
}
use native.Mathlib.Decide.{ℕ_discrete, dec_lt}
use alma_os.Kalloc.{Region, page_size, page_floor, align_up, pages}

-- The region is made of whole pages, ends within 4 GiB, and its used part lies inside it.
pub record IsValid (r : Region) : Type 0 where
  pub base_aligned : r.base % page_size ≡ 0
  pub capacity_aligned : r.capacity % page_size ≡ 0
  pub offset_aligned : r.offset % page_size ≡ 0
  pub used_in : r.offset ≤ r.capacity
  pub addressable : r.base + r.capacity ≤ 2 ^ 32
  pub small : r.capacity < 2 ^ 32

-- The pages that `size` bytes take, in bytes.
abbrev pub rounded : ℕ → ℕ
rounded size = page_floor (size + page_size - 1)

pub align_up-rounded : (size : ℕ) → size ≤ 2 ^ 32 - page_size → align_up size ≡ rounded size
unfolding align_up
align_up-rounded size h = ground arith

align_up-zero : (size : ℕ) → size < 2 ^ 32 → 2 ^ 32 - page_size < size → align_up size ≡ 0
unfolding align_up
align_up-zero size h k = ground arith

-- There is room for a request.
pub record Fits (r : Region) (size : ℕ) : Type 0 where
  pub positive : 0 < size
  pub room : r.offset + rounded size ≤ r.capacity

grants :
    {r : Region} (size : ℕ)
    → IsValid r
    → Fits r size
    → pages r size ≡ (some (r.base + r.offset), record r { offset = r.offset + rounded size })
unfolding pages
grants {r} size v f = ground (arith, align_up-rounded size)

refuses :
    {r : Region} (size : ℕ)
    → IsValid r
    → size < 2 ^ 32
    → (size ≡ 0) ⊎ (r.capacity < r.offset + rounded size)
    → pages r size ≡ (none, r)
unfolding pages align_up
refuses {r} size v small f = ground arith

-- `kalloc_pages` on a valid region: a request that fits gets the first free page and moves the
-- offset by its size rounded up to whole pages; every other request (of no bytes, or of more than
-- is left) gets NULL and changes nothing.
pub pages_outcome :
    {r : Region} (size : ℕ)
    → IsValid r
    → size < 2 ^ 32
    → (Fits r size
        × (pages r size
            ≡ (some (r.base + r.offset), record r { offset = r.offset + rounded size })))
      ⊎ ((Fits r size → ⊥) × (pages r size ≡ (none, r)))
pages_outcome {r} size v small = elim (ℕ_discrete size 0) [
  | yes zero_size ↦ inr (λ f. omega arith, refuses size v small (inl zero_size))
  | no positive ↦ elim (dec_lt r.capacity (r.offset + rounded size)) [
    | yes over ↦ inr (λ f. omega arith, refuses size v small (inr over))
    | no under ↦ let f : Fits r size = omega arith in inl (f, grants size v f)
  ]
]

-- `kalloc_pages` keeps the region valid, and never moves it.
pub pages-IsValid :
    {r : Region} (size : ℕ)
    → IsValid r
    → size < 2 ^ 32
    → IsValid (pages r size).1
      × ((pages r size).1.base ≡ r.base)
      × ((pages r size).1.capacity ≡ r.capacity)
      × (r.offset ≤ (pages r size).1.offset)
pages-IsValid {r} size v small = elim (pages_outcome size v small) [
  | inl (f, e) ↦ rw e (
    record {
      base_aligned = v.base_aligned;
      capacity_aligned = v.capacity_aligned;
      offset_aligned = omega arith;
      used_in = omega arith;
      addressable = v.addressable;
      small = v.small;
    },
    refl,
    refl,
    omega arith,
  )
  | inr (f, e) ↦ rw e (v, refl, refl, omega arith)
]

-- A block that a client holds: where it starts and how many bytes were asked for.
pub record Block : Type 0 where
  pub at : ℕ
  pub bytes : ℕ

unfoldable pub keep : ℕ → Option ℕ → List Block → List Block
keep size none blocks = blocks
keep size (some p) blocks = record { at = p; bytes = size } ∷ blocks

-- A client's requests in order, and the blocks that it gets.
unfoldable pub serve : Region → List ℕ → List Block
serve r [] = []
serve r (size ∷ sizes) = keep size (pages r size).0 (serve (pages r size).1 sizes)

-- Blocks on page boundaries from `lo` on, none reaching into the next, the last ending by `hi`.
abbrev pub AreApart : ℕ → ℕ → List Block → Type 0
AreApart lo hi [] = lo ≤ hi
AreApart lo hi (b ∷ bs) =
    (lo ≤ b.at) × (b.at % page_size ≡ 0) × (0 < b.bytes) × AreApart (b.at + b.bytes) hi bs

AreApart-lower :
    (lo lo' hi : ℕ) (bs : List Block) → lo ≤ lo' → AreApart lo' hi bs → AreApart lo hi bs
AreApart-lower lo lo' hi [] h a = omega arith
AreApart-lower lo lo' hi (b ∷ bs) h a = (omega arith, a.1, a.2, a.3)

-- Whatever a client asks for, the blocks that it gets start on page boundaries, lie in the free
-- part of the region, and never overlap: each ends before the next begins.
pub serve-AreApart :
    (sizes : List ℕ) {r : Region}
    → IsValid r
    → All (λ size. size < 2 ^ 32) sizes
    → AreApart (r.base + r.offset) (r.base + r.capacity) (serve r sizes)
unfolding serve keep
serve-AreApart [] {r} v small = omega arith
serve-AreApart (size ∷ sizes) {r} v small =
    let (v', base_eq, cap_eq, grows) = pages-IsValid size v small.0 in
    let rest = serve-AreApart sizes v' small.1 in
    elim (pages_outcome size v small.0) [
      | inl (f, e) ↦ rw e (
        omega arith,
        omega arith,
        f.positive,
        AreApart-lower (r.base + r.offset + size) (r.base + (r.offset + rounded size)) _ _
            (omega arith) (rw e at rest),
      )
      | inr (f, e) ↦ rw e (rw e at rest)
    ]
