-- ===== src/VideoCommands/Readback.antt =====
-- The pixels that src/kernel/cmd_video.c reads back from the framebuffer after
-- `gfx_bridge_present` of src/kernel/gfx_bridge.c.
use alma_os.Base.{
  ℕ, zero, suc, List, [], ◌∷◌, ◌++◌, true, ◌||◌, ◌+◌, ◌*◌, ◌/◌, ◌%◌, ◌^◌, ◌<◌, ◌≤◌, ◌==◌,
  if◌then◌else◌, u8, u16, length, get_or, ◌≡◌, inl, inr, refl, ap, ◌∙◌, arith, Bool-cases,
}
use native.Mathlib.Nat.{add-mul, mul-le-mul_right}
use alma_os.CString.{Memory}
use alma_os.Video.{ModeInfo}
use alma_os.Gfx.{
  Bridge, rgba_to_332, rgba_to_direct, bytes_of, known_bpp, pixel_bytes, pixel_size, present,
}
use alma_os.Gfx.Rows.{row_at, row_bytes, IsSized, pixel_bytes-IsSized, present-rows}
use alma_os.VideoCommands.{number_at, read_hardware_pixel}

get_or-left : (xs ys : List ℕ) (j : ℕ) → j < length xs → get_or (xs ++ ys) j 0 ≡ get_or xs j 0
get_or-left [] ys j h = absurd (omega (arith, h))
get_or-left (x ∷ xs) ys zero h = refl
get_or-left (x ∷ xs) ys (suc j) h = get_or-left xs ys j (omega (arith, h))

get_or-right : (xs ys : List ℕ) (j : ℕ) → get_or (xs ++ ys) (length xs + j) 0 ≡ get_or ys j 0
get_or-right [] ys j = ap (λ (k : ℕ). get_or ys k 0) {x = 0 + j} {y = j} (omega arith)
get_or-right (x ∷ xs) ys j =
    ap (λ (k : ℕ). get_or (x ∷ (xs ++ ys)) k 0) {x = suc (length xs) + j} {y = suc (length xs + j)}
      (omega arith)
    ∙ get_or-right xs ys j

-- The bytes of the `i`th pixel of a row.
get_or-row_bytes :
    (convert : ℕ → List ℕ) (size : ℕ) (source : ℕ → ℕ) (x n i j : ℕ)
    → IsSized convert size
    → i < n
    → j < size
    → get_or (row_bytes convert source x n) (i * size + j) 0 ≡ get_or (convert (source (x + i))) j 0
unfolding row_bytes
get_or-row_bytes convert size source x zero i j sized below small = absurd (omega (arith, below))
get_or-row_bytes convert size source x (suc n) zero j sized below small =
    let here = convert (source x) in
    ap (λ (k : ℕ). get_or (here ++ row_bytes convert source (x + 1) n) k 0) {x = 0 * size + j}
      {y = j} (omega arith)
    ∙ (get_or-left here _ j (omega (arith, sized (source x), small))
        ∙ ap (λ (k : ℕ). get_or (convert (source k)) j 0) {x = x} {y = x + 0} (omega arith))
get_or-row_bytes convert size source x (suc n) (suc i) j sized below small =
    let here = convert (source x) in
    let later = row_bytes convert source (x + 1) n in
    let split : suc i * size + j ≡ length here + (i * size + j) =
      omega (arith, sized (source x), add-mul i 1 size, one_more) in
    ap (λ (k : ℕ). get_or (here ++ later) k 0) split
    ∙ (get_or-right here later (i * size + j)
        ∙ (get_or-row_bytes convert size source (x + 1) n i j sized (omega (arith, below)) small
            ∙ ap (λ (k : ℕ). get_or (convert (source k)) j 0) {x = x + 1 + i} {y = x + suc i}
                (omega arith)))
  where
    one_more : suc i * size ≡ (i + 1) * size
    one_more = ap (λ (k : ℕ). k * size) {x = suc i} {y = i + 1} (omega arith)

-- The lowest `k` bytes of a number.
unfoldable pub low_bytes : ℕ → ℕ → ℕ
low_bytes zero n = 0
low_bytes (suc k) n = u8 n + low_bytes k (n / 2 ^ 8) * 2 ^ 8

-- `k` bytes in memory, as they are in a list.
abbrev Holds : Memory → ℕ → ℕ → List ℕ → Type 0
Holds mem p k bytes = (j : ℕ) → j < k → mem (p + j) ≡ get_or bytes j 0

number_at-low_bytes :
    (k : ℕ) (mem : Memory) (p n : ℕ)
    → Holds mem p k (bytes_of k n)
    → number_at mem p k ≡ low_bytes k n
unfolding number_at low_bytes bytes_of
number_at-low_bytes zero mem p n h = refl
number_at-low_bytes (suc k) mem p n h =
    let first : mem p ≡ u8 n = ap mem {x = p} {y = p + 0} (omega arith) ∙ h 0 (omega arith) in
    let rest = number_at-low_bytes k mem (p + 1) (n / 2 ^ 8) (λ j below.
      ap mem {x = p + 1 + j} {y = p + suc j} (omega arith) ∙ h (suc j) (omega (arith, below))) in
    omega (arith, first, rest)

-- A pixel's bytes in the framebuffer.
Holds-present :
    (b : Bridge) (source : ℕ → ℕ) (mem : Memory) (y x : ℕ)
    → b.ready ≡ true
    → known_bpp b.mode.bpp ≡ true
    → b.mode.width * pixel_size b.mode ≤ b.mode.pitch
    → y < b.mode.height
    → x < b.mode.width
    → Holds
        (present b source mem)
        (row_at b.mode y + x * pixel_size b.mode)
        (pixel_size b.mode)
        (pixel_bytes b.mode (source (y * b.mode.width + x)))
Holds-present b source mem y x ready known fits y_in x_in j below =
    let mode = b.mode in
    let size = pixel_size mode in
    let row : ℕ → ℕ = λ k. source (y * mode.width + k) in
    let one_more : suc x * size ≡ x * size + size = add_one x size in
    let within : suc x * size ≤ mode.width * size = mul-le-mul_right size x_in in
    ap (present b source mem) {x = row_at mode y + x * size + j}
      {y = row_at mode y + (x * size + j)} (omega arith)
    ∙ ((present-rows b source mem ready known fits).0 y (x * size + j) y_in
          (omega (arith, one_more, within, below))
        ∙ (get_or-row_bytes (pixel_bytes mode) size row 0 mode.width x j (pixel_bytes-IsSized mode)
              x_in below
            ∙ ap (λ (k : ℕ). get_or (pixel_bytes mode (row k)) j 0) {x = 0 + x} {y = x}
                (omega arith)))
  where
    add_one : (m k : ℕ) → suc m * k ≡ m * k + k
    add_one m k =
        ap (λ (t : ℕ). t * k) {x = suc m} {y = m + 1} (omega arith) ∙ (add-mul m 1 k ∙ omega arith)

-- The value of a pixel in the framebuffer.
unfoldable pub hardware_value : ModeInfo → ℕ → ℕ
hardware_value mode rgba =
    if mode.bpp == 8
    then rgba_to_332 rgba
    else if mode.bpp == 15 || mode.bpp == 16
    then rgba_to_direct mode rgba % 2 ^ 16
    else if mode.bpp == 24
    then rgba_to_direct mode rgba % 2 ^ 24
    else rgba_to_direct mode rgba % 2 ^ 32

low_bytes-values :
    (n : ℕ)
    → (low_bytes 2 (u16 n) ≡ n % 2 ^ 16)
      × (low_bytes 3 n ≡ n % 2 ^ 24)
      × (low_bytes 4 n ≡ n % 2 ^ 32)
unfolding low_bytes
low_bytes-values n = (omega arith, omega arith, omega arith)

-- Reading a pixel whose bytes are in memory.
read_hardware_pixel-Holds :
    (mode : ModeInfo) (mem : Memory) (row x rgba : ℕ)
    → known_bpp mode.bpp ≡ true
    → Holds mem (row + x * pixel_size mode) (pixel_size mode) (pixel_bytes mode rgba)
    → read_hardware_pixel mem row x mode.bpp ≡ hardware_value mode rgba
unfolding read_hardware_pixel pixel_size pixel_bytes hardware_value known_bpp
read_hardware_pixel-Holds mode mem row x rgba known holds = elim (Bool-cases (mode.bpp == 8)) [
  | inl e ↦
      let held = rw e at holds in
      let at : mem (row + x) ≡ mem (row + x * 1 + 0) = ap mem (omega arith) in
      rw e (unfold number_at in omega (arith, at, held 0 (omega arith)))
  | inr e ↦ rw e (elim (Bool-cases (mode.bpp == 15 || mode.bpp == 16)) [
    | inl e2 ↦
        let held = rw (e, e2) at holds in
        let d = rgba_to_direct mode rgba in
        rw e2 (number_at-low_bytes 2 mem (row + x * 2) (u16 d) held ∙ (low_bytes-values d).0)
    | inr e2 ↦ rw e2 (elim (Bool-cases (mode.bpp == 24)) [
      | inl e3 ↦
          let held = rw (e, e2, e3) at holds in
          let d = rgba_to_direct mode rgba in
          rw e3 (number_at-low_bytes 3 mem (row + x * 3) d held ∙ (low_bytes-values d).1)
      | inr e3 ↦
          let held = rw (e, e2, e3) at holds in
          let d = rgba_to_direct mode rgba in
          let last : (mode.bpp == 32) ≡ true = ground arith in
          rw (e3, last) (number_at-low_bytes 4 mem (row + x * 4) d held ∙ (low_bytes-values d).2)
    ])
  ])
]

-- The demo reads back what the bridge has shown: after `gfx_bridge_present` with a depth that it knows
-- into rows that fit in the pitch, each pixel of the framebuffer has the value that its colour is
-- converted to, an index of the palette or the direct colour cut to the bits of the pixel.
pub read_hardware_pixel-present :
    (b : Bridge) (source : ℕ → ℕ) (mem : Memory) (y x : ℕ)
    → b.ready ≡ true
    → known_bpp b.mode.bpp ≡ true
    → b.mode.width * pixel_size b.mode ≤ b.mode.pitch
    → y < b.mode.height
    → x < b.mode.width
    → read_hardware_pixel (present b source mem) (row_at b.mode y) x b.mode.bpp
      ≡ hardware_value b.mode (source (y * b.mode.width + x))
read_hardware_pixel-present b source mem y x ready known fits y_in x_in =
    read_hardware_pixel-Holds b.mode (present b source mem) (row_at b.mode y) x
      (source (y * b.mode.width + x)) known
      (Holds-present b source mem y x ready known fits y_in x_in)
