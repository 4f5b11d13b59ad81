-- ===== src/Gfx/Rows.antt =====
-- What `gfx_bridge_present` of src/kernel/gfx_bridge.c leaves in the framebuffer.
use alma_os.Base.{
  ℕ, zero, suc, List, [], ◌∷◌, ◌++◌, true, ◌||◌, ◌+◌, ◌*◌, ◌/◌, ◌^◌, ◌<◌, ◌≤◌, ◌==◌, ==_ne, ==_iff,
  if◌then◌else◌, length, length-append, get_or, ◌≡◌, ◌⊎◌, inl, inr, refl, sym, ap, ap₂, ◌&&◌, ◌∙◌,
  arith, Bool-cases,
}
use mathlib.Core.Path.{subst}
use native.Mathlib.Decide.{ℕ_discrete}
use native.Mathlib.Nat.{add-mul, mul-le-mul_right}
use alma_os.CString.{Memory, store}
use alma_os.Video.{ModeInfo}
use alma_os.Gfx.{
  Bridge, bytes_of, pixel_bytes, pixel_size, known_bpp, store_all, put_row, put_rows, present,
}

store_all-below : (mem : Memory) (p q : ℕ) (bs : List ℕ) → q < p → store_all mem p bs q ≡ mem q
unfolding store_all
store_all-below mem p q [] h = refl
store_all-below mem p q (b ∷ bs) h =
    store_all-below (store mem p b) (p + 1) q bs (omega (arith, h))
    ∙ rw (==_ne q p (omega (arith, h))) refl

store_all-above :
    (mem : Memory) (p q : ℕ) (bs : List ℕ) → p + length bs ≤ q → store_all mem p bs q ≡ mem q
unfolding store_all
store_all-above mem p q [] h = refl
store_all-above mem p q (b ∷ bs) h =
    store_all-above (store mem p b) (p + 1) q bs (omega (arith, h))
    ∙ rw (==_ne q p (omega (arith, h))) refl

store_all-inside :
    (mem : Memory) (p j : ℕ) (bs : List ℕ)
    → j < length bs
    → store_all mem p bs (p + j) ≡ get_or bs j 0
unfolding store_all
store_all-inside mem p j [] h = absurd (omega (arith, h))
store_all-inside mem p zero (b ∷ bs) h =
    store_all-below (store mem p b) (p + 1) (p + 0) bs (omega arith)
    ∙ rw ((==_iff (p + 0) p).1 (omega arith)) refl
store_all-inside mem p (suc j) (b ∷ bs) h =
    ap (store_all (store mem p b) (p + 1) bs) {x = p + suc j} {y = p + 1 + j} (omega arith)
    ∙ store_all-inside (store mem p b) (p + 1) j bs (omega (arith, h))

store_all-append :
    (mem : Memory) (p : ℕ) (xs bs : List ℕ)
    → store_all (store_all mem p xs) (p + length xs) bs ≡ store_all mem p (xs ++ bs)
unfolding store_all
store_all-append mem p [] bs = ap (λ (q : ℕ). store_all mem q bs) {x = p + 0} {y = p} (omega arith)
store_all-append mem p (x ∷ xs) bs =
    ap (λ (q : ℕ). store_all (store_all (store mem p x) (p + 1) xs) q bs) {x = p + suc (length xs)}
      {y = p + 1 + length xs} (omega arith)
    ∙ store_all-append (store mem p x) (p + 1) xs bs

-- The bytes of `n` pixels from the `x`th one on.
unfoldable pub row_bytes : (ℕ → List ℕ) → (ℕ → ℕ) → ℕ → ℕ → List ℕ
row_bytes convert source x zero = []
row_bytes convert source x (suc n) = convert (source x) ++ row_bytes convert source (x + 1) n

-- Every pixel takes `size` bytes.
abbrev pub IsSized : (ℕ → List ℕ) → ℕ → Type 0
IsSized convert size = (rgba : ℕ) → length (convert rgba) ≡ size

pub length-row_bytes :
    (convert : ℕ → List ℕ) (size : ℕ) (source : ℕ → ℕ) (x n : ℕ)
    → IsSized convert size
    → length (row_bytes convert source x n) ≡ n * size
unfolding row_bytes
length-row_bytes convert size source x zero sized = omega arith
length-row_bytes convert size source x (suc n) sized =
    length-append (convert (source x)) (row_bytes convert source (x + 1) n)
    ∙ omega (
      arith,
      sized (source x),
      length-row_bytes convert size source (x + 1) n sized,
      add-mul n 1 size,
    )

-- The loop over a row writes the bytes of its pixels one after the other.
put_row-bytes :
    (convert : ℕ → List ℕ) (size : ℕ) (source : ℕ → ℕ) (row x n : ℕ) (mem : Memory)
    → IsSized convert size
    → put_row convert size source row x n mem
      ≡ store_all mem (row + x * size) (row_bytes convert source x n)
unfolding put_row row_bytes
put_row-bytes convert size source row x zero mem sized = unfold store_all in refl
put_row-bytes convert size source row x (suc n) mem sized =
    let here = convert (source x) in
    let later = row_bytes convert source (x + 1) n in
    let mem' = store_all mem (row + x * size) here in
    let next : row + (x + 1) * size ≡ row + x * size + length here =
      omega (arith, sized (source x), add-mul x 1 size) in
    put_row-bytes convert size source row (x + 1) n mem' sized
    ∙ (ap (λ (q : ℕ). store_all mem' q later) next
        ∙ store_all-append mem (row + x * size) here later)

-- Where row `y` of the framebuffer starts.
abbrev pub row_at : ModeInfo → ℕ → ℕ
row_at mode y = mode.framebuffer + y * mode.pitch

-- The bytes that row `y` shows.
abbrev pub shown_row : ModeInfo → (ℕ → ℕ) → ℕ → List ℕ
shown_row mode source y =
    row_bytes (pixel_bytes mode) (λ x. source (y * mode.width + x)) 0 mode.width

-- `q` lies in no pixel of row `y`.
abbrev pub Outside : ModeInfo → ℕ → ℕ → Type 0
Outside mode q y = (q < row_at mode y) ⊎ (row_at mode y + mode.width * pixel_size mode ≤ q)

length-bytes_of : (k n : ℕ) → length (bytes_of k n) ≡ k
unfolding bytes_of
length-bytes_of zero n = refl
length-bytes_of (suc k) n = ap suc (length-bytes_of k (n / 2 ^ 8))

pub pixel_bytes-IsSized : (mode : ModeInfo) → IsSized (pixel_bytes mode) (pixel_size mode)
unfolding pixel_bytes pixel_size
pixel_bytes-IsSized mode rgba = elim (Bool-cases (mode.bpp == 8)) [
  | inl e ↦ rw e refl
  | inr e ↦ rw e (elim (Bool-cases (mode.bpp == 15 || mode.bpp == 16)) [
    | inl e2 ↦ rw e2 (length-bytes_of 2 _)
    | inr e2 ↦ rw e2 (elim (Bool-cases (mode.bpp == 24)) [
      | inl e3 ↦ rw e3 (length-bytes_of 3 _)
      | inr e3 ↦ rw e3 (length-bytes_of 4 _)
    ])
  ])
]

abbrev put_from : ModeInfo → (ℕ → ℕ) → ℕ → ℕ → Memory → Memory
put_from mode source y n mem = put_rows (pixel_bytes mode) (pixel_size mode) mode source y n mem

put_from-step :
    (mode : ModeInfo) (source : ℕ → ℕ) (y n : ℕ) (mem : Memory)
    → put_from mode source y (suc n) mem
      ≡ put_from mode source (y + 1) n (store_all mem (row_at mode y) (shown_row mode source y))
unfolding put_rows
put_from-step mode source y n mem =
    let row =
      put_row-bytes (pixel_bytes mode) (pixel_size mode) (λ x. source (y * mode.width + x))
        (row_at mode y) 0 mode.width mem (pixel_bytes-IsSized mode) in
    ap (put_from mode source (y + 1) n) (
      row
      ∙ ap (λ (p : ℕ). store_all mem p (shown_row mode source y))
          {x = row_at mode y + 0 * pixel_size mode} {y = row_at mode y} (omega arith))

length-shown :
    (mode : ModeInfo) (source : ℕ → ℕ) (y : ℕ)
    → length (shown_row mode source y) ≡ mode.width * pixel_size mode
length-shown mode source y =
    length-row_bytes (pixel_bytes mode) (pixel_size mode) _ 0 mode.width (pixel_bytes-IsSized mode)

put_from-Outside :
    (mode : ModeInfo) (source : ℕ → ℕ) (y n q : ℕ) (mem : Memory)
    → ((k : ℕ) → y ≤ k → k < y + n → Outside mode q k)
    → put_from mode source y n mem q ≡ mem q
put_from-Outside mode source y zero q mem out = unfold put_rows in refl
put_from-Outside mode source y (suc n) q mem out =
    let row = shown_row mode source y in
    let mem' = store_all mem (row_at mode y) row in
    ap (λ m. m q) (put_from-step mode source y n mem)
    ∙ (put_from-Outside mode source (y + 1) n q mem'
          (λ k low high. out k (omega (arith, low)) (omega (arith, high)))
        ∙ elim (out y (omega arith) (omega arith)) [
          | inl h ↦ store_all-below mem (row_at mode y) q row h
          | inr h ↦
              store_all-above mem (row_at mode y) q row
                (omega (arith, h, length-shown mode source y))
        ])

-- Rows do not meet when they fit in the pitch.
row_at-apart : (mode : ModeInfo) (y k : ℕ) → y < k → row_at mode y + mode.pitch ≤ row_at mode k
row_at-apart mode y k h =
    omega (arith, mul-le-mul_right mode.pitch (one_more h), add-mul y 1 mode.pitch)
  where
    one_more : y < k → y + 1 ≤ k
    one_more h = omega (arith, h)

put_from-here :
    (mode : ModeInfo) (source : ℕ → ℕ) (y n j : ℕ) (mem : Memory)
    → mode.width * pixel_size mode ≤ mode.pitch
    → j < mode.width * pixel_size mode
    → put_from mode source y (suc n) mem (row_at mode y + j) ≡ get_or (shown_row mode source y) j 0
put_from-here mode source y n j mem fits inside =
    let row = shown_row mode source y in
    let mem' = store_all mem (row_at mode y) row in
    ap (λ m. m (row_at mode y + j)) (put_from-step mode source y n mem)
    ∙ (put_from-Outside mode source (y + 1) n (row_at mode y + j) mem' (λ k low high.
          inl (omega (arith, row_at-apart mode y k (omega (arith, low)), fits, inside)))
        ∙ store_all-inside mem (row_at mode y) j row
            (omega (arith, inside, length-shown mode source y)))

put_from-inside :
    (mode : ModeInfo) (source : ℕ → ℕ) (y n k j : ℕ) (mem : Memory)
    → mode.width * pixel_size mode ≤ mode.pitch
    → y ≤ k
    → k < y + n
    → j < mode.width * pixel_size mode
    → put_from mode source y n mem (row_at mode k + j) ≡ get_or (shown_row mode source k) j 0
put_from-inside mode source y zero k j mem fits low high inside = absurd (omega (arith, low, high))
put_from-inside mode source y (suc n) k j mem fits low high inside = elim (ℕ_discrete k y) [
  | yes e ↦
      subst
        (λ (r : ℕ).
          put_from mode source y (suc n) mem (row_at mode r + j)
          ≡ get_or (shown_row mode source r) j 0)
        (sym e) (put_from-here mode source y n j mem fits inside)
  | no ne ↦
      let mem' = store_all mem (row_at mode y) (shown_row mode source y) in
      ap (λ m. m (row_at mode k + j)) (put_from-step mode source y n mem)
      ∙ put_from-inside mode source (y + 1) n k j mem' fits (omega (arith, low, ne))
          (omega (arith, high)) inside
]

-- `gfx_bridge_present` with a depth that it knows, into rows that fit in the pitch: every row of the
-- framebuffer shows the converted pixels of its row of the buffer, one after the other, and no byte
-- outside the rows changes.
pub present-rows :
    (b : Bridge) (source : ℕ → ℕ) (mem : Memory)
    → b.ready ≡ true
    → known_bpp b.mode.bpp ≡ true
    → b.mode.width * pixel_size b.mode ≤ b.mode.pitch
    → ((y j : ℕ)
        → y < b.mode.height
        → j < b.mode.width * pixel_size b.mode
        → present b source mem (row_at b.mode y + j) ≡ get_or (shown_row b.mode source y) j 0)
      × ((q : ℕ)
          → ((y : ℕ) → y < b.mode.height → Outside b.mode q y)
          → present b source mem q ≡ mem q)
present-rows b source mem ready known fits = (
  λ y j below inside.
      ap (λ m. m (row_at b.mode y + j)) shows
      ∙ put_from-inside b.mode source 0 b.mode.height y j mem fits (omega arith)
          (omega (arith, below)) inside,
  λ q out.
      ap (λ m. m q) shows
      ∙ put_from-Outside b.mode source 0 b.mode.height q mem
          (λ k low high. out k (omega (arith, high))),
)
  where
    shows : present b source mem ≡ put_from b.mode source 0 b.mode.height mem
    shows =
        unfold present in
        ap₂ (λ c d. if c && d then put_from b.mode source 0 b.mode.height mem else mem) ready known
