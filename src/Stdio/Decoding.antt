-- ===== src/Stdio/Decoding.antt =====
-- The decoder of src/bootloader/stage2/stdio.c, byte by byte.
use alma_os.Base.{
  ℕ, List, [], ◌∷◌, ◌++◌, true, false, ◌+◌, ◌-◌, ◌*◌, ◌/◌, ◌%◌, ◌^◌, ◌<◌, ◌≤◌, ◌==◌, ==_ne, ltb,
  if◌then◌else◌, All, u8, u16, u32, bit_or, ◌≡◌, ◌≢◌, inl, inr, refl, ap, ◌∙◌, arith, Bool-cases,
}
use alma_os.Base.Bits.{bit_or-fields, bit_or_comm}
use alma_os.Stdio.{Console, putc, cp437_table, cp437, putwc, lead, continuation, putc_utf8}

-- The UTF-8 of a number below 2^21.
unfoldable pub utf8 : ℕ → List ℕ
utf8 u =
    if ltb u 0x80
    then u ∷ []
    else if ltb u 0x800
    then (0xC0 + u / 2 ^ 6) ∷ (0x80 + u % 2 ^ 6) ∷ []
    else if ltb u 0x10000
    then (0xE0 + u / 2 ^ 12) ∷ (0x80 + u / 2 ^ 6 % 2 ^ 6) ∷ (0x80 + u % 2 ^ 6) ∷ []
    else (0xF0 + u / 2 ^ 18)
      ∷ (0x80 + u / 2 ^ 12 % 2 ^ 6)
      ∷ (0x80 + u / 2 ^ 6 % 2 ^ 6)
      ∷ (0x80 + u % 2 ^ 6)
      ∷ []

-- What is shown for a 16-bit character.
unfoldable pub glyph : ℕ → ℕ
glyph u = if ltb u 0x80 then u else cp437 cp437_table u

joined :
    (a low : ℕ)
    → a < 2 ^ 26
    → low < 2 ^ 6
    → bit_or (u32 (a * 2 ^ 6)) ((0x80 + low) % 2 ^ 6) ≡ a * 2 ^ 6 + low
joined a low small h =
    let high : u32 (a * 2 ^ 6) ≡ a * 2 ^ 6 = omega (arith, small) in
    let rest : (0x80 + low) % 2 ^ 6 ≡ low = omega (arith, h) in
    rw (high, rest) (bit_or_comm (a * 2 ^ 6) low ∙ bit_or-fields 6 a low h)

abbrev pub with_pending : Console → ℕ → ℕ → Console
with_pending con n a = record con { pending = n; partial = a }

-- A byte that continues a character, with `n` bytes to come after it.
putc_utf8-continuation :
    (con : Console) (m n a low : ℕ)
    → m ≢ 0
    → m - 1 ≡ n
    → a < 2 ^ 26
    → low < 2 ^ 6
    → let con' = with_pending con n (a * 2 ^ 6 + low) in
      putc_utf8 (0x80 + low) (with_pending con m a)
      ≡ (if n == 0 then putwc (u16 (a * 2 ^ 6 + low)) con' else con')
unfolding putc_utf8 continuation
putc_utf8-continuation con m n a low busy less small h =
    let high : ltb (0x80 + low) 0x80 ≡ false = ground arith in
    rw (high, ==_ne m 0 busy, joined a low small h, less) refl

putwc-glyph :
    (u : ℕ) (con : Console) → putwc u con ≡ record con { shown = con.shown ++ (u8 (glyph u) ∷ []) }
unfolding putwc glyph putc
putwc-glyph u con = elim (Bool-cases (ltb u 0x80)) [ inl e ↦ rw e refl | inr e ↦ rw e refl ]

-- What a text does: `text` is shown and no byte is pending.
abbrev pub Shows : Console → Console → List ℕ → Type 0
Shows con con' text = (con'.pending ≡ 0) × (con'.shown ≡ con.shown ++ text)

pub Shows-ascii : (u : ℕ) (con : Console) → u < 0x80 → Shows con (putc_utf8 u con) (glyph u ∷ [])
unfolding putc_utf8 glyph putc
Shows-ascii u con low =
    let e : ltb u 0x80 ≡ true = ground arith in
    let same : u8 u ≡ u = omega (arith, low) in rw (e, same) (refl, refl)

putc_utf8-lead : (b : ℕ) (con : Console) → 0x80 ≤ b → con.pending ≡ 0 → putc_utf8 b con ≡ lead b con
unfolding putc_utf8
putc_utf8-lead b con high idle =
    let e : ltb b 0x80 ≡ false = ground arith in
    rw e (ap (λ (n : ℕ). if n == 0 then lead b con else continuation b con) idle)

pub lead-two :
    (x : ℕ) (con : Console)
    → x < 2 ^ 5
    → con.pending ≡ 0
    → putc_utf8 (0xC0 + x) con ≡ with_pending con 1 x
lead-two x con small idle = putc_utf8-lead (0xC0 + x) con (omega arith) idle ∙ found
  where
    found : lead (0xC0 + x) con ≡ with_pending con 1 x
    found =
        let mask : ((0xC0 + x) / 2 ^ 5 * 2 ^ 5 == 0xC0) ≡ true = ground arith in
        let rest : (0xC0 + x) % 2 ^ 5 ≡ x = omega (arith, small) in
        unfold lead in rw (mask, rest) refl

pub lead-three :
    (x : ℕ) (con : Console)
    → x < 2 ^ 4
    → con.pending ≡ 0
    → putc_utf8 (0xE0 + x) con ≡ with_pending con 2 x
lead-three x con small idle = putc_utf8-lead (0xE0 + x) con (omega arith) idle ∙ found
  where
    found : lead (0xE0 + x) con ≡ with_pending con 2 x
    found =
        let not_two : ((0xE0 + x) / 2 ^ 5 * 2 ^ 5 == 0xC0) ≡ false = ground arith in
        let mask : ((0xE0 + x) / 2 ^ 4 * 2 ^ 4 == 0xE0) ≡ true = ground arith in
        let rest : (0xE0 + x) % 2 ^ 4 ≡ x = omega (arith, small) in
        unfold lead in rw (not_two, mask, rest) refl

pub lead-four :
    (x : ℕ) (con : Console)
    → x < 2 ^ 3
    → con.pending ≡ 0
    → putc_utf8 (0xF0 + x) con ≡ with_pending con 3 x
lead-four x con small idle = putc_utf8-lead (0xF0 + x) con (omega arith) idle ∙ found
  where
    found : lead (0xF0 + x) con ≡ with_pending con 3 x
    found =
        let not_two : ((0xF0 + x) / 2 ^ 5 * 2 ^ 5 == 0xC0) ≡ false = ground arith in
        let not_three : ((0xF0 + x) / 2 ^ 4 * 2 ^ 4 == 0xE0) ≡ false = ground arith in
        let mask : ((0xF0 + x) / 2 ^ 3 * 2 ^ 3 == 0xF0) ≡ true = ground arith in
        let rest : (0xF0 + x) % 2 ^ 3 ≡ x = omega (arith, small) in
        unfold lead in rw (not_two, not_three, mask, rest) refl

cp437-byte : (table : List (ℕ × ℕ)) (c : ℕ) → All (λ r. r.1 < 2 ^ 8) table → cp437 table c < 2 ^ 8
unfolding cp437
cp437-byte [] c small = omega arith
cp437-byte (row ∷ table) c small = elim (Bool-cases (c == row.0)) [
  | inl e ↦ rw e small.0
  | inr e ↦ rw e (cp437-byte table c small.1)
]

glyph-byte : (u : ℕ) → glyph u < 2 ^ 8
unfolding glyph
glyph-byte u = elim (Bool-cases (ltb u 0x80)) [
  | inl e ↦ let low : u < 0x80 = ground arith in rw e (omega (arith, low))
  | inr e ↦ rw e (cp437-byte cp437_table u (omega arith))
]

-- The last byte of a character.
pub Shows-last :
    (con : Console) (a low : ℕ)
    → a < 2 ^ 26
    → low < 2 ^ 6
    → Shows con (putc_utf8 (0x80 + low) (with_pending con 1 a)) (glyph (u16 (a * 2 ^ 6 + low)) ∷ [])
Shows-last con a low small h =
    let u = u16 (a * 2 ^ 6 + low) in
    let e =
      putc_utf8-continuation con 1 0 a low (omega arith) refl small h
      ∙ putwc-glyph u (with_pending con 0 (a * 2 ^ 6 + low)) in
    let same : u8 (glyph u) ≡ glyph u = omega (arith, glyph-byte u) in
    (ap (λ c. c.pending) e, ap (λ c. c.shown) e ∙ ap (λ (g : ℕ). con.shown ++ (g ∷ [])) same)

-- A continuation byte with `n` more behind it.
pub continuation-more :
    (con : Console) (n a low : ℕ)
    → 0 < n
    → a < 2 ^ 26
    → low < 2 ^ 6
    → putc_utf8 (0x80 + low) (with_pending con (n + 1) a) ≡ with_pending con n (a * 2 ^ 6 + low)
continuation-more con n a low more small h =
    putc_utf8-continuation con (n + 1) n a low (omega arith) (omega arith) small h
    ∙ rw (==_ne n 0 (omega (arith, more))) refl
