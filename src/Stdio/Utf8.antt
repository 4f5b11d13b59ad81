-- ===== src/Stdio/Utf8.antt =====
-- Texts through the UTF-8 decoder of src/bootloader/stage2/stdio.c.
use alma_os.Base.{
  ℕ, List, [], ◌∷◌, ◌++◌, ◌+◌, ◌*◌, ◌/◌, ◌%◌, ◌^◌, ◌<◌, ==_ne, ltb, All, map, u16, ◌≡◌, ◌≢◌, inl,
  inr, refl, sym, ap, ◌∙◌, arith, Bool-cases,
}
use mathlib.Core.Path.{subst}
use mathlib.Core.List.{append_assoc, append-nil}
use alma_os.Stdio.{Console, putc_utf8, puts}
use alma_os.Stdio.Decoding.{
  utf8, glyph, with_pending, Shows, Shows-ascii, lead-two, lead-three, lead-four, Shows-last,
  continuation-more,
}

puts-on :
    (b : ℕ) (str : List ℕ) (con : Console) → b ≢ 0 → puts (b ∷ str) con ≡ puts str (putc_utf8 b con)
unfolding puts
puts-on b str con ne = rw (==_ne b 0 ne) refl

-- One character of a string.
abbrev ShowsOne : ℕ → List ℕ → Console → List ℕ → Type 0
ShowsOne u bytes con str =
    (con' : Console) × (puts (bytes ++ str) con ≡ puts str con')
    × Shows con con' (glyph (u16 u) ∷ [])

ShowsOne-two :
    (u : ℕ) (con : Console) (str : List ℕ)
    → u < 0x800
    → con.pending ≡ 0
    → ShowsOne u ((0xC0 + u / 2 ^ 6) ∷ (0x80 + u % 2 ^ 6) ∷ []) con str
ShowsOne-two u con str small idle =
    let x = u / 2 ^ 6 in
    let low = u % 2 ^ 6 in
    let whole : x * 2 ^ 6 + low ≡ u = omega arith in
    let con' = putc_utf8 (0x80 + low) (with_pending con 1 x) in
    (
      con',
      puts-on (0xC0 + x) _ con (omega arith)
          ∙ (ap (puts ((0x80 + low) ∷ str)) (lead-two x con (omega (arith, small)) idle)
              ∙ puts-on (0x80 + low) str (with_pending con 1 x) (omega arith)),
      subst (λ (v : ℕ). Shows con con' (glyph (u16 v) ∷ [])) whole
          (Shows-last con x low (omega (arith, small)) (omega arith)),
    )

ShowsOne-three :
    (u : ℕ) (con : Console) (str : List ℕ)
    → u < 0x10000
    → con.pending ≡ 0
    → ShowsOne u
        ((0xE0 + u / 2 ^ 12) ∷ (0x80 + u / 2 ^ 6 % 2 ^ 6) ∷ (0x80 + u % 2 ^ 6) ∷ [])
        con
        str
ShowsOne-three u con str small idle =
    let x = u / 2 ^ 12 in
    let mid = u / 2 ^ 6 % 2 ^ 6 in
    let low = u % 2 ^ 6 in
    let a = x * 2 ^ 6 + mid in
    let whole : a * 2 ^ 6 + low ≡ u = omega arith in
    let con' = putc_utf8 (0x80 + low) (with_pending con 1 a) in
    (
      con',
      puts-on (0xE0 + x) _ con (omega arith)
          ∙ (ap (puts ((0x80 + mid) ∷ (0x80 + low) ∷ str))
                (lead-three x con (omega (arith, small)) idle)
              ∙ (puts-on (0x80 + mid) _ (with_pending con 2 x) (omega arith)
                  ∙ (ap (puts ((0x80 + low) ∷ str)) (
                        continuation-more con 1 x mid (omega arith) (omega (arith, small))
                          (omega arith))
                      ∙ puts-on (0x80 + low) str (with_pending con 1 a) (omega arith)))),
      subst (λ (v : ℕ). Shows con con' (glyph (u16 v) ∷ [])) whole
          (Shows-last con a low (omega (arith, small)) (omega arith)),
    )

ShowsOne-four :
    (u : ℕ) (con : Console) (str : List ℕ)
    → u < 2 ^ 21
    → con.pending ≡ 0
    → ShowsOne u
        ((0xF0 + u / 2 ^ 18)
          ∷ (0x80 + u / 2 ^ 12 % 2 ^ 6)
          ∷ (0x80 + u / 2 ^ 6 % 2 ^ 6)
          ∷ (0x80 + u % 2 ^ 6)
          ∷ [])
        con
        str
ShowsOne-four u con str small idle =
    let x = u / 2 ^ 18 in
    let high = u / 2 ^ 12 % 2 ^ 6 in
    let mid = u / 2 ^ 6 % 2 ^ 6 in
    let low = u % 2 ^ 6 in
    let a = x * 2 ^ 6 + high in
    let b = a * 2 ^ 6 + mid in
    let whole : b * 2 ^ 6 + low ≡ u = omega arith in
    let con' = putc_utf8 (0x80 + low) (with_pending con 1 b) in
    (
      con',
      puts-on (0xF0 + x) _ con (omega arith)
          ∙ (ap (puts ((0x80 + high) ∷ (0x80 + mid) ∷ (0x80 + low) ∷ str))
                (lead-four x con (omega (arith, small)) idle)
              ∙ (puts-on (0x80 + high) _ (with_pending con 3 x) (omega arith)
                  ∙ (ap (puts ((0x80 + mid) ∷ (0x80 + low) ∷ str)) (
                        continuation-more con 2 x high (omega arith) (omega (arith, small))
                          (omega arith))
                      ∙ (puts-on (0x80 + mid) _ (with_pending con 2 a) (omega arith)
                          ∙ (ap (puts ((0x80 + low) ∷ str)) (
                                continuation-more con 1 a mid (omega arith) (omega (arith, small))
                                  (omega arith))
                              ∙ puts-on (0x80 + low) str (with_pending con 1 b) (omega arith)))))),
      subst (λ (v : ℕ). Shows con con' (glyph (u16 v) ∷ [])) whole
          (Shows-last con b low (omega (arith, small)) (omega arith)),
    )

-- A character that UTF-8 can encode, not the terminator.
abbrev pub IsChar : ℕ → Type 0
IsChar u = (u ≢ 0) × (u < 2 ^ 21)

ShowsOne-utf8 :
    (u : ℕ) (con : Console) (str : List ℕ)
    → IsChar u
    → con.pending ≡ 0
    → ShowsOne u (utf8 u) con str
unfolding utf8
ShowsOne-utf8 u con str char idle = elim (Bool-cases (ltb u 0x80)) [
  | inl e ↦
      let low : u < 0x80 = ground arith in
      let same : u16 u ≡ u = omega (arith, low) in
      rw e (
        putc_utf8 u con,
        puts-on u str con char.0,
        subst (λ (v : ℕ). Shows con (putc_utf8 u con) (glyph v ∷ [])) (sym same)
            (Shows-ascii u con low),
      )
  | inr e ↦ rw e (elim (Bool-cases (ltb u 0x800)) [
    | inl e2 ↦ let small : u < 0x800 = ground arith in rw e2 (ShowsOne-two u con str small idle)
    | inr e2 ↦ rw e2 (elim (Bool-cases (ltb u 0x10000)) [
      | inl e3 ↦
          let small : u < 0x10000 = ground arith in rw e3 (ShowsOne-three u con str small idle)
      | inr e3 ↦ rw e3 (ShowsOne-four u con str char.1 idle)
    ])
  ])
]

-- The UTF-8 of a text.
unfoldable pub encoded : List ℕ → List ℕ
encoded [] = []
encoded (u ∷ us) = utf8 u ++ encoded us

-- `puts` of the UTF-8 of a text, from a console with no byte pending, shows the glyph of each of its
-- characters in order, and leaves no byte pending. A character from U+10000 on is shown as the one
-- with its lowest 16 bits.
pub puts-encoded :
    (us : List ℕ) (con : Console)
    → All IsChar us
    → con.pending ≡ 0
    → Shows con (puts (encoded us) con) (map (λ u. glyph (u16 u)) us)
unfolding encoded
puts-encoded [] con ok idle = unfold puts in (idle, sym (append-nil con.shown))
puts-encoded (u ∷ us) con ok idle =
    let (con', e, (idle', shown)) = ShowsOne-utf8 u con (encoded us) ok.0 idle in
    let (idle2, shown2) = puts-encoded us con' ok.1 idle' in
    let g = glyph (u16 u) in
    (
      ap (λ c. c.pending) e ∙ idle2,
      ap (λ c. c.shown) e
          ∙ (shown2
              ∙ (ap (λ l. l ++ map (λ v. glyph (u16 v)) us) shown
                  ∙ append_assoc con.shown (g ∷ []) (map (λ v. glyph (u16 v)) us))),
    )
