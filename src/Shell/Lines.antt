-- ===== src/Shell/Lines.antt =====
-- The line editor of src/kernel/shell.c: what stands in the command buffer, and that it never
-- overflows.
use alma_os.Base.{
  ℕ, zero, suc, List, [], ◌∷◌, ◌++◌, true, false, ◌+◌, ◌-◌, ◌<◌, ◌≤◌, ◌==◌, ltb, if◌then◌else◌,
  length, set, take, drop, length-set, ◌≡◌, ◌≢◌, refl, sym, ap, ◌∙◌, arith, ==_ne,
}
use mathlib.Core.Path.{subst}
use alma_os.Shell.Bounds.{drop-set, drop-execute_cmd}
use alma_os.Vga.{putchar}
use native.Mathlib.Decide.{ℕ_discrete, dec_lt}
use alma_os.Shell.{
  Shell, Command, round, rounds, execute_cmd, tokenize, char_at, skip_spaces, skip_word,
}

-- The buffer has its 64 bytes, whatever lies behind them, and there is room for the NUL behind the
-- line.
pub record IsValid (s : Shell) : Type 0 where
  pub whole : 64 ≤ length s.buf
  pub room : s.len ≤ 63

abbrev pub line : Shell → List ℕ
line s = take s.len s.buf

-- The last character goes.
unfoldable pub chop : List ℕ → List ℕ
chop [] = []
chop (c ∷ []) = []
chop (c ∷ d ∷ cs) = c ∷ chop (d ∷ cs)

-- A line of at most 63 characters that grows at its end.
unfoldable pub edit : List ℕ → ℕ → List ℕ
edit cs c =
    if c == b'\n'
    then []
    else if c == 8
    then chop cs
    else if ltb (length cs) 63
    then cs ++ (c ∷ [])
    else cs

unfoldable pub edits : List ℕ → List ℕ → List ℕ
edits cs [] = cs
edits cs (k ∷ ks) = edits (edit cs k) ks

length-tokenize : (slots : ℕ) (buf : List ℕ) (p : ℕ) → length (tokenize slots buf p).1 ≡ length buf
unfolding tokenize
length-tokenize zero buf p = refl
length-tokenize (suc slots) buf p =
    let stop = skip_word (length buf) buf (skip_spaces (length buf) buf p) in
    let at_end = char_at buf stop == 0 in
    ground (
      arith,
      length-set buf stop 0,
      length-tokenize slots (if at_end then buf else set buf stop 0)
          (if at_end then stop else stop + 1),
    )

length-execute_cmd :
    (table : List Command) (s : Shell) → length (execute_cmd table s).buf ≡ length s.buf
unfolding execute_cmd
length-execute_cmd table s =
    ground (arith, length-set s.buf s.len 0, length-tokenize 16 (set s.buf s.len 0) 0)

length-take : (n : ℕ) (xs : List ℕ) → n ≤ length xs → length (take n xs) ≡ n
length-take zero xs h = refl
length-take (suc n) [] h = absurd (omega (arith, h))
length-take (suc n) (x ∷ xs) h = omega (arith, length-take n xs (omega (arith, h)))

take-set :
    (n : ℕ) (xs : List ℕ) (c : ℕ)
    → n < length xs
    → take (suc n) (set xs n c) ≡ take n xs ++ (c ∷ [])
take-set zero [] c h = absurd (omega (arith, h))
take-set zero (x ∷ xs) c h = refl
take-set (suc n) [] c h = absurd (omega (arith, h))
take-set (suc n) (x ∷ xs) c h = ap (λ r. x ∷ r) (take-set n xs c (omega (arith, h)))

chop-take : (n : ℕ) (xs : List ℕ) → n < length xs → chop (take (suc n) xs) ≡ take n xs
unfolding chop
chop-take zero [] h = absurd (omega (arith, h))
chop-take zero (x ∷ xs) h = refl
chop-take (suc n) [] h = absurd (omega (arith, h))
chop-take (suc n) (x ∷ []) h = absurd (omega (arith, h))
chop-take (suc n) (x ∷ y ∷ xs) h = ap (λ r. x ∷ r) (chop-take n (y ∷ xs) (omega (arith, h)))

Edits : Shell → Shell → ℕ → Type 0
Edits s s' c =
    IsValid s'
    × (line s' ≡ edit (line s) c)
    × (length s'.buf ≡ length s.buf)
    × (drop 64 s'.buf ≡ drop 64 s.buf)

abbrev typed : Shell → Shell
typed s = record s { screen = putchar s.screen b'\n' }

Edits-newline : (table : List Command) {s : Shell} → IsValid s → Edits s (round table s b'\n') b'\n'
unfolding Edits round edit
Edits-newline table {s} v = (
  record { whole = omega (arith, v.whole, length-execute_cmd table (typed s)); room = omega arith },
  refl,
  length-execute_cmd table (typed s),
  drop-execute_cmd table (typed s) 64 (omega (arith, v.whole, v.room)) (omega (arith, v.room)),
)

chopped : (n : ℕ) (xs : List ℕ) → n ≤ length xs → 0 < n → take (n - 1) xs ≡ chop (take n xs)
chopped zero xs h pos = absurd (omega (arith, pos))
chopped (suc n) xs h pos =
    ap (λ k. take k xs) (omega arith) ∙ sym (chop-take n xs (omega (arith, h)))

Edits-backspace : (table : List Command) {s : Shell} → IsValid s → Edits s (round table s 8) 8
unfolding Edits round edit chop
Edits-backspace table {s} v = elim (dec_lt 0 s.len) [
  | yes pos ↦ rw (test s.len pos) (
    record { whole = v.whole; room = omega (arith, v.room) },
    chopped s.len s.buf (omega (arith, v.whole, v.room)) pos,
    refl,
    refl,
  )
  | no first ↦ rw (test_none s.len first) (v, chop-none s.len s.buf first, refl, refl)
]
  where
    test : (n : ℕ) → 0 < n → ltb 0 n ≡ true
    test n p = ground arith

    test_none : (n : ℕ) → (0 < n → ⊥) → ltb 0 n ≡ false
    test_none n p = ground arith

    chop-none : (n : ℕ) (xs : List ℕ) → (0 < n → ⊥) → take n xs ≡ chop (take n xs)
    chop-none zero xs h = refl
    chop-none (suc n) xs h = absurd (h (omega arith))

Edits-key :
    (table : List Command) {s : Shell} (c : ℕ)
    → IsValid s
    → c ≢ b'\n'
    → c ≢ 8
    → Edits s (round table s c) c
unfolding Edits round edit
Edits-key table {s} c v a b = elim (dec_lt s.len 63) [
  | yes free ↦
      rw
        (
          ==_ne c b'\n' a,
          ==_ne c 8 b,
          length-take s.len s.buf (omega (arith, v.whole, v.room)),
          test s.len free,
        )
        (
          record {
            whole = omega (arith, v.whole, length-set s.buf s.len c);
            room = omega (arith, free);
          },
          ap (λ k. take k (set s.buf s.len c)) {y = suc s.len} (omega arith)
              ∙ take-set s.len s.buf c (omega (arith, v.whole, free)),
          length-set s.buf s.len c,
          drop-set 64 s.buf s.len c (omega (arith, free)),
        )
  | no full ↦
      rw
        (
          ==_ne c b'\n' a,
          ==_ne c 8 b,
          length-take s.len s.buf (omega (arith, v.whole, v.room)),
          test_full s.len full,
        )
        (v, refl, refl, refl)
]
  where
    test : (n : ℕ) → n < 63 → ltb n 63 ≡ true
    test n p = ground arith

    test_full : (n : ℕ) → (n < 63 → ⊥) → ltb n 63 ≡ false
    test_full n p = ground arith

-- A round keeps the buffer whole, with room for the NUL, and edits the line.
round-line : (table : List Command) {s : Shell} (c : ℕ) → IsValid s → Edits s (round table s c) c
round-line table {s} c v = elim (ℕ_discrete c b'\n') [
  | yes e ↦ subst (λ k. Edits s (round table s k) k) (sym e) (Edits-newline table v)
  | no a ↦ elim (ℕ_discrete c 8) [
    | yes e ↦ subst (λ k. Edits s (round table s k) k) (sym e) (Edits-backspace table v)
    | no b ↦ Edits-key table c v a b
  ]
]

-- From a line of at most 63 characters on, whatever is typed and whatever commands it runs, the shell
-- writes inside the 64 bytes of its buffer: the memory behind them stays as it is. There stays room
-- for the terminator, and what stands on the line is what the specification of the editor gives.
pub rounds-line :
    (cs : List ℕ) (table : List Command) {s : Shell}
    → IsValid s
    → IsValid (rounds table s cs)
      × (line (rounds table s cs) ≡ edits (line s) cs)
      × (length (rounds table s cs).buf ≡ length s.buf)
      × (drop 64 (rounds table s cs).buf ≡ drop 64 s.buf)
unfolding rounds edits Edits
rounds-line [] table v = (v, refl, refl, refl)
rounds-line (c ∷ cs) table {s} v =
    let (v', same, bytes, behind) = round-line table c v in
    let (valid, there, all_bytes, all_behind) = rounds-line cs table v' in
    (valid, there ∙ ap (λ l. edits l cs) same, all_bytes ∙ bytes, all_behind ∙ behind)
