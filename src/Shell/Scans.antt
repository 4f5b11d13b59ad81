-- ===== src/Shell/Scans.antt =====
-- The scans of the tokenizer in src/kernel/shell.c, and command lines as spaced words.
use alma_os.Base.{
  ℕ, zero, suc, List, [], ◌∷◌, ◌++◌, false, not, ◌&&◌, ◌+◌, ◌<◌, ◌==◌, length, set, drop, map,
  replicate, All, length-append, ◌≡◌, ◌≢◌, refl, sym, ap, ap₂, ◌∙◌, arith, ==_ne, ==_iff,
}
use mathlib.Core.Path.{subst}
use mathlib.Core.List.{append_assoc}
use alma_os.Shell.{char_at, skip_spaces, skip_word}

-- A word's characters.
abbrev pub InWord : ℕ → Type 0
InWord c = (c ≢ 0) × (c ≢ b' ')

-- A word and the number of blanks before it.
pub record Spaced : Type 0 where
  pub blanks : ℕ
  pub word : List ℕ

abbrev pub IsWord : List ℕ → Type 0
IsWord w = All InWord w × (0 < length w)

-- The words and their blanks, and the blanks at the end.
abbrev pub spelled : List Spaced → ℕ → List ℕ
spelled [] n = replicate n b' '
spelled (w ∷ ws) n = replicate w.blanks b' ' ++ (w.word ++ spelled ws n)

-- At least one blank between two words; the first may start at once.
abbrev pub Between : List Spaced → Type 0
Between [] = Unit
Between (w ∷ ws) = All (λ v. 0 < v.blanks) ws

abbrev pub words : List Spaced → List (List ℕ)
words ws = map (λ w. w.word) ws

pub char_at-append : (pre cs : List ℕ) → char_at (pre ++ cs) (length pre) ≡ char_at cs 0
char_at-append [] cs = refl
char_at-append (c ∷ pre) cs = char_at-append pre cs

pub drop-append : (pre cs : List ℕ) → drop (length pre) (pre ++ cs) ≡ cs
drop-append [] cs = refl
drop-append (c ∷ pre) cs = drop-append pre cs

pub set-append :
    (pre cs : List ℕ) (c v : ℕ) → set (pre ++ (c ∷ cs)) (length pre) v ≡ pre ++ (v ∷ cs)
set-append [] cs c v = refl
set-append (x ∷ pre) cs c v = ap (λ r. x ∷ r) (set-append pre cs c v)

-- What does not go on with a blank.
abbrev NoBlank : List ℕ → Type 0
NoBlank cs = char_at cs 0 ≢ b' '

pub skip_spaces-stop :
    (fuel : ℕ) (buf : List ℕ) (p : ℕ) → char_at buf p ≢ b' ' → skip_spaces (suc fuel) buf p ≡ p
unfolding skip_spaces
skip_spaces-stop fuel buf p h = rw (==_ne (char_at buf p) b' ' h) refl

skip_spaces-on :
    (fuel : ℕ) (buf : List ℕ) (p : ℕ)
    → char_at buf p ≡ b' '
    → skip_spaces (suc fuel) buf p ≡ skip_spaces fuel buf (p + 1)
unfolding skip_spaces
skip_spaces-on fuel buf p h = rw ((==_iff (char_at buf p) b' ').1 h) refl

skip_word-stop :
    (fuel : ℕ) (buf : List ℕ) (p : ℕ)
    → (not (char_at buf p == 0) && not (char_at buf p == b' ')) ≡ false
    → skip_word (suc fuel) buf p ≡ p
unfolding skip_word
skip_word-stop fuel buf p h = rw h refl

skip_word-on :
    (fuel : ℕ) (buf : List ℕ) (p : ℕ)
    → InWord (char_at buf p)
    → skip_word (suc fuel) buf p ≡ skip_word fuel buf (p + 1)
unfolding skip_word
skip_word-on fuel buf p h = rw (==_ne (char_at buf p) 0 h.0, ==_ne (char_at buf p) b' ' h.1) refl

pub skip_spaces-append :
    (k fuel : ℕ) (pre cs : List ℕ)
    → k < fuel
    → NoBlank cs
    → skip_spaces fuel (pre ++ (replicate k b' ' ++ cs)) (length pre) ≡ length pre + k
skip_spaces-append k zero pre cs h stop = absurd (omega (arith, h))
skip_spaces-append zero (suc fuel) pre cs h stop =
    skip_spaces-stop fuel (pre ++ cs) (length pre) (λ e. stop (sym (char_at-append pre cs) ∙ e))
    ∙ omega arith
skip_spaces-append (suc k) (suc fuel) pre cs h stop =
    let rest = replicate k b' ' ++ cs in
    skip_spaces-on fuel (pre ++ (b' ' ∷ rest)) (length pre) (char_at-append pre (b' ' ∷ rest))
    ∙ ap₂ (skip_spaces fuel) (sym (append_assoc pre (b' ' ∷ []) rest))
        (sym (length-append pre (b' ' ∷ [])))
    ∙ skip_spaces-append k fuel (pre ++ (b' ' ∷ [])) cs (omega (arith, h)) stop
    ∙ omega (arith, length-append pre (b' ' ∷ []))

pub skip_word-append :
    (w : List ℕ) (fuel : ℕ) (pre cs : List ℕ)
    → length w < fuel
    → All InWord w
    → (not (char_at cs 0 == 0) && not (char_at cs 0 == b' ')) ≡ false
    → skip_word fuel (pre ++ (w ++ cs)) (length pre) ≡ length pre + length w
skip_word-append w zero pre cs h a stop = absurd (omega (arith, h))
skip_word-append [] (suc fuel) pre cs h a stop =
    skip_word-stop fuel (pre ++ cs) (length pre)
      (ap (λ c. not (c == 0) && not (c == b' ')) (char_at-append pre cs) ∙ stop)
    ∙ omega arith
skip_word-append (c ∷ w) (suc fuel) pre cs h a stop =
    let rest = w ++ cs in
    skip_word-on fuel (pre ++ (c ∷ rest)) (length pre)
      (subst InWord (sym (char_at-append pre (c ∷ rest))) a.0)
    ∙ ap₂ (skip_word fuel) (sym (append_assoc pre (c ∷ []) rest)) (sym (length-append pre (c ∷ [])))
    ∙ skip_word-append w fuel (pre ++ (c ∷ [])) cs (omega (arith, h)) a.1 stop
    ∙ omega (arith, length-append pre (c ∷ []))
