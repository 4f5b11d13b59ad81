-- ===== src/Shell/Bounds.antt =====
-- Where src/kernel/shell.c writes into its command buffer: the tokenizer stops at the NUL of the line.
use alma_os.Base.{
  ℕ, zero, suc, List, [], ◌∷◌, Bool, true, false, not, ◌&&◌, ◌+◌, ◌<◌, ◌≤◌, ◌==◌, if◌then◌else◌,
  length, set, drop, get_or-set_ne, get_or-set_self, ◌≡◌, ◌≢◌, inl, inr, refl, ap, ◌∙◌, arith,
  Bool-cases,
}
use native.Mathlib.Decide.{ℕ_discrete}
use alma_os.Shell.{Shell, Command, char_at, skip_spaces, skip_word, tokenize, execute_cmd}

pub drop-set : (n : ℕ) (xs : List ℕ) (i v : ℕ) → i < n → drop n (set xs i v) ≡ drop n xs
drop-set zero xs i v h = absurd (omega (arith, h))
drop-set (suc n) [] i v h = refl
drop-set (suc n) (x ∷ xs) zero v h = refl
drop-set (suc n) (x ∷ xs) (suc i) v h = drop-set n xs i v (omega (arith, h))

-- A scan that goes on has not reached the NUL.
before_nul : (buf : List ℕ) (p e : ℕ) → char_at buf e ≡ 0 → p ≤ e → char_at buf p ≢ 0 → p + 1 ≤ e
before_nul buf p e nul below other = elim (ℕ_discrete p e) [
  | yes same ↦ absurd (other (ap (char_at buf) same ∙ nul))
  | no differs ↦ omega (arith, below, differs)
]

skip_spaces-inside :
    (fuel : ℕ) (buf : List ℕ) (p e : ℕ) → char_at buf e ≡ 0 → p ≤ e → skip_spaces fuel buf p ≤ e
unfolding skip_spaces
skip_spaces-inside zero buf p e nul below = below
skip_spaces-inside (suc fuel) buf p e nul below = elim (Bool-cases (char_at buf p == b' ')) [
  | inl on ↦ rw on (
      skip_spaces-inside fuel buf (p + 1) e nul
        (before_nul buf p e nul below (λ zero_there. ground arith)))
  | inr stop ↦ rw stop below
]

skip_word-inside :
    (fuel : ℕ) (buf : List ℕ) (p e : ℕ) → char_at buf e ≡ 0 → p ≤ e → skip_word fuel buf p ≤ e
unfolding skip_word
skip_word-inside zero buf p e nul below = below
skip_word-inside (suc fuel) buf p e nul below =
    elim (Bool-cases (not (char_at buf p == 0) && not (char_at buf p == b' '))) [
      | inl on ↦ rw on (
          skip_word-inside fuel buf (p + 1) e nul
            (before_nul buf p e nul below (λ zero_there. ground arith)))
      | inr stop ↦ rw stop below
    ]

-- What holds of both branches.
both :
    (P : List ℕ × List ℕ → Type 0) (c : Bool) (a b : List ℕ × List ℕ)
    → P a
    → P b
    → P (if c then a else b)
both P true a b h k = h
both P false a b h k = k

-- With a NUL at `e`, the tokenizer leaves what lies behind alone.
drop-tokenize :
    (slots : ℕ) (buf : List ℕ) (p e n : ℕ)
    → char_at buf e ≡ 0
    → p ≤ e
    → e < n
    → drop n (tokenize slots buf p).1 ≡ drop n buf
unfolding tokenize
drop-tokenize zero buf p e n nul below behind = refl
drop-tokenize (suc slots) buf p e n nul below behind =
    let start = skip_spaces (length buf) buf p in
    let stop = skip_word (length buf) buf start in
    let start_in : start ≤ e = skip_spaces-inside (length buf) buf p e nul below in
    let stop_in : stop ≤ e = skip_word-inside (length buf) buf start e nul start_in in
    let Same : List ℕ × List ℕ → Type 0 = λ r. drop n r.1 ≡ drop n buf in
    both Same (char_at buf p == 0) ([], buf) _ refl
      (both Same (char_at buf start == 0) ([], buf) _ refl
        (elim (Bool-cases (char_at buf stop == 0)) [
          | inl at_end ↦ rw at_end (drop-tokenize slots buf stop e n nul stop_in behind)
          | inr inside ↦
              let before : stop + 1 ≤ e =
                before_nul buf stop e nul stop_in (λ zero_there. ground arith) in
              let still : char_at (set buf stop 0) e ≡ 0 =
                get_or-set_ne buf stop e 0 0 (omega (arith, before)) ∙ nul in
              rw inside (
                drop-tokenize slots (set buf stop 0) (stop + 1) e n still before behind
                ∙ drop-set n buf stop 0 (omega (arith, before, behind)))
        ]))

pub drop-execute_cmd :
    (table : List Command) (s : Shell) (n : ℕ)
    → s.len < length s.buf
    → s.len < n
    → drop n (execute_cmd table s).buf ≡ drop n s.buf
unfolding execute_cmd
drop-execute_cmd table s n room behind =
    let cut = drop-set n s.buf s.len 0 behind in
    let nul = get_or-set_self s.buf s.len 0 0 room in
    let tokens = drop-tokenize 16 (set s.buf s.len 0) 0 s.len n nul (omega arith) behind in
    elim (Bool-cases (s.len == 0)) [ inl e ↦ simp (e) cut | inr e ↦ simp (e) (tokens ∙ cut) ]
