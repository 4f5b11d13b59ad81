-- ===== src/Shell/Tokens.antt =====
-- One token of src/kernel/shell.c: where it starts and stops, and the NUL behind it.
use alma_os.Base.{
  ℕ, zero, suc, List, [], ◌∷◌, ◌++◌, false, not, ◌&&◌, ◌+◌, ◌<◌, ◌==◌, if◌then◌else◌, length, set,
  drop, replicate, All, length-append, length-replicate, ◌≡◌, ◌≢◌, inl, inr, Bool-cases, refl, sym,
  ap, ap₂, ◌∙◌, arith, ==_ne, ==_iff,
}
use mathlib.Core.List.{append_assoc}
use alma_os.Shell.{char_at, skip_spaces, skip_word, tokenize, up_to_nul, text_at}
use alma_os.Shell.Scans.{
  InWord, IsWord, char_at-append, drop-append, set-append, skip_spaces-stop, skip_spaces-append,
  skip_word-append,
}

up_to_nul-word : (w cs : List ℕ) → All InWord w → up_to_nul (w ++ (0 ∷ cs)) ≡ w
unfolding up_to_nul
up_to_nul-word [] cs a = refl
up_to_nul-word (c ∷ w) cs a = rw (==_ne c 0 a.0.0) (ap (λ r. c ∷ r) (up_to_nul-word w cs a.1))

pub tokenize-end :
    (slots : ℕ) (buf : List ℕ) (p : ℕ)
    → char_at buf (skip_spaces (length buf) buf p) ≡ 0
    → tokenize slots buf p ≡ ([], buf)
unfolding tokenize
tokenize-end zero buf p h = refl
tokenize-end (suc slots) buf p h = elim (Bool-cases (char_at buf p == 0)) [
  | inl t ↦ rw t refl
  | inr f ↦ rw (f, (==_iff (char_at buf (skip_spaces (length buf) buf p)) 0).1 h) refl
]

-- What the tokenizer does at `p` where a word stands between `start` and `stop`.
tokenize-word :
    (slots : ℕ) (buf : List ℕ) (p start stop : ℕ)
    → skip_spaces (length buf) buf p ≡ start
    → skip_word (length buf) buf start ≡ stop
    → char_at buf p ≢ 0
    → char_at buf start ≢ 0
    → tokenize (suc slots) buf p ≡ (
        let at_end = char_at buf stop == 0 in
        let rest =
          tokenize slots
            (if at_end then buf else set buf stop 0)
            (if at_end then stop else stop + 1) in
        (start ∷ rest.0, rest.1))
unfolding tokenize
tokenize-word slots buf p start stop e f g h =
    rw (e, f, ==_ne (char_at buf p) 0 g, ==_ne (char_at buf start) 0 h) refl

pub length-line :
    (pre cs more : List ℕ) (k : ℕ)
    → length (pre ++ (replicate k b' ' ++ (cs ++ more))) ≡ length pre + k + length cs + length more
length-line pre cs more k = omega (
  arith,
  length-append pre (replicate k b' ' ++ (cs ++ more)),
  length-append (replicate k b' ') (cs ++ more),
  length-append cs more,
  length-replicate {A = ℕ} k b' ',
)

-- The same line, cut before the word and behind it.
pub before_word :
    (pre cs more : List ℕ) (k : ℕ)
    → pre ++ (replicate k b' ' ++ (cs ++ more)) ≡ (pre ++ replicate k b' ') ++ (cs ++ more)
before_word pre cs more k = sym (append_assoc pre (replicate k b' ') (cs ++ more))

pub after_word :
    (pre cs more : List ℕ) (k : ℕ)
    → pre ++ (replicate k b' ' ++ (cs ++ more)) ≡ ((pre ++ replicate k b' ') ++ cs) ++ more
after_word pre cs more k =
    before_word pre cs more k ∙ sym (append_assoc (pre ++ replicate k b' ') cs more)

pub length-before : (pre : List ℕ) (k : ℕ) → length (pre ++ replicate k b' ') ≡ length pre + k
length-before pre k =
    omega (arith, length-append pre (replicate k b' '), length-replicate {A = ℕ} k b' ')

length-after :
    (pre cs : List ℕ) (k : ℕ)
    → length ((pre ++ replicate k b' ') ++ cs) ≡ length pre + k + length cs
length-after pre cs k =
    omega (arith, length-append (pre ++ replicate k b' ') cs, length-before pre k)

pub char_at-cut :
    {buf : List ℕ} {i : ℕ} (front cs : List ℕ)
    → buf ≡ front ++ cs
    → i ≡ length front
    → char_at buf i ≡ char_at cs 0
char_at-cut front cs e f = ap₂ char_at e f ∙ char_at-append front cs

first-nonzero :
    (k : ℕ) (cs more : List ℕ) → IsWord cs → char_at (replicate k b' ' ++ (cs ++ more)) 0 ≢ 0
first-nonzero zero [] more h = absurd (omega (arith, h.1))
first-nonzero zero (c ∷ cs) more h = h.0.0.0
first-nonzero (suc k) cs more h = omega arith

first-InWord : (cs more : List ℕ) → IsWord cs → InWord (char_at (cs ++ more) 0)
first-InWord [] more h = absurd (omega (arith, h.1))
first-InWord (c ∷ cs) more h = h.0.0

-- Nothing that goes on a word.
abbrev Stops : List ℕ → Type 0
Stops more = (not (char_at more 0 == 0) && not (char_at more 0 == b' ')) ≡ false

pub after_token : ℕ → List ℕ → ℕ → List ℕ × List ℕ
after_token slots buf stop =
    let at_end = char_at buf stop == 0 in
    tokenize slots (if at_end then buf else set buf stop 0) (if at_end then stop else stop + 1)

pub tokenize-step :
    (slots : ℕ) (pre cs more : List ℕ) (k : ℕ)
    → IsWord cs
    → Stops more
    → 0 < length more
    → let buf = pre ++ (replicate k b' ' ++ (cs ++ more)) in
      let rest = after_token slots buf (length pre + k + length cs) in
      tokenize (suc slots) buf (length pre) ≡ ((length pre + k) ∷ rest.0, rest.1)
unfolding after_token
tokenize-step slots pre cs more k h stop some_more =
    let buf = pre ++ (replicate k b' ' ++ (cs ++ more)) in
    tokenize-word slots buf (length pre) (length pre + k) (length pre + k + length cs)
      (skip_spaces-append k (length buf) pre (cs ++ more)
        (omega (arith, length-line pre cs more k, h.1)) (first-InWord cs more h).1)
      (ap₂ (skip_word (length buf)) (before_word pre cs more k) (sym (length-before pre k))
        ∙ skip_word-append cs (length buf) (pre ++ replicate k b' ') more
            (omega (arith, length-line pre cs more k, some_more)) h.0 stop
        ∙ ap (λ n. n + length cs) (length-before pre k))
      (λ e.
        first-nonzero k cs more h (sym (char_at-append pre (replicate k b' ' ++ (cs ++ more))) ∙ e))
      (λ e. (first-InWord cs more h).0 (
        sym (
          char_at-cut (pre ++ replicate k b' ') (cs ++ more) (before_word pre cs more k)
            (sym (length-before pre k)))
        ∙ e))

-- The word is a C string once a NUL is behind it.
pub text_at-word :
    (pre cs more : List ℕ) (k : ℕ)
    → All InWord cs
    → text_at (pre ++ (replicate k b' ' ++ (cs ++ (0 ∷ more)))) (length pre + k) ≡ cs
text_at-word pre cs more k a =
    ap₂ (λ b i. up_to_nul (drop i b)) (before_word pre cs (0 ∷ more) k) (sym (length-before pre k))
    ∙ ap up_to_nul (drop-append (pre ++ replicate k b' ') (cs ++ (0 ∷ more)))
    ∙ up_to_nul-word cs more a

-- At the end of the line.
pub after_token-end :
    (slots : ℕ) (pre cs junk : List ℕ) (k : ℕ)
    → let buf = pre ++ (replicate k b' ' ++ (cs ++ (0 ∷ junk))) in
      after_token slots buf (length pre + k + length cs) ≡ ([], buf)
unfolding after_token skip_spaces
after_token-end slots pre cs junk k =
    let buf = pre ++ (replicate k b' ' ++ (cs ++ (0 ∷ junk))) in
    let stop = length pre + k + length cs in
    let nul : char_at buf stop ≡ 0 =
      char_at-cut ((pre ++ replicate k b' ') ++ cs) (0 ∷ junk) (after_word pre cs (0 ∷ junk) k)
        (sym (length-after pre cs k)) in
    rw ((==_iff (char_at buf stop) 0).1 nul)
      (tokenize-end slots buf stop (stays (length buf) buf stop nul))
  where
    stays :
        (fuel : ℕ) (buf : List ℕ) (p : ℕ)
        → char_at buf p ≡ 0
        → char_at buf (skip_spaces fuel buf p) ≡ 0
    stays zero buf p e = e
    stays (suc fuel) buf p e =
        rw (skip_spaces-stop fuel buf p (λ b. absurd (omega (arith, e, b)))) e

-- At a blank: it becomes a NUL, and the tokenizer goes on behind it.
pub after_token-blank :
    (slots : ℕ) (pre cs more : List ℕ) (k : ℕ)
    → let front = ((pre ++ replicate k b' ') ++ cs) ++ (0 ∷ []) in
      after_token slots
        (pre ++ (replicate k b' ' ++ (cs ++ (b' ' ∷ more))))
        (length pre + k + length cs)
      ≡ tokenize slots (front ++ more) (length front)
unfolding after_token
after_token-blank slots pre cs more k =
    let word_end = (pre ++ replicate k b' ') ++ cs in
    let buf = pre ++ (replicate k b' ' ++ (cs ++ (b' ' ∷ more))) in
    let stop = length pre + k + length cs in
    let blank : char_at buf stop ≡ b' ' =
      char_at-cut word_end (b' ' ∷ more) (after_word pre cs (b' ' ∷ more) k)
        (sym (length-after pre cs k)) in
    rw (==_ne (char_at buf stop) 0 (λ e. absurd (omega (arith, e, blank)))) (
      ap₂ (tokenize slots)
        (ap₂ (λ b i. set b i 0) (after_word pre cs (b' ' ∷ more) k) (sym (length-after pre cs k))
          ∙ set-append word_end more b' ' 0
          ∙ sym (append_assoc word_end (0 ∷ []) more))
        (omega (arith, length-append word_end (0 ∷ []), length-after pre cs k)))
