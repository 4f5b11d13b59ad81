-- ===== src/Shell/Words.antt =====
-- The tokenizer of src/kernel/shell.c: a line of words with any blanks between them comes apart into
-- the words, as C strings in the same buffer.
use alma_os.Base.{
  ℕ, zero, suc, List, [], ◌∷◌, ◌++◌, ◌+◌, ◌-◌, ◌<◌, length, take, map, replicate, All, ◌≡◌, ◌⊎◌,
  inl, inr, refl, sym, ap, ap₂, ◌∙◌, arith,
}
use mathlib.Core.Path.{subst}
use mathlib.Core.List.{append_assoc}
use alma_os.Shell.{char_at, skip_spaces, tokenize, text_at, arguments}
use alma_os.Shell.Scans.{InWord, Spaced, IsWord, spelled, Between, words, skip_spaces-append}
use alma_os.Shell.Tokens.{
  tokenize-end, length-line, before_word, after_word, length-before, char_at-cut, tokenize-step,
  text_at-word, after_token-end, after_token-blank,
}

replicate-pos : (k : ℕ) → 0 < k → replicate {A = ℕ} k b' ' ≡ b' ' ∷ replicate (k - 1) b' '
replicate-pos zero h = absurd (omega (arith, h))
replicate-pos (suc k) h = ap (λ m. b' ' ∷ replicate {A = ℕ} m b' ') (omega arith)

AllWords : List Spaced → Type 0
AllWords ws = All (λ w. IsWord w.word) ws

-- Behind a word the line ends, or goes on with a blank and a line of the same words.
next_blank :
    (ws : List Spaced) (n : ℕ)
    → AllWords ws
    → All (λ v. 0 < v.blanks) ws
    → ((spelled ws n ≡ []) × (ws ≡ []))
      ⊎ ((ws' : List Spaced) × (n' : ℕ) × (spelled ws n ≡ b' ' ∷ spelled ws' n')
          × (words ws' ≡ words ws)
          × AllWords ws'
          × Between ws')
unfolding AllWords
next_blank [] zero a b = inl (refl, refl)
next_blank [] (suc n) a b = inr ([], n, refl, refl, record {}, record {})
next_blank (w ∷ ws) n a b = inr (
  record w { blanks = w.blanks - 1 } ∷ ws,
  n,
  ap (λ r. r ++ (w.word ++ spelled ws n)) (replicate-pos w.blanks b.0),
  refl,
  a,
  b.1,
)

-- The tokenizer from the end of `pre` on leaves what is before it, and finds the texts.
Cut : List ℕ → List (List ℕ) → List ℕ × List ℕ → Type 0
Cut pre texts r =
    (post : List ℕ) × (r.1 ≡ pre ++ post) × (map (λ i. text_at (pre ++ post) i) r.0 ≡ texts)

Cut-word :
    (pre cs more : List ℕ) (k : ℕ) (texts : List (List ℕ)) (r : List ℕ × List ℕ)
    → All InWord cs
    → Cut (((pre ++ replicate k b' ') ++ cs) ++ (0 ∷ [])) texts r
    → Cut pre (cs ∷ texts) ((length pre + k) ∷ r.0, r.1)
unfolding Cut
Cut-word pre cs more k texts r a (post, same, found) =
    let joined : (((pre ++ replicate k b' ') ++ cs) ++ (0 ∷ [])) ++ post
        ≡ pre ++ (replicate k b' ' ++ (cs ++ (0 ∷ post))) =
      append_assoc ((pre ++ replicate k b' ') ++ cs) (0 ∷ []) post
      ∙ sym (after_word pre cs (0 ∷ post) k) in
    (
      replicate k b' ' ++ (cs ++ (0 ∷ post)),
      same ∙ joined,
      ap₂ (λ t ts. t ∷ ts) (text_at-word pre cs post k a)
          (ap (λ b. map (λ i. text_at b i) r.0) (sym joined) ∙ found),
    )

Cut-end :
    (slots : ℕ) (pre junk : List ℕ) (n : ℕ)
    → Cut pre [] (tokenize slots (pre ++ (replicate n b' ' ++ (0 ∷ junk))) (length pre))
unfolding Cut
Cut-end slots pre junk n =
    let buf = pre ++ (replicate n b' ' ++ (0 ∷ junk)) in
    let at_end : skip_spaces (length buf) buf (length pre) ≡ length pre + n =
      skip_spaces-append n (length buf) pre (0 ∷ junk)
        (omega (arith, length-line pre [] (0 ∷ junk) n)) (λ e. absurd (omega (arith, e))) in
    let nul : char_at buf (skip_spaces (length buf) buf (length pre)) ≡ 0 =
      char_at-cut (pre ++ replicate n b' ') (0 ∷ junk) (before_word pre [] (0 ∷ junk) n)
        (at_end ∙ sym (length-before pre n)) in
    rw (tokenize-end slots buf (length pre) nul) (replicate n b' ' ++ (0 ∷ junk), refl, refl)

tokenize-none : (buf : List ℕ) (p : ℕ) → tokenize 0 buf p ≡ ([], buf)
unfolding tokenize
tokenize-none buf p = refl

Cut-none : (pre text : List ℕ) → Cut pre [] (tokenize 0 (pre ++ text) (length pre))
unfolding Cut
Cut-none pre text = rw (tokenize-none (pre ++ text) (length pre)) (text, refl, refl)

-- The last word of a line.
Cut-last :
    (slots : ℕ) (pre cs junk : List ℕ) (k : ℕ)
    → IsWord cs
    → Cut pre
        (cs ∷ [])
        (tokenize (suc slots) (pre ++ (replicate k b' ' ++ (cs ++ (0 ∷ junk)))) (length pre))
unfolding Cut
Cut-last slots pre cs junk k h =
    rw
      (
        tokenize-step slots pre cs (0 ∷ junk) k h refl (omega arith),
        after_token-end slots pre cs junk k,
      )
      (
        replicate k b' ' ++ (cs ++ (0 ∷ junk)),
        refl,
        ap (λ t. t ∷ []) (text_at-word pre cs junk k h.0),
      )

-- A word with more of the line behind it.
Cut-on :
    (slots : ℕ) (pre cs more : List ℕ) (k : ℕ) (texts : List (List ℕ))
    → IsWord cs
    → (let front = ((pre ++ replicate k b' ') ++ cs) ++ (0 ∷ []) in
        Cut front texts (tokenize slots (front ++ more) (length front)))
    → Cut pre
        (cs ∷ texts)
        (tokenize (suc slots) (pre ++ (replicate k b' ' ++ (cs ++ (b' ' ∷ more)))) (length pre))
Cut-on slots pre cs more k texts h cut =
    rw
      (
        tokenize-step slots pre cs (b' ' ∷ more) k h refl (omega arith),
        after_token-blank slots pre cs more k,
      )
      (Cut-word pre cs more k texts _ h.0 cut)

spelled-tail :
    (pre cs text junk : List ℕ) (k : ℕ)
    → pre ++ ((replicate k b' ' ++ (cs ++ text)) ++ junk)
      ≡ pre ++ (replicate k b' ' ++ (cs ++ (text ++ junk)))
spelled-tail pre cs text junk k =
    ap (λ r. pre ++ r)
      (append_assoc (replicate k b' ') (cs ++ text) junk
        ∙ ap (λ r. replicate k b' ' ++ r) (append_assoc cs text junk))

take-nil : (n : ℕ) → take {A = List ℕ} n [] ≡ []
take-nil zero = refl
take-nil (suc n) = refl

tokenize-spelled :
    (slots : ℕ) (pre : List ℕ) (ws : List Spaced) (n : ℕ) (junk : List ℕ)
    → AllWords ws
    → Between ws
    → Cut pre
        (take slots (words ws))
        (tokenize slots (pre ++ (spelled ws n ++ (0 ∷ junk))) (length pre))
unfolding AllWords
tokenize-spelled zero pre ws n junk a b = Cut-none pre (spelled ws n ++ (0 ∷ junk))
tokenize-spelled (suc slots) pre [] n junk a b = Cut-end (suc slots) pre junk n
tokenize-spelled (suc slots) pre (w ∷ ws) n junk a b = elim (next_blank ws n a.1 b) [
  | inl (e, none_left) ↦
      subst (λ (r : List (List ℕ) × List ℕ). Cut pre r.0 (tokenize (suc slots) r.1 (length pre)))
        (ap₂ (λ ts r. (w.word ∷ ts, r))
          (sym (take-nil slots) ∙ ap (λ v. take slots (words v)) (sym none_left))
          (ap (λ r. pre ++ (replicate w.blanks b' ' ++ (w.word ++ (r ++ (0 ∷ junk))))) (sym e)
            ∙ sym (spelled-tail pre w.word (spelled ws n) (0 ∷ junk) w.blanks)))
        (Cut-last slots pre w.word junk w.blanks a.0)
  | inr (ws', n', e, same, a', b') ↦
      subst (λ (r : List (List ℕ) × List ℕ). Cut pre r.0 (tokenize (suc slots) r.1 (length pre)))
        (ap₂ (λ ts r. (w.word ∷ ts, r)) (ap (take slots) same)
          (ap (λ r. pre ++ (replicate w.blanks b' ' ++ (w.word ++ (r ++ (0 ∷ junk))))) (sym e)
            ∙ sym (spelled-tail pre w.word (spelled ws n) (0 ∷ junk) w.blanks)))
        (Cut-on slots pre w.word (spelled ws' n' ++ (0 ∷ junk)) w.blanks (take slots (words ws'))
          a.0
          (tokenize-spelled slots (((pre ++ replicate w.blanks b' ') ++ w.word) ++ (0 ∷ [])) ws' n'
            junk a' b'))
]

-- Whatever blanks stand before, between and behind the words of a command line that ends in a NUL,
-- the arguments are the words, the first 16 of them.
pub arguments-words :
    (ws : List Spaced) (n : ℕ) (junk : List ℕ)
    → All (λ w. IsWord w.word) ws
    → Between ws
    → arguments (spelled ws n ++ (0 ∷ junk)) ≡ take 16 (words ws)
unfolding arguments AllWords Cut
arguments-words ws n junk a b =
    let (post, same, found) = tokenize-spelled 16 [] ws n junk a b in
    ap (λ buf. map (λ i. text_at buf i) (tokenize 16 (spelled ws n ++ (0 ∷ junk)) 0).0) same ∙ found
