-- ===== src/CString/TextCopies.antt =====
-- What `strcpy` and `strncpy` of src/kernel/string.c make of a terminated text.
use alma_os.Base.{
  ℕ, zero, suc, List, [], ◌∷◌, Option, some, ◌+◌, ◌<◌, ◌≤◌, ◌≡◌, ◌≢◌, ◌⊎◌, refl, ◌∙◌, sym, arith,
  length, get_or, ==_iff, ==_ne,
}
use native.Mathlib.Nat.{add-zero}
use native.Mathlib.Decide.{ℕ_discrete}
use alma_os.CString.{Memory, store, strcpy, strncpy, fill_zero}
use alma_os.CString.Texts.{IsText}
use alma_os.CString.Copies.{CopiesForward, SameOutside, store_self, store_ne, step_at}

IsText-store :
    (m : Memory) (s p v : ℕ) (cs : List ℕ)
    → (p < s) ⊎ (s + length cs < p)
    → IsText m s cs
    → IsText (store m p v) s cs
IsText-store m s p v [] h t = store_ne m p s v (omega arith) ∙ t
IsText-store m s p v (c ∷ cs) h t =
    (store_ne m p s v (omega arith) ∙ t.0, t.1, IsText-store m (s + 1) p v cs (omega arith) t.2)

-- What `strcpy` promises of its result.
record IsCopied (m : Memory) (dst : ℕ) (cs : List ℕ) (result : Option Memory) : Type 0 where
  out : Memory
  returns : result ≡ some out
  text : IsText out dst cs
  outside : SameOutside m out dst (length cs + 1)

strcpy-stop :
    (f : ℕ) (m : Memory) (dst src : ℕ)
    → m src ≡ 0
    → strcpy (suc f) m dst src ≡ some (store m dst (m src))
unfolding strcpy
strcpy-stop f m dst src h = rw ((==_iff (m src) 0).1 h)

strcpy-next :
    (f : ℕ) (m : Memory) (dst src : ℕ)
    → m src ≢ 0
    → strcpy (suc f) m dst src ≡ strcpy f (store m dst (m src)) (dst + 1) (src + 1)
unfolding strcpy
strcpy-next f m dst src h = rw (==_ne (m src) 0 h)

strcpy-IsCopied :
    (fuel : ℕ) (m : Memory) (dst src : ℕ) (cs : List ℕ)
    → IsText m src cs
    → CopiesForward dst src (length cs + 1)
    → length cs < fuel
    → IsCopied m dst cs (strcpy fuel m dst src)
strcpy-IsCopied zero m dst src cs t d h = absurd (omega arith)
strcpy-IsCopied (suc f) m dst src [] t d h = record {
  out = store m dst (m src);
  returns = strcpy-stop f m dst src t;
  text = store_self m dst (m src) ∙ t;
  outside = λ p q. store_ne m dst p (m src) (omega arith);
}
strcpy-IsCopied (suc f) m dst src (c ∷ cs) t d h =
    let m1 = store m dst (m src) in
    let rest =
      strcpy-IsCopied f m1 (dst + 1) (src + 1) cs
        (IsText-store m (src + 1) dst (m src) cs (omega arith) t.2) (omega arith) (omega arith) in
    record {
      out = rest.out;
      returns = strcpy-next f m dst src (λ e. t.1 (sym t.0 ∙ e)) ∙ rest.returns;
      text = (rest.outside dst (omega arith) ∙ store_self m dst (m src) ∙ t.0, t.1, rest.text);
      outside = λ p q. rest.outside p (omega arith) ∙ store_ne m dst p (m src) (omega arith);
    }

-- `strcpy` of a text, with more fuel than it has characters, to a place from which it copies
-- forward, ends with the text at `dst`, terminator included, and changes no byte outside.
pub strcpy_lem :
    (fuel : ℕ) (m : Memory) (dst src : ℕ) (cs : List ℕ)
    → IsText m src cs
    → CopiesForward dst src (length cs + 1)
    → length cs < fuel
    → (m' : Memory) × (strcpy fuel m dst src ≡ some m')
      × IsText m' dst cs
      × SameOutside m m' dst (length cs + 1)
strcpy_lem fuel m dst src cs t d h =
    let r = strcpy-IsCopied fuel m dst src cs t d h in (r.out, r.returns, r.text, r.outside)

fill_zero-outside :
    (n : ℕ) (m : Memory) (dst p : ℕ) → (p < dst) ⊎ (dst + n ≤ p) → fill_zero m dst n p ≡ m p
unfolding fill_zero
fill_zero-outside zero m dst p h = refl
fill_zero-outside (suc n) m dst p h =
    fill_zero-outside n (store m dst 0) (dst + 1) p (omega arith) ∙ store_ne m dst p 0 (omega arith)

fill_zero-inside : (n : ℕ) (m : Memory) (dst i : ℕ) → i < n → fill_zero m dst n (dst + i) ≡ 0
unfolding fill_zero
fill_zero-inside zero m dst i h = absurd (omega arith)
fill_zero-inside (suc n) m dst zero h =
    rw add-zero
      (fill_zero-outside n (store m dst 0) (dst + 1) dst (omega arith) ∙ store_self m dst 0)
fill_zero-inside (suc n) m dst (suc i) h =
    sym (step_at (fill_zero (store m dst 0) (dst + 1) n) dst i)
    ∙ fill_zero-inside n (store m dst 0) (dst + 1) i (omega arith)

strncpy-stop :
    (n : ℕ) (m : Memory) (dst src : ℕ) → m src ≡ 0 → strncpy m dst src n ≡ fill_zero m dst n
unfolding strncpy fill_zero
strncpy-stop zero m dst src h = refl
strncpy-stop (suc n) m dst src h = rw ((==_iff (m src) 0).1 h)

strncpy-next :
    (n : ℕ) (m : Memory) (dst src : ℕ)
    → m src ≢ 0
    → strncpy m dst src (suc n) ≡ strncpy (store m dst (m src)) (dst + 1) (src + 1) n
unfolding strncpy
strncpy-next n m dst src h = rw (==_ne (m src) 0 h)

strncpy-outside :
    (n : ℕ) (m : Memory) (dst src p : ℕ) → (p < dst) ⊎ (dst + n ≤ p) → strncpy m dst src n p ≡ m p
unfolding strncpy
strncpy-outside zero m dst src p h = refl
strncpy-outside (suc n) m dst src p h = elim (ℕ_discrete (m src) 0) [
  | yes e ↦ rw ((==_iff (m src) 0).1 e) (fill_zero-outside (suc n) m dst p h)
  | no ne ↦ rw (==_ne (m src) 0 ne) (
      strncpy-outside n (store m dst (m src)) (dst + 1) (src + 1) p (omega arith)
      ∙ store_ne m dst p (m src) (omega arith))
]

strncpy-inside :
    (n : ℕ) (m : Memory) (dst src i : ℕ) (cs : List ℕ)
    → IsText m src cs
    → CopiesForward dst src (length cs + 1)
    → i < n
    → strncpy m dst src n (dst + i) ≡ get_or cs i 0
strncpy-inside n m dst src i [] t d h =
    rw (strncpy-stop n m dst src t) (fill_zero-inside n m dst i h)
strncpy-inside zero m dst src i (c ∷ cs) t d h = absurd (omega arith)
strncpy-inside (suc n) m dst src zero (c ∷ cs) t d h =
    rw (strncpy-next n m dst src (λ e. t.1 (sym t.0 ∙ e)), add-zero)
      (strncpy-outside n (store m dst (m src)) (dst + 1) (src + 1) dst (omega arith)
        ∙ store_self m dst (m src)
        ∙ t.0)
strncpy-inside (suc n) m dst src (suc i) (c ∷ cs) t d h =
    rw (strncpy-next n m dst src (λ e. t.1 (sym t.0 ∙ e))) (
      sym (step_at (strncpy (store m dst (m src)) (dst + 1) (src + 1) n) dst i)
      ∙ strncpy-inside n (store m dst (m src)) (dst + 1) (src + 1) i cs
          (IsText-store m (src + 1) dst (m src) cs (omega arith) t.2) (omega arith) (omega arith))

-- `strncpy` writes exactly `n` bytes: the characters of the text, then zeros up to `n`, so that a
-- text of `n` characters or more is left without a terminator; no byte outside changes.
pub strncpy_lem :
    (n : ℕ) (m : Memory) (dst src : ℕ) (cs : List ℕ)
    → IsText m src cs
    → CopiesForward dst src (length cs + 1)
    → ((i : ℕ) → i < n → strncpy m dst src n (dst + i) ≡ get_or cs i 0)
      × SameOutside m (strncpy m dst src n) dst n
strncpy_lem n m dst src cs t d =
    (λ i h. strncpy-inside n m dst src i cs t d h, strncpy-outside n m dst src)
