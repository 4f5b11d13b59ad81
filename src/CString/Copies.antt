-- ===== src/CString/Copies.antt =====
-- What the copying routines of src/kernel/string.c leave in memory: every byte, inside the
-- destination and outside.
use alma_os.Base.{
  ℕ, zero, suc, ◌+◌, ◌<◌, ◌≤◌, u8, ◌≡◌, ◌≢◌, ◌↔◌, ◌⊎◌, refl, ap, ◌∙◌, sym, arith, ==_iff, ==_ne,
}
use native.Mathlib.Nat.{add-zero}
use native.Mathlib.Decide.{ℕ_discrete}
use alma_os.Base.Int.{pos, sub_ℕ-zero}
use alma_os.CString.{Memory, store, memcpy, memset, memcmp}

-- A copy from low to high addresses reads no byte that it has already overwritten: the destination
-- starts at or before the source, or after its end.
abbrev pub CopiesForward : ℕ → ℕ → ℕ → Type 0
CopiesForward dst src n = (dst ≤ src) ⊎ (src + n ≤ dst)

-- `m'` is `m` outside the `n` bytes at `dst`.
abbrev pub SameOutside : Memory → Memory → ℕ → ℕ → Type 0
SameOutside m m' dst n = (p : ℕ) → (p < dst) ⊎ (dst + n ≤ p) → m' p ≡ m p

pub store_self : (m : Memory) (p v : ℕ) → store m p v p ≡ v
store_self m p v = rw ((==_iff p p).1 refl)

pub store_ne : (m : Memory) (p q v : ℕ) → q ≢ p → store m p v q ≡ m q
store_ne m p q v h = rw (==_ne q p h)

memset-outside :
    (n : ℕ) (m : Memory) (dst val p : ℕ) → (p < dst) ⊎ (dst + n ≤ p) → memset m dst val n p ≡ m p
unfolding memset
memset-outside zero m dst val p h = refl
memset-outside (suc n) m dst val p h =
    memset-outside n (store m dst (u8 val)) (dst + 1) val p (omega arith)
    ∙ store_ne m dst p (u8 val) (omega arith)

memset-inside : (n : ℕ) (m : Memory) (dst val i : ℕ) → i < n → memset m dst val n (dst + i) ≡ u8 val
unfolding memset
memset-inside zero m dst val i h = absurd (omega arith)
memset-inside (suc n) m dst val zero h = rw add-zero (
    memset-outside n (store m dst (u8 val)) (dst + 1) val dst (omega arith)
    ∙ store_self m dst (u8 val))
memset-inside (suc n) m dst val (suc i) h =
    let e : dst + suc i ≡ dst + 1 + i = omega arith in
    rw e (memset-inside n (store m dst (u8 val)) (dst + 1) val i (omega arith))

memcpy-outside :
    (n : ℕ) (m : Memory) (dst src p : ℕ) → (p < dst) ⊎ (dst + n ≤ p) → memcpy m dst src n p ≡ m p
unfolding memcpy
memcpy-outside zero m dst src p h = refl
memcpy-outside (suc n) m dst src p h =
    memcpy-outside n (store m dst (m src)) (dst + 1) (src + 1) p (omega arith)
    ∙ store_ne m dst p (m src) (omega arith)

memcpy-inside :
    (n : ℕ) (m : Memory) (dst src i : ℕ)
    → CopiesForward dst src n
    → i < n
    → memcpy m dst src n (dst + i) ≡ m (src + i)
unfolding memcpy
memcpy-inside zero m dst src i d h = absurd (omega arith)
memcpy-inside (suc n) m dst src zero d h =
    rw (add-zero, add-zero)
      (memcpy-outside n (store m dst (m src)) (dst + 1) (src + 1) dst (omega arith)
        ∙ store_self m dst (m src))
memcpy-inside (suc n) m dst src (suc i) d h =
    let e : dst + suc i ≡ dst + 1 + i = omega arith in
    let e' : src + suc i ≡ src + 1 + i = omega arith in
    rw (e, e')
      (memcpy-inside n (store m dst (m src)) (dst + 1) (src + 1) i (omega arith) (omega arith)
        ∙ store_ne m dst (src + 1 + i) (m src) (omega arith))

-- `memset` puts the low byte of `val` at each of the `n` addresses from `dst` on, and changes no
-- other byte.
pub memset_lem :
    (n : ℕ) (m : Memory) (dst val : ℕ)
    → ((i : ℕ) → i < n → memset m dst val n (dst + i) ≡ u8 val)
      × SameOutside m (memset m dst val n) dst n
memset_lem n m dst val = (memset-inside n m dst val, memset-outside n m dst val)

-- `memcpy`, also between ranges that overlap with the destination first, moves the `n` bytes at
-- `src` as they were to `dst`, and changes no other byte.
pub memcpy_lem :
    (n : ℕ) (m : Memory) (dst src : ℕ)
    → CopiesForward dst src n
    → ((i : ℕ) → i < n → memcpy m dst src n (dst + i) ≡ m (src + i))
      × SameOutside m (memcpy m dst src n) dst n
memcpy_lem n m dst src d = (λ i. memcpy-inside n m dst src i d, memcpy-outside n m dst src)

pub step_at : (m : Memory) (a i : ℕ) → m (a + 1 + i) ≡ m (a + suc i)
step_at m a i = ap m (omega arith)

memcmp-zero_head :
    (n : ℕ) (m : Memory) (a b : ℕ)
    → memcmp m a b (suc n) ≡ pos 0
    → (m a ≡ m b) × (memcmp m (a + 1) (b + 1) n ≡ pos 0)
unfolding memcmp
memcmp-zero_head n m a b h = elim (ℕ_discrete (m a) (m b)) [
  | no ne ↦ absurd (ne ((sub_ℕ-zero (m a) (m b)).0 (rw (==_ne _ _ ne) at h)))
  | yes e ↦ (e, rw ((==_iff _ _).1 e) at h)
]

memcmp-zero_inside :
    (n : ℕ) (m : Memory) (a b i : ℕ) → memcmp m a b n ≡ pos 0 → i < n → m (a + i) ≡ m (b + i)
unfolding memcmp
memcmp-zero_inside zero m a b i h lt = absurd (omega arith)
memcmp-zero_inside (suc n) m a b zero h lt =
    ap m (omega arith) ∙ (memcmp-zero_head n m a b h).0 ∙ ap m (omega arith)
memcmp-zero_inside (suc n) m a b (suc i) h lt =
    sym (step_at m a i)
    ∙ memcmp-zero_inside n m (a + 1) (b + 1) i (memcmp-zero_head n m a b h).1 (omega arith)
    ∙ step_at m b i

memcmp-same :
    (n : ℕ) (m : Memory) (a b : ℕ)
    → ((i : ℕ) → i < n → m (a + i) ≡ m (b + i))
    → memcmp m a b n ≡ pos 0
unfolding memcmp
memcmp-same zero m a b h = refl
memcmp-same (suc n) m a b h =
    let e : m a ≡ m b = ap m (omega arith) ∙ h 0 (omega arith) ∙ ap m (omega arith) in
    rw ((==_iff (m a) (m b)).1 e) (
      memcmp-same n m (a + 1) (b + 1)
        (λ i lt. step_at m a i ∙ h (suc i) (omega arith) ∙ sym (step_at m b i)))

-- `memcmp` returns 0 exactly when the `n` bytes at `a` are those at `b`.
pub memcmp-zero :
    (n : ℕ) (m : Memory) (a b : ℕ)
    → (memcmp m a b n ≡ pos 0) ↔ ((i : ℕ) → i < n → m (a + i) ≡ m (b + i))
memcmp-zero n m a b = (λ h i. memcmp-zero_inside n m a b i h, memcmp-same n m a b)
