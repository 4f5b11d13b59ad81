-- ===== src/CString/Texts.antt =====
-- `strlen`, `strcmp` and `strncmp` of src/kernel/string.c on terminated texts.
use alma_os.Base.{
  ℕ, zero, suc, List, [], ◌∷◌, Option, some, ◌+◌, ◌<◌, ◌==◌, if◌then◌else◌, ◌≡◌, ◌≢◌, ◌↔◌, ◌⊎◌,
  refl, ap, ap₂, ◌∙◌, sym, arith, length, take, Bool-cases, inl, inr, ==_iff, ==_ne,
}
use native.Mathlib.Nat.{add_assoc, add-zero}
use native.Mathlib.Decide.{ℕ_discrete}
use alma_os.Base.Int.{ℤ, pos, sub_ℕ, sub_ℕ-zero}
use alma_os.CString.{Memory, strlen_from, strlen, strcmp, strncmp}

-- The text stands at the address, followed by its terminator, and has no 0 inside.
abbrev pub IsText : Memory → ℕ → List ℕ → Type 0
IsText m s [] = m s ≡ 0
IsText m s (c ∷ cs) = (m s ≡ c) × (c ≢ 0) × IsText m (s + 1) cs

strlen_from-zero :
    (f : ℕ) (m : Memory) (s len : ℕ) → m (s + len) ≡ 0 → strlen_from (suc f) m s len ≡ some len
unfolding strlen_from
strlen_from-zero f m s len h = rw ((==_iff _ _).1 h)

strlen_from-next :
    (f : ℕ) (m : Memory) (s len : ℕ)
    → m (s + len) ≢ 0
    → strlen_from (suc f) m s len ≡ strlen_from f m s (len + 1)
unfolding strlen_from
strlen_from-next f m s len h = rw (==_ne _ _ h)

strlen_from-IsText :
    (fuel : ℕ) (m : Memory) (s len : ℕ) (cs : List ℕ)
    → IsText m (s + len) cs
    → length cs < fuel
    → strlen_from fuel m s len ≡ some (len + length cs)
strlen_from-IsText zero m s len cs t h = absurd (omega arith)
strlen_from-IsText (suc f) m s len [] t h = strlen_from-zero f m s len t ∙ ap some (omega arith)
strlen_from-IsText (suc f) m s len (c ∷ cs) t h =
    strlen_from-next f m s len (λ e. t.1 (sym t.0 ∙ e))
    ∙ strlen_from-IsText f m s (len + 1) cs (rw (← add_assoc s len 1) t.2) (omega arith)
    ∙ ap some (omega arith)

-- `strlen` finds the length of a text, given more fuel than it has characters.
pub strlen-IsText :
    (fuel : ℕ) (m : Memory) (s : ℕ) (cs : List ℕ)
    → IsText m s cs
    → length cs < fuel
    → strlen fuel m s ≡ some (length cs)
unfolding strlen
strlen-IsText fuel m s cs t h =
    strlen_from-IsText fuel m s 0 cs (rw add-zero t) h ∙ ap some (omega arith)

-- The difference of the first characters that differ, a text that ends counting as a 0.
unfoldable pub differ : List ℕ → List ℕ → ℤ
differ [] [] = pos 0
differ [] (d ∷ ds) = sub_ℕ 0 d
differ (c ∷ cs) [] = sub_ℕ c 0
differ (c ∷ cs) (d ∷ ds) = if c == d then differ cs ds else sub_ℕ c d

differ-same : (c d : ℕ) (cs ds : List ℕ) → c ≡ d → differ (c ∷ cs) (d ∷ ds) ≡ differ cs ds
unfolding differ
differ-same c d cs ds h = rw ((==_iff c d).1 h)

differ-other : (c d : ℕ) (cs ds : List ℕ) → c ≢ d → differ (c ∷ cs) (d ∷ ds) ≡ sub_ℕ c d
unfolding differ
differ-other c d cs ds h = rw (==_ne c d h)

-- One round of `strcmp`.
strcmp-stop :
    (f : ℕ) (m : Memory) (a b : ℕ)
    → (m a ≡ 0) ⊎ (m a ≢ m b)
    → strcmp (suc f) m a b ≡ some (sub_ℕ (m a) (m b))
unfolding strcmp
strcmp-stop f m a b (inl e) = rw ((==_iff _ _).1 e)
strcmp-stop f m a b (inr ne) = elim (Bool-cases (m a == 0)) [
  | inl z ↦ rw z refl
  | inr z ↦ rw (z, ==_ne _ _ ne) refl
]

strcmp-next :
    (f : ℕ) (m : Memory) (a b : ℕ)
    → m a ≢ 0
    → m a ≡ m b
    → strcmp (suc f) m a b ≡ strcmp f m (a + 1) (b + 1)
unfolding strcmp
strcmp-next f m a b h e = rw (==_ne _ _ h, (==_iff (m a) (m b)).1 e) refl

first_bytes :
    {x y v w : ℕ} → v ≡ x → w ≡ y → ◌≡◌ {A = Option ℤ} (some (sub_ℕ v w)) (some (sub_ℕ x y))
first_bytes p q = ap₂ (λ x y. some (sub_ℕ x y)) p q

different : {x y v w : ℕ} → v ≡ x → w ≡ y → x ≢ y → v ≢ w
different p q ne e = ne (sym p ∙ e ∙ q)

strcmp-differ :
    (fuel : ℕ) (m : Memory) (a b : ℕ) (cs ds : List ℕ)
    → IsText m a cs
    → IsText m b ds
    → length cs < fuel
    → strcmp fuel m a b ≡ some (differ cs ds)
unfolding differ
strcmp-differ zero m a b cs ds t u h = absurd (omega arith)
strcmp-differ (suc f) m a b [] [] t u h = strcmp-stop f m a b (inl t) ∙ first_bytes t u
strcmp-differ (suc f) m a b [] (d ∷ ds) t u h = strcmp-stop f m a b (inl t) ∙ first_bytes t u.0
strcmp-differ (suc f) m a b (c ∷ cs) [] t u h =
    strcmp-stop f m a b (inr (different t.0 u t.1)) ∙ first_bytes t.0 u
strcmp-differ (suc f) m a b (c ∷ cs) (d ∷ ds) t u h = elim (ℕ_discrete c d) [
  | yes e ↦
      strcmp-next f m a b (λ z. t.1 (sym t.0 ∙ z)) (t.0 ∙ e ∙ sym u.0)
      ∙ strcmp-differ f m (a + 1) (b + 1) cs ds t.2 u.2 (omega arith)
      ∙ ap some (sym (differ-same c d cs ds e))
  | no ne ↦
      strcmp-stop f m a b (inr (different t.0 u.0 ne))
      ∙ first_bytes t.0 u.0
      ∙ ap some (sym (differ-other c d cs ds ne))
]

-- Texts have no 0 inside.
abbrev pub HasNoZero : List ℕ → Type 0
HasNoZero [] = Unit
HasNoZero (c ∷ cs) = (c ≢ 0) × HasNoZero cs

IsText-HasNoZero : (m : Memory) (s : ℕ) (cs : List ℕ) → IsText m s cs → HasNoZero cs
IsText-HasNoZero m s [] t = tt
IsText-HasNoZero m s (c ∷ cs) t = (t.1, IsText-HasNoZero m (s + 1) cs t.2)

pub differ-zero : (cs ds : List ℕ) → HasNoZero cs → HasNoZero ds → differ cs ds ≡ pos 0 → cs ≡ ds
unfolding differ
differ-zero [] [] p q h = refl
differ-zero [] (d ∷ ds) p q h = absurd (q.0 (sym ((sub_ℕ-zero 0 d).0 h)))
differ-zero (c ∷ cs) [] p q h = absurd (p.0 ((sub_ℕ-zero c 0).0 h))
differ-zero (c ∷ cs) (d ∷ ds) p q h = elim (ℕ_discrete c d) [
  | yes e ↦ ap₂ ◌∷◌ e (differ-zero cs ds p.1 q.1 (sym (differ-same c d cs ds e) ∙ h))
  | no ne ↦ absurd (ne ((sub_ℕ-zero c d).0 (sym (differ-other c d cs ds ne) ∙ h)))
]

pub differ_self : (cs : List ℕ) → differ cs cs ≡ pos 0
unfolding differ
differ_self [] = refl
differ_self (c ∷ cs) = differ-same c c cs cs refl ∙ differ_self cs

-- `strcmp` on two texts, with more fuel than the first has characters, returns the difference of
-- the first bytes at which they differ, and that is 0 exactly when the texts are the same.
pub strcmp-IsText :
    (fuel : ℕ) (m : Memory) (a b : ℕ) (cs ds : List ℕ)
    → IsText m a cs
    → IsText m b ds
    → length cs < fuel
    → (strcmp fuel m a b ≡ some (differ cs ds)) × ((differ cs ds ≡ pos 0) ↔ (cs ≡ ds))
strcmp-IsText fuel m a b cs ds t u h = (
  strcmp-differ fuel m a b cs ds t u h,
  (
    differ-zero cs ds (IsText-HasNoZero m a cs t) (IsText-HasNoZero m b ds u),
    λ e. ap (differ cs) (sym e) ∙ differ_self cs,
  ),
)

-- One round of `strncmp`.
strncmp-stop :
    (m : Memory) (a b n : ℕ) → (m a ≡ 0) ⊎ (m a ≢ m b) → strncmp m a b (suc n) ≡ sub_ℕ (m a) (m b)
unfolding strncmp
strncmp-stop m a b n (inl e) = rw ((==_iff _ _).1 e)
strncmp-stop m a b n (inr ne) = elim (Bool-cases (m a == 0)) [
  | inl z ↦ rw z refl
  | inr z ↦ rw (z, ==_ne _ _ ne) refl
]

strncmp-next :
    (m : Memory) (a b n : ℕ)
    → m a ≢ 0
    → m a ≡ m b
    → strncmp m a b (suc n) ≡ strncmp m (a + 1) (b + 1) n
unfolding strncmp
strncmp-next m a b n h e = rw (==_ne _ _ h, (==_iff (m a) (m b)).1 e) refl

-- `strncmp` on two texts compares their first `n` characters as `strcmp` would.
pub strncmp-take :
    (n : ℕ) (m : Memory) (a b : ℕ) (cs ds : List ℕ)
    → IsText m a cs
    → IsText m b ds
    → strncmp m a b n ≡ differ (take n cs) (take n ds)
unfolding differ strncmp
strncmp-take zero m a b cs ds t u = refl
strncmp-take (suc n) m a b [] [] t u = strncmp-stop m a b n (inl t) ∙ ap₂ sub_ℕ t u
strncmp-take (suc n) m a b [] (d ∷ ds) t u = strncmp-stop m a b n (inl t) ∙ ap₂ sub_ℕ t u.0
strncmp-take (suc n) m a b (c ∷ cs) [] t u =
    strncmp-stop m a b n (inr (different t.0 u t.1)) ∙ ap₂ sub_ℕ t.0 u
strncmp-take (suc n) m a b (c ∷ cs) (d ∷ ds) t u = elim (ℕ_discrete c d) [
  | yes e ↦
      strncmp-next m a b n (λ z. t.1 (sym t.0 ∙ z)) (t.0 ∙ e ∙ sym u.0)
      ∙ strncmp-take n m (a + 1) (b + 1) cs ds t.2 u.2
      ∙ sym (differ-same c d (take n cs) (take n ds) e)
  | no ne ↦
      strncmp-stop m a b n (inr (different t.0 u.0 ne))
      ∙ ap₂ sub_ℕ t.0 u.0
      ∙ sym (differ-other c d (take n cs) (take n ds) ne)
]
