-- ===== src/VideoCommands/Summary.antt =====
-- The summary of the framebuffer in src/kernel/cmd_video.c: what `covered` and `seen` count.
use alma_os.Base.{
  ℕ, List, [], ◌∷◌, ◌++◌, true, false, ◌+◌, ◌<◌, ◌≤◌, ◌==◌, ==_iff, ==_ne, ltb, if◌then◌else◌, u32,
  length, length-append, All, ◌≡◌, ◌≢◌, inl, inr, refl, sym, arith, Bool-cases,
}
use mathlib.Core.List.{append-nil, append_assoc}
use mathlib.Core.Path.{subst}
use alma_os.VideoCommands.{Tally, is_seen, tally_pixel, tally}

-- The pixels that differ from the background.
unfoldable pub others : ℕ → List ℕ → List ℕ
others background [] = []
others background (p ∷ ps) =
    if p == background then others background ps else p ∷ others background ps

-- No member twice.
abbrev pub AreDistinct : List ℕ → Type 0
AreDistinct [] = Unit
AreDistinct (s ∷ seen) = (is_seen seen s ≡ false) × AreDistinct seen

is_seen-append :
    (seen more : List ℕ) (q : ℕ) → is_seen seen q ≡ true → is_seen (seen ++ more) q ≡ true
unfolding is_seen
is_seen-append [] more q h = absurd (ground arith)
is_seen-append (s ∷ seen) more q h = elim (Bool-cases (s == q)) [
  | inl e ↦ rw e refl
  | inr e ↦ rw e (is_seen-append seen more q (rw e at h))
]

is_seen-last : (seen : List ℕ) (q : ℕ) → is_seen (seen ++ (q ∷ [])) q ≡ true
unfolding is_seen
is_seen-last [] q = rw ((==_iff q q).1 refl) refl
is_seen-last (s ∷ seen) q = elim (Bool-cases (s == q)) [
  | inl e ↦ rw e refl
  | inr e ↦ rw e (is_seen-last seen q)
]

is_seen-other :
    (seen : List ℕ) (q s : ℕ)
    → is_seen seen s ≡ false
    → s ≢ q
    → is_seen (seen ++ (q ∷ [])) s ≡ false
unfolding is_seen
is_seen-other [] q s h ne = rw (==_ne q s (λ e. ne (sym e))) refl
is_seen-other (t ∷ seen) q s h ne = elim (Bool-cases (t == s)) [
  | inl e ↦ absurd (ground arith)
  | inr e ↦ rw e (is_seen-other seen q s (rw e at h) ne)
]

AreDistinct-snoc :
    (seen : List ℕ) (q : ℕ)
    → AreDistinct seen
    → is_seen seen q ≡ false
    → AreDistinct (seen ++ (q ∷ []))
unfolding is_seen
AreDistinct-snoc [] q d h = (refl, record {})
AreDistinct-snoc (s ∷ seen) q d h = elim (Bool-cases (s == q)) [
  | inl e ↦ absurd (ground arith)
  | inr e ↦
      let ne : s ≢ q = ground arith in
      (is_seen-other seen q s d.0 ne, AreDistinct-snoc seen q d.1 (rw e at h))
]

-- A summary of some values: how many there are, and up to 16 of them, each once; as long as there
-- are fewer than 16, none is missing.
pub record IsSummary (values : List ℕ) (t : Tally) : Type 0 where
  pub counts : t.covered ≡ u32 (length values)
  pub distinct : AreDistinct t.seen
  pub up_to_16 : length t.seen ≤ 16
  pub from_values : All (λ s. is_seen values s ≡ true) t.seen
  pub complete : length t.seen < 16 → All (λ p. is_seen t.seen p ≡ true) values

All-is_seen-append :
    (values more : List ℕ) (seen : List ℕ)
    → All (λ s. is_seen values s ≡ true) seen
    → All (λ s. is_seen (values ++ more) s ≡ true) seen
All-is_seen-append values more [] h = h
All-is_seen-append values more (s ∷ seen) h =
    (is_seen-append values more s h.0, All-is_seen-append values more seen h.1)

All-snoc : (P : ℕ → Type 0) (xs : List ℕ) (x : ℕ) → All P xs → P x → All P (xs ++ (x ∷ []))
All-snoc P [] x h last = (last, record {})
All-snoc P (y ∷ xs) x h last = (h.0, All-snoc P xs x h.1 last)

counts_more :
    (values : List ℕ) (p covered : ℕ)
    → covered ≡ u32 (length values)
    → u32 (covered + 1) ≡ u32 (length (values ++ (p ∷ [])))
counts_more values p covered h = omega (arith, h, length-append values (p ∷ []))

-- A value that is seen already, or one too many.
IsSummary-skip :
    (values : List ℕ) (p : ℕ) (t : Tally)
    → IsSummary values t
    → (length t.seen < 16 → is_seen t.seen p ≡ true)
    → IsSummary (values ++ (p ∷ [])) (record t { covered = u32 (t.covered + 1) })
IsSummary-skip values p t s known = record {
  counts = counts_more values p t.covered s.counts;
  distinct = s.distinct;
  up_to_16 = s.up_to_16;
  from_values = All-is_seen-append values (p ∷ []) t.seen s.from_values;
  complete = λ few. All-snoc (λ p. is_seen t.seen p ≡ true) values p (s.complete few) (known few);
}

-- A new value.
IsSummary-take :
    (values : List ℕ) (p : ℕ) (t : Tally)
    → IsSummary values t
    → is_seen t.seen p ≡ false
    → length t.seen < 16
    → IsSummary
        (values ++ (p ∷ []))
        (record { covered = u32 (t.covered + 1); seen = t.seen ++ (p ∷ []) })
IsSummary-take values p t s new few = record {
  counts = counts_more values p t.covered s.counts;
  distinct = AreDistinct-snoc t.seen p s.distinct new;
  up_to_16 = omega (arith, few, length-append t.seen (p ∷ []));
  from_values =
      All-snoc (λ q. is_seen (values ++ (p ∷ [])) q ≡ true) t.seen p
        (All-is_seen-append values (p ∷ []) t.seen s.from_values) (is_seen-last values p);
  complete = λ more.
      All-snoc (λ q. is_seen (t.seen ++ (p ∷ [])) q ≡ true) values p
        (All-is_seen-append t.seen (p ∷ []) values (s.complete few)) (is_seen-last t.seen p);
}

IsSummary-tally_pixel :
    (background : ℕ) (values : List ℕ) (t : Tally) (p : ℕ)
    → IsSummary values t
    → (p == background) ≡ false
    → IsSummary (values ++ (p ∷ [])) (tally_pixel background t p)
unfolding tally_pixel
IsSummary-tally_pixel background values t p s other = elim (Bool-cases (is_seen t.seen p)) [
  | inl e ↦ rw (other, e) (IsSummary-skip values p t s (λ few. e))
  | inr e ↦ elim (Bool-cases (ltb (length t.seen) 16)) [
    | inl e2 ↦ rw (other, e, e2) (IsSummary-take values p t s e (ground arith))
    | inr e2 ↦ rw (other, e, e2) (IsSummary-skip values p t s (λ few. absurd (ground arith)))
  ]
]

IsSummary-tally :
    (background : ℕ) (values : List ℕ) (t : Tally) (pixels : List ℕ)
    → IsSummary values t
    → IsSummary (values ++ others background pixels) (tally background t pixels)
unfolding tally others
IsSummary-tally background values t [] s = rw (append-nil values) s
IsSummary-tally background values t (p ∷ pixels) s = elim (Bool-cases (p == background)) [
  | inl e ↦ rw e (
      IsSummary-tally background values (tally_pixel background t p) pixels
        (rw (same background t p e) s))
  | inr e ↦ rw e (
      subst (λ vs. IsSummary vs (tally background (tally_pixel background t p) pixels))
        (append_assoc values (p ∷ []) (others background pixels))
        (IsSummary-tally background (values ++ (p ∷ [])) (tally_pixel background t p) pixels
          (IsSummary-tally_pixel background values t p s e)))
]
  where
    same :
        (background : ℕ) (t : Tally) (p : ℕ)
        → (p == background) ≡ true
        → tally_pixel background t p ≡ t
    same background t p e = unfold tally_pixel in rw e refl

-- The summary of `gfxdemo_report_framebuffer` counts the pixels that differ from the background,
-- modulo 2 ^ 32, and lists up to 16 of their values, each of them once and each the value of such a
-- pixel; when it lists fewer than 16, it lists the value of every such pixel.
pub tally-IsSummary :
    (background : ℕ) (pixels : List ℕ)
    → IsSummary
        (others background pixels)
        (tally background (record { covered = 0; seen = [] }) pixels)
tally-IsSummary background pixels =
    IsSummary-tally background [] (record { covered = 0; seen = [] }) pixels
      (record {
        counts = refl;
        distinct = record {};
        up_to_16 = omega arith;
        from_values = record {};
        complete = λ few. record {};
      })
