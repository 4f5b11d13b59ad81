-- ===== src/Video/Choice.antt =====
-- The choice of a VBE mode by `video_set_vbe` of src/kernel/video.c.
use alma_os.Base.{
  ℕ, List, [], ◌∷◌, ◌++◌, Bool, true, false, not, ◌||◌, ◌<◌, ◌≤◌, ◌==◌, leb, if◌then◌else◌, All,
  length, ◌≡◌, ◌≢◌, ◌⊎◌, inl, inr, refl, sym, ==_iff, ap, ap₂, bit_or, ==_ne, ◌∙◌, arith,
  Bool-cases,
}
use mathlib.Core.Path.{subst}
use native.Mathlib.Decide.{ℕ_discrete}
use alma_os.Video.{
  Machine, Video, Buffer, Wanted, Best, no_best, suitable, score_bpp, buffer_u8, mode_info,
  consider, scan, vbe_call, collect_modes, set_vbe, switch_to, no_regs, settle, try_modes,
}

-- A mode with the answer of the BIOS about it.
abbrev pub Answer : Type 0
Answer = ℕ × Bool × Buffer

-- The answers to the queries of the loop, each made with the buffer that the one before left.
unfoldable pub answers : Machine → List ℕ → Buffer → List Answer
answers m [] buffer = []
answers m (mode ∷ modes) buffer =
    let answer = vbe_call m 0x4F01 mode buffer in
    (mode, answer.0, answer.1) ∷ answers m modes answer.1

-- How good a mode is: 2 with the colours that are wanted, 1 with other direct colours, 0 when it
-- cannot be used.
unfoldable pub rating : Wanted → Answer → ℕ
rating w a = if suitable w (a.1, a.2) then score_bpp (buffer_u8 a.2 0x19) w.bpp else 0

abbrev pub best_of : Wanted → Answer → Best
best_of w a = record { mode = a.0; score = rating w a; candidate = mode_info w a.0 a.2 }

unfoldable pub choose : Wanted → Best → List Answer → Best
choose w best [] = best
choose w best (a ∷ rest) = choose w (consider w best a.0 (a.1, a.2)) rest

scan-choose :
    (m : Machine) (w : Wanted) (best : Best) (modes : List ℕ) (buffer : Buffer)
    → (scan m w best modes buffer).0 ≡ choose w best (answers m modes buffer)
unfolding scan choose answers
scan-choose m w best [] buffer = refl
scan-choose m w best (mode ∷ modes) buffer =
    let answer = vbe_call m 0x4F01 mode buffer in
    scan-choose m w (consider w best mode answer) modes answer.1

consider-rating :
    (w : Wanted) (best : Best) (a : Answer)
    → consider w best a.0 (a.1, a.2) ≡ (if leb (rating w a) best.score then best else best_of w a)
unfolding consider rating
consider-rating w best a = elim (Bool-cases (suitable w (a.1, a.2))) [
  | inl e ↦ rw e refl
  | inr e ↦ let least : leb 0 best.score ≡ true = ground arith in rw (e, least) refl
]

-- The first of the best in a list that are better than `best`, or `best` when there is none.
pub record IsFirst (w : Wanted) (best : Best) (rest : List Answer) (r : Best) : Type 0 where
  pub before : List Answer
  pub found : Answer
  pub after : List Answer
  pub splits : rest ≡ before ++ (found ∷ after)
  pub is_found : r ≡ best_of w found
  pub better : best.score < rating w found
  pub none_before : All (λ a. rating w a < rating w found) before
  pub none_after : All (λ a. rating w a ≤ rating w found) after

abbrev pub Chosen : Wanted → Best → List Answer → Best → Type 0
Chosen w best rest r =
    ((r ≡ best) × All (λ a. rating w a ≤ best.score) rest) ⊎ IsFirst w best rest r

choose-Chosen :
    (w : Wanted) (best : Best) (rest : List Answer) → Chosen w best rest (choose w best rest)
unfolding choose
choose-Chosen w best [] = inl (refl, record {})
choose-Chosen w best (a ∷ rest) = elim (Bool-cases (leb (rating w a) best.score)) [
  | inl e ↦
      let same : consider w best a.0 (a.1, a.2) ≡ best = consider-rating w best a ∙ (rw e refl) in
      let low : rating w a ≤ best.score = ground arith in
      rw same (elim (choose-Chosen w best rest) [
        | inl (kept, all) ↦ inl (kept, (low, all))
        | inr f ↦ inr (record {
          before = a ∷ f.before;
          found = f.found;
          after = f.after;
          splits = ap (λ l. a ∷ l) f.splits;
          is_found = f.is_found;
          better = f.better;
          none_before = (omega (arith, low, f.better), f.none_before);
          none_after = f.none_after;
        })
      ])
  | inr e ↦
      let taken : consider w best a.0 (a.1, a.2) ≡ best_of w a =
        consider-rating w best a ∙ (rw e refl) in
      let high : best.score < rating w a = ground arith in
      rw taken (elim (choose-Chosen w (best_of w a) rest) [
        | inl (kept, all) ↦ inr (record {
          before = [];
          found = a;
          after = rest;
          splits = refl;
          is_found = kept;
          better = high;
          none_before = record {};
          none_after = all;
        })
        | inr f ↦ inr (record {
          before = a ∷ f.before;
          found = f.found;
          after = f.after;
          splits = ap (λ l. a ∷ l) f.splits;
          is_found = f.is_found;
          better = omega (arith, high, f.better);
          none_before = (f.better, f.none_before);
          none_after = f.none_after;
        })
      ])
]

-- The answers that `video_set_vbe` chooses from.
abbrev pub listed : Machine → Video → List Answer
listed m v = let modes = collect_modes m 128 v.buffer in answers m modes.0 modes.1

abbrev pub last_buffer : Machine → Wanted → Video → Buffer
last_buffer m w v = let modes = collect_modes m 128 v.buffer in (scan m w no_best modes.0 modes.1).1

-- Nothing has changed that describes the mode.
abbrev pub Refuses : Video → Bool × Video → Type 0
Refuses v r = (r.0 ≡ false) × (r.1.current ≡ v.current)

-- What `video_set_vbe` does when it finds a mode.
abbrev pub Switches : Machine → Wanted → Video → Answer → Bool × Video → Type 0
Switches m w v a r =
    (((mode_info w a.0 a.2).framebuffer ≡ 0) × Refuses v r)
    ⊎ (((mode_info w a.0 a.2).framebuffer ≢ 0)
        × (r
            ≡ switch_to (best_of w a) (record v { buffer = last_buffer m w v })
                (m.bios (record no_regs { eax = 0x4F02; ebx = bit_or a.0 0x4000 })
                  (last_buffer m w v))))

answers-nothing :
    (m : Machine) (w : Wanted) (modes : List ℕ) (buffer : Buffer)
    → length modes ≡ 0
    → All (λ a. rating w a ≤ 0) (answers m modes buffer)
unfolding answers
answers-nothing m w [] buffer e = record {}
answers-nothing m w (mode ∷ modes) buffer e = absurd (omega (arith, e))

try_modes-settle :
    (m : Machine) (w : Wanted) (v : Video)
    → (length (collect_modes m 128 v.buffer).0 == 0) ≡ false
    → try_modes m w v ≡ settle m v (choose w no_best (listed m v)) (last_buffer m w v)
unfolding try_modes
try_modes-settle m w v e =
    let modes = collect_modes m 128 v.buffer in
    rw e (ap (λ b. settle m v b (last_buffer m w v)) (scan-choose m w no_best modes.0 modes.1))

settle-Switches :
    (m : Machine) (w : Wanted) (v : Video) (a : Answer)
    → 0 < rating w a
    → Switches m w v a (settle m v (best_of w a) (last_buffer m w v))
unfolding settle
settle-Switches m w v a rated =
    let some_score : (rating w a == 0) ≡ false = ==_ne (rating w a) 0 (omega (arith, rated)) in
    elim (ℕ_discrete (mode_info w a.0 a.2).framebuffer 0) [
      | yes none_there ↦
          let zero_there : ((mode_info w a.0 a.2).framebuffer == 0) ≡ true =
            (==_iff (mode_info w a.0 a.2).framebuffer 0).1 none_there in
          inl (none_there, rw (some_score, zero_there) (refl, refl))
      | no there ↦
          inr (there, rw (some_score, ==_ne (mode_info w a.0 a.2).framebuffer 0 there) refl)
    ]

-- `video_set_vbe` with VBE at hand: if the BIOS lists no mode that can be used, it refuses and the mode
-- stays. Otherwise it takes the mode with the highest rating, the first of them in the list, refuses
-- it if it has no framebuffer, and else asks the BIOS to switch to it.
pub set_vbe-IsFirst :
    (m : Machine) (w : Wanted) (v : Video)
    → m.ready ≡ true
    → v.vbe_available ≡ true
    → (All (λ a. rating w a ≤ 0) (listed m v) × Refuses v (set_vbe m w v))
      ⊎ ((r : Best) × (f : IsFirst w no_best (listed m v) r) × Switches m w v f.found
            (set_vbe m w v))
set_vbe-IsFirst m w v ready available =
    let modes = collect_modes m 128 v.buffer in
    let same : set_vbe m w v ≡ try_modes m w v =
      unfold set_vbe in
      ap₂ (λ a b. if not a || not b then (false, v) else try_modes m w v) ready available in
    subst
      (λ (r : Bool × Video).
        (All (λ a. rating w a ≤ 0) (listed m v) × Refuses v r)
        ⊎ ((b : Best) × (f : IsFirst w no_best (listed m v) b) × Switches m w v f.found r))
      (sym same)
      (elim (Bool-cases (length modes.0 == 0)) [
        | inl e ↦ inl (
          answers-nothing m w modes.0 modes.1 ((==_iff (length modes.0) 0).0 e),
          unfold try_modes in rw e (refl, refl),
        )
        | inr e ↦ rw (try_modes-settle m w v e) (elim (choose-Chosen w no_best (listed m v)) [
          | inl (kept, all) ↦ inl (all, rw kept (unfold settle in (refl, refl)))
          | inr f ↦ inr (
            choose w no_best (listed m v),
            f,
            rw f.is_found (settle-Switches m w v f.found f.better),
          )
        ])
      ])
