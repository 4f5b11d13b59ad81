-- ===== src/Idt/Dispatch.antt =====
-- Which handler of src/kernel/idt.c an interrupt reaches.
use alma_os.Base.{
  ℕ, zero, suc, List, [], ◌∷◌, Option, none, some, ltb, ◌+◌, ◌*◌, ◌^◌, ◌<◌, ◌≤◌, ◌==◌, ==_ne,
  ==_iff, if◌then◌else◌, u8, u32, ◌≡◌, ◌⊎◌, inl, inr, refl, sym, ap, ◌∙◌, arith, Bool-cases, ◌>>=◌,
}
use mathlib.Core.Path.{subst}
use alma_os.Vga.{Screen}
use alma_os.Idt.{
  Gate, Frame, Table, set_gate, set_gates, no_gate, init, register, Outcome, handled, halted,
  ignored, respond, dispatch,
}
use alma_os.Idt.Messages.{Is32, with_message, report-with_message}

-- Registrations in a row.
unfoldable pub register_all : {H : Type 0} → List (ℕ × Option H) → Table H → Table H
register_all [] t = t
register_all (r ∷ rs) t = register_all rs (register r.0 r.1 t)

-- The last handler that is registered for a vector, and otherwise an earlier one.
unfoldable pub latest : {H : Type 0} → Option H → ℕ → List (ℕ × Option H) → Option H
latest earlier v [] = earlier
latest earlier v (r ∷ rs) = latest (if v == u8 r.0 then r.1 else earlier) v rs

handlers-register_all :
    {H : Type 0} (rs : List (ℕ × Option H)) (t : Table H) (v : ℕ)
    → (register_all rs t).handlers v ≡ latest (t.handlers v) v rs
unfolding register_all latest register
handlers-register_all [] t v = refl
handlers-register_all (r ∷ rs) t v = handlers-register_all rs (register r.0 r.1 t) v

gates-register_all :
    {H : Type 0} (rs : List (ℕ × Option H)) (t : Table H) → (register_all rs t).gates ≡ t.gates
unfolding register_all register
gates-register_all [] t = refl
gates-register_all (r ∷ rs) t = gates-register_all rs (register r.0 r.1 t)

-- The address in a gate.
abbrev pub gate_offset : Gate → ℕ
gate_offset g = g.offset_low + g.offset_high * 2 ^ 16

-- A present gate of ring 0 for a 32-bit interrupt, with the kernel's code segment.
pub record IsGateOf (address : ℕ) (g : Gate) : Type 0 where
  pub offset : gate_offset g ≡ u32 address
  pub selector : g.selector ≡ 0x08
  pub null_byte : g.null_byte ≡ 0
  pub type_attr : g.type_attr ≡ 0x8E

IsGateOf-set_gate :
    (gates : ℕ → Gate) (n address : ℕ) → IsGateOf address (set_gate gates n address 0x08 0x8E n)
unfolding set_gate
IsGateOf-set_gate gates n address =
    rw ((==_iff n n).1 refl)
      (record { offset = omega arith; selector = refl; null_byte = refl; type_attr = refl })

-- The loop leaves the other gates alone.
set_gates-other :
    (stubs : ℕ → ℕ) (i n : ℕ) (gates : ℕ → Gate) (v : ℕ)
    → i + n ≤ 256
    → (v < i) ⊎ (i + n ≤ v)
    → set_gates stubs i n gates v ≡ gates v
unfolding set_gates
set_gates-other stubs i zero gates v small h = refl
set_gates-other stubs i (suc n) gates v small h =
    set_gates-other stubs (i + 1) n (set_gate gates (u8 i) (stubs i) 0x08 0x8E) v
      (omega (arith, small)) (ground arith)
    ∙ unfold set_gate in rw (==_ne v (u8 i) (λ e. ground arith)) refl

-- The gate that a round makes stays as it is.
IsGateOf-round :
    (stubs : ℕ → ℕ) (i n : ℕ) (gates : ℕ → Gate)
    → i + suc n ≤ 256
    → IsGateOf (stubs i) (set_gates stubs i (suc n) gates i)
unfolding set_gates
IsGateOf-round stubs i n gates small =
    let byte : i ≡ u8 i = omega (arith, small) in
    let next = set_gate gates (u8 i) (stubs i) 0x08 0x8E in
    subst (IsGateOf (stubs i))
      (ap next (sym byte)
        ∙ sym (set_gates-other stubs (i + 1) n next i (omega (arith, small)) (inl (omega arith))))
      (IsGateOf-set_gate gates (u8 i) (stubs i))

IsGateOf-set_gates :
    (stubs : ℕ → ℕ) (i n : ℕ) (gates : ℕ → Gate) (v : ℕ)
    → i + n ≤ 256
    → i ≤ v
    → v < i + n
    → IsGateOf (stubs v) (set_gates stubs i n gates v)
unfolding set_gates
IsGateOf-set_gates stubs i zero gates v small low high = absurd (omega (arith, low, high))
IsGateOf-set_gates stubs i (suc n) gates v small low high = elim (Bool-cases (v == i)) [
  | inl e ↦
      subst (λ w. IsGateOf (stubs w) (set_gates stubs i (suc n) gates w)) (sym ((==_iff v i).0 e))
        (IsGateOf-round stubs i n gates small)
  | inr e ↦
      IsGateOf-set_gates stubs (i + 1) n (set_gate gates (u8 i) (stubs i) 0x08 0x8E) v
        (omega (arith, small)) (ground arith) (omega (arith, high))
]

-- What becomes of an interrupt whose handler is given: the handler runs; without one the machine halts,
-- with the message on the screen, when it is an exception, and otherwise nothing happens.
unfoldable pub IsAnswered : {H : Type 0} → Frame → Screen → Option H → Option (Outcome H) → Type 0
IsAnswered f s (some h) r = r ≡ some (handled h)
IsAnswered f s none r =
    ((f.isr_num < 32) × (r ≡ some (halted (with_message f s))))
    ⊎ ((32 ≤ f.isr_num) × (r ≡ some ignored))

IsAnswered-respond :
    {H : Type 0} (f : Frame) (s : Screen) (h : Option H) → Is32 f → IsAnswered f s h (respond f s h)
unfolding IsAnswered respond
IsAnswered-respond f s (some h) wide = refl
IsAnswered-respond f s none wide = elim (Bool-cases (ltb f.isr_num 32)) [
  | inl e ↦
      let low : f.isr_num < 32 = ground arith in
      let halts = ap (λ m. m >>= λ s. some (halted s)) (report-with_message f s wide) in
      simp (e) (inl (low, halts))
  | inr e ↦ simp (e) (inr (ground arith, refl))
]

-- After `idt_init` and registrations, whatever their order, an interrupt whose number is below 256 and
-- whose registers have 32 bits runs the handler that was last registered for it. Without one, the
-- machine halts when it is an exception, with its name, number, error code and registers on the
-- screen in white on red, and nothing happens otherwise. The gates of the numbers below 48 are those
-- of the stubs, and those of the other numbers are not present.
pub dispatch-latest :
    (H : Type 0) (stubs : ℕ → ℕ) (rs : List (ℕ × Option H)) (f : Frame) (s : Screen)
    → f.isr_num < 256
    → Is32 f
    → let t = register_all rs (init H stubs) in
      IsAnswered f s (latest none f.isr_num rs) (dispatch f s t)
      × ((v : ℕ) → v < 48 → IsGateOf (stubs v) (t.gates v))
      × ((v : ℕ) → 48 ≤ v → t.gates v ≡ no_gate)
dispatch-latest H stubs rs f s below wide =
    let t = register_all rs (init H stubs) in
    let same = gates-register_all rs (init H stubs) in
    let last = latest none f.isr_num rs in
    let answer : dispatch f s t ≡ respond f s last =
      found t below
      ∙ ap (respond f s)
          (handlers-register_all rs (init H stubs) f.isr_num ∙ unfold init in refl) in
    (
      subst (IsAnswered f s last) (sym answer) (IsAnswered-respond f s last wide),
      (λ v low.
          subst (λ gates. IsGateOf (stubs v) (gates v)) (sym same)
            (unfold init in
              IsGateOf-set_gates stubs 0 48 (λ i. no_gate) v (omega arith) (omega arith)
                (omega (arith, low)))),
      (λ v high.
          ap (λ gates. gates v) same
          ∙ unfold init in
            set_gates-other stubs 0 48 (λ i. no_gate) v (omega arith) (inr (omega (arith, high)))),
    )
  where
    found : (t : Table H) → f.isr_num < 256 → dispatch f s t ≡ respond f s (t.handlers f.isr_num)
    found t below = unfold dispatch in ground arith
