-- ===== src/Keyboard/Run.antt =====
-- Sequences of interrupts, reads and changes of layout on the driver of src/kernel/keyboard.c.
use alma_os.Base.{
  ℕ, List, [], ◌∷◌, false, Option, none, some, ◌<◌, ◌≡◌, ◌≢◌, ◌↔◌, refl, sym, ap, arith, All,
  length, ==_iff, ==_ne,
}
use mathlib.Core.Option
use mathlib.Core.Path.{subst}
use native.Mathlib.Decide.{ℕ_discrete}
use alma_os.Keyboard.{
  Keyboard, Layout, layout_us, layout_abnt2, init, handler, read, set_layout, has_data, getchar,
  pop,
}
use alma_os.Keyboard.Ring.{IsValid, queue, queue-read, queue-empty, queue-pop, has_data-queue}
use alma_os.Keyboard.Spec
use alma_os.Keyboard.Spec.{
  Op, irq, choose, Console, layers, Layers, Modifiers, typed, accept, interrupt, Event,
}
use alma_os.Keyboard.Decode.{modifiers, layers_of, console, console-handler, handler-IsValid}

-- Scancodes are bytes.
abbrev pub IsByteOp : Op → Type 0
IsByteOp (irq code) = code < 256
IsByteOp _ = Unit

-- One operation of the driver, with its reply; 0 where the C function returns nothing.
unfoldable pub step : Keyboard → Op → ℕ × Keyboard
step s (irq code) = (0, handler s code)
step s Op.read = read s
step s (choose l) = (0, set_layout s l)

unfoldable pub run : Keyboard → List Op → List ℕ
run s [] = []
run s (op ∷ ops) = let (c, s') = step s op in c ∷ run s' ops

set_layout-IsValid : {s : Keyboard} (l : Layout) → IsValid s → IsValid (set_layout s l)
unfolding set_layout
set_layout-IsValid layout_us v = record {
  whole = v.whole;
  head_in = v.head_in;
  tail_in = v.tail_in;
}
set_layout-IsValid layout_abnt2 v = record {
  whole = v.whole;
  head_in = v.head_in;
  tail_in = v.tail_in;
}

console-set_layout :
    (s : Keyboard) (l : Layout)
    → console (set_layout s l) ≡ record (console s) { layers_in_use = layers l }
unfolding set_layout layers
console-set_layout s layout_us = refl
console-set_layout s layout_abnt2 = refl

pub step-IsValid : {s : Keyboard} (op : Op) → IsValid s → IsValid (step s op).1
unfolding step
step-IsValid (irq code) v = handler-IsValid code v
step-IsValid Op.read v = (queue-read v).1
step-IsValid (choose l) v = set_layout-IsValid l v

others-read :
    (s : Keyboard) → (modifiers (read s).1 ≡ modifiers s) × (layers_of (read s).1 ≡ layers_of s)
unfolding read
others-read s = ground arith

console-step :
    {s : Keyboard} (op : Op)
    → IsValid s
    → IsByteOp op
    → let (c, s') = step s op in (c, console s') ≡ Spec.step (console s) op
unfolding step Spec.step
console-step (irq code) v b = ap (λ t. (0, t)) (console-handler code v b)
console-step {s} Op.read v b = cc ((queue-read v).0, (others-read s).0, (others-read s).1)
console-step {s} (choose l) v b = ap (λ t. (0, t)) (console-set_layout s l)

-- No sequence of interrupts, reads and changes of layout tells a valid driver from the
-- specification: every reply is the same.
pub run_refines :
    (ops : List Op) {s : Keyboard}
    → IsValid s
    → All IsByteOp ops
    → run s ops ≡ Spec.run (console s) ops
unfolding run Spec.run
run_refines [] v b = refl
run_refines (op ∷ ops) {s} v b =
    rw (run_refines ops (step-IsValid op v) b.1, ← console-step op v b.0)

-- What the driver can come to after `keyboard_init`.
pub data Reachable : Keyboard → Type 0 where
  start : (s : Keyboard) → length s.buffer ≡ 128 → Reachable (init s)
  step_on : {s : Keyboard} → Reachable s → (op : Op) → IsByteOp op → Reachable (step s op).1

init-IsValid : (s : Keyboard) → length s.buffer ≡ 128 → IsValid (init s)
unfolding init
init-IsValid s h = record { whole = h; head_in = omega arith; tail_in = omega arith }

queue-init : (s : Keyboard) → queue (init s) ≡ []
unfolding init
queue-init s = refl

pub Reachable-IsValid : {s : Keyboard} → Reachable s → IsValid s
Reachable-IsValid (start s h) = init-IsValid s h
Reachable-IsValid (step_on r op b) = step-IsValid op (Reachable-IsValid r)

Reachable-nonzero : {s : Keyboard} → Reachable s → All (λ k. k ≢ 0) (queue s)
Reachable-nonzero (start s h) = rw queue-init tt
Reachable-nonzero (step_on {s} r op b) =
    subst (λ (p : ℕ × Console). All (λ k. k ≢ 0) p.1.queue)
      (sym (console-step op (Reachable-IsValid r) b))
      (Spec.step-nonzero (console s) op (Reachable-nonzero r))

-- In every state that the driver can come to, a non-blocking read answers 0 exactly when no
-- character waits: no key ever types a 0.
pub read-zero : {s : Keyboard} → Reachable s → ((read s).0 ≡ 0) ↔ (has_data s ≡ false)
read-zero {s} r =
    let v = Reachable-IsValid r in
    rw (has_data-queue v, ap (λ (p : ℕ × List ℕ). p.0) (queue-read v).0)
      (Spec.dequeue-zero (queue s) (Reachable-nonzero r))

-- A result of `keyboard_getchar` as the specification sees it.
abbrev pub seen : ℕ × Keyboard → ℕ × Console
seen r = (r.0, console r.1)

getchar-ready : (s : Keyboard) (codes : List ℕ) → s.head ≢ s.tail → getchar s codes ≡ some (pop s)
unfolding getchar
getchar-ready s [] h = rw (==_ne _ _ h)
getchar-ready s (code ∷ codes) h = rw (==_ne _ _ h)

getchar-nil : (s : Keyboard) → s.head ≡ s.tail → getchar s [] ≡ none
unfolding getchar
getchar-nil s h = rw ((==_iff _ _).1 h)

getchar-wait :
    (s : Keyboard) (code : ℕ) (codes : List ℕ)
    → s.head ≡ s.tail
    → getchar s (code ∷ codes) ≡ getchar (handler s code) codes
unfolding getchar
getchar-wait s code codes h = rw ((==_iff _ _).1 h)

getchar-seen :
    (s : Keyboard)
    → ◌≡◌ {A = Option (ℕ × Console)}
        (some (seen (pop s)))
        (some ((pop s).0, record (console s) { queue = queue (pop s).1 }))
unfolding pop
getchar-seen s = refl

-- A blocking read gives the character that the specification gives: the oldest that waits, or the
-- first that the interrupts type, and it waits on only while there is none.
pub getchar_refines :
    (codes : List ℕ) {s : Keyboard}
    → IsValid s
    → All (λ code. code < 256) codes
    → Option.map seen (getchar s codes) ≡ Spec.wait (console s) codes
getchar_refines [] {s} v b = elim (ℕ_discrete s.head s.tail) [
  | yes e ↦ rw (getchar-nil s e, Spec.wait-nil (console s) (queue-empty v e)) refl
  | no ne ↦
      rw (getchar-ready s [] ne, Spec.wait-ready (console s) [] _ _ (queue-pop v ne))
        (getchar-seen s)
]
getchar_refines (code ∷ codes) {s} v b = elim (ℕ_discrete s.head s.tail) [
  | yes e ↦
      rw
        (
          getchar-wait s code codes e,
          Spec.wait-empty (console s) code codes (queue-empty v e),
          ← console-handler code v b.0,
        )
        (getchar_refines codes (handler-IsValid code v) b.1)
  | no ne ↦
      rw
        (
          getchar-ready s (code ∷ codes) ne,
          Spec.wait-ready (console s) (code ∷ codes) _ _ (queue-pop v ne),
        )
        (getchar-seen s)
]
