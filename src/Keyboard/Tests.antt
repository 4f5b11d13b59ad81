-- ===== src/Keyboard/Tests.antt =====
-- Tests of the keyboard driver, and its theorems at concrete inputs.
use alma_os.Base.{ℕ, List, [], ◌∷◌, ◌≡◌, refl, arith, get_or}
use alma_os.Keyboard.{
  abnt2, contents, power_on, handler, press, release, translate, push, push_nonzero, read,
  is_letter,
}
use alma_os.Keyboard.Ring.{IsValid}
use alma_os.Keyboard.Spec
use alma_os.Keyboard.Spec.{Op, irq, choose, interrupt, Console}
use alma_os.Keyboard.Decode.{console, console-handler}
use alma_os.Keyboard.Run.{run, step, run_refines}

-- The extra key of ABNT2 between the full stop and the right Shift.
abnt2_extra_key : get_or (contents abnt2) 0x73 0 ≡ b'/'
unfolding contents
abnt2_extra_key = refl

-- Shift down, A, Shift up, A, then AltGr and the key right of `[`.
abbrev script : List Op
script =
    irq 0x2A
    ∷ irq 0x1E
    ∷ irq 0xAA
    ∷ irq 0x1E
    ∷ irq 0xE0
    ∷ irq 0x38
    ∷ irq 0x2B
    ∷ Op.read
    ∷ Op.read
    ∷ Op.read
    ∷ Op.read
    ∷ []

abbrev all_zero_then : List ℕ
all_zero_then = 0 ∷ 0 ∷ 0 ∷ 0 ∷ 0 ∷ 0 ∷ 0 ∷ b'A' ∷ b'a' ∷ b'|' ∷ 0 ∷ []

script_types : run power_on script ≡ all_zero_then
unfolding run step handler press release translate push_nonzero push read is_letter contents
script_types = refl

power_on-IsValid : IsValid power_on
power_on-IsValid = omega arith

console-handler_example : console (handler power_on 0x1E) ≡ interrupt (console power_on) 0x1E
console-handler_example = console-handler 0x1E power_on-IsValid (omega arith)

run_refines_example : run power_on script ≡ Spec.run (console power_on) script
run_refines_example = run_refines script power_on-IsValid (omega arith)
