-- ===== src/Idt/Tests.antt =====
-- Tests of the interrupt table, and its theorem at a concrete input.
use alma_os.Base.{
  ℕ, List, [], ◌∷◌, Option, none, some, ◌+◌, ◌*◌, ◌<◌, ◌≤◌, length, ◌≡◌, refl, arith,
}
use alma_os.Vga.{Screen}
use alma_os.Idt.{exception_names, Frame, no_gate, init, dispatch}
use alma_os.Idt.Dispatch.{register_all, latest, IsGateOf, IsAnswered, dispatch-latest}

abbrev timer : Frame
timer = record {
  edi = 0;
  esi = 0;
  ebp = 0;
  ebx = 0;
  edx = 0;
  ecx = 0;
  eax = 0;
  isr_num = 0x20;
  error_code = 0;
  eip = 0x100000;
  cs = 8;
  eflags = 0x202;
}

abbrev stubs : ℕ → ℕ
stubs i = 0x101000 + i * 16

-- The handlers of the timer and of the keyboard, the first of them twice.
abbrev registrations : List (ℕ × Option ℕ)
registrations = (0x20, some 5) ∷ (0x21, some 6) ∷ (0x20, some 7) ∷ []

latest-timer : latest none 0x20 registrations ≡ some 7
unfolding latest
latest-timer = refl

abbrev blank : Screen
blank = record { cells = λ j. 0x0720; col = 0; row = 0; attr = 0x07; cursor = 0; mirrored = [] }

dispatch-latest_example :
    IsAnswered timer blank
      (latest none 0x20 registrations)
      (dispatch timer blank (register_all registrations (init ℕ stubs)))
    × ((v : ℕ) → v < 48 → IsGateOf (stubs v) ((register_all registrations (init ℕ stubs)).gates v))
    × ((v : ℕ) → 48 ≤ v → (register_all registrations (init ℕ stubs)).gates v ≡ no_gate)
dispatch-latest_example = dispatch-latest ℕ stubs registrations timer blank (omega arith) (record {
  edi = omega arith;
  esi = omega arith;
  ebp = omega arith;
  ebx = omega arith;
  edx = omega arith;
  ecx = omega arith;
  eax = omega arith;
  isr_num = omega arith;
  error_code = omega arith;
  eip = omega arith;
  cs = omega arith;
  eflags = omega arith;
})

exception_names-number : length exception_names ≡ 32
unfolding exception_names
exception_names-number = refl
