-- ===== src/Idt.antt =====
-- The interrupt table, src/kernel/idt.c. The record Table holds its static variables. A handler is a
-- parameter, and so are the addresses of the assembly stubs.
pub mod Messages
pub mod Dispatch
mod Tests
use alma_os.Base.{
  ℕ, zero, suc, List, [], ◌∷◌, Option, none, some, ◌+◌, ◌/◌, ◌^◌, ◌==◌, ltb, if◌then◌else◌, ◌>>=◌,
  get_or, u8, u16,
}
use alma_os.Base.Text.{codes}
use alma_os.Printf.{Arg, word, string, printf}
use alma_os.Vga.{Screen, set_color}

-- `idt_entry_t`
pub record Gate : Type 0 where
  pub offset_low : ℕ
  pub selector : ℕ
  pub null_byte : ℕ
  pub type_attr : ℕ
  pub offset_high : ℕ

-- The part of `interrupt_frame_t` that is printed.
pub record Frame : Type 0 where
  pub edi : ℕ
  pub esi : ℕ
  pub ebp : ℕ
  pub ebx : ℕ
  pub edx : ℕ
  pub ecx : ℕ
  pub eax : ℕ
  pub isr_num : ℕ
  pub error_code : ℕ
  pub eip : ℕ
  pub cs : ℕ
  pub eflags : ℕ

-- `idt` and `handlers`, where `none` is the null pointer.
pub record Table (H : Type 0) : Type 0 where
  pub gates : ℕ → Gate
  pub handlers : ℕ → Option H

unfoldable pub set_gate : (ℕ → Gate) → ℕ → ℕ → ℕ → ℕ → ℕ → Gate
set_gate gates n handler sel flags i =
    if i == n
    then record {
      offset_low = u16 handler;
      selector = sel;
      null_byte = 0;
      type_attr = flags;
      offset_high = u16 (handler / 2 ^ 16);
    }
    else gates i

-- The loop of `idt_init` from `i` on, with `n` rounds to go.
unfoldable pub set_gates : (ℕ → ℕ) → ℕ → ℕ → (ℕ → Gate) → ℕ → Gate
set_gates stubs i zero gates = gates
set_gates stubs i (suc n) gates =
    set_gates stubs (i + 1) n (set_gate gates (u8 i) (stubs i) 0x08 0x8E)

abbrev pub no_gate : Gate
no_gate = record { offset_low = 0; selector = 0; null_byte = 0; type_attr = 0; offset_high = 0 }

-- `idt_init`, before LIDT.
unfoldable pub init : (H : Type 0) → (ℕ → ℕ) → Table H
init H stubs = record { gates = set_gates stubs 0 48 (λ i. no_gate); handlers = λ i. none }

-- `idt_register_handler`
unfoldable pub register : {H : Type 0} → ℕ → Option H → Table H → Table H
register vector handler t = record t {
  handlers = λ i. if i == u8 vector then handler else t.handlers i;
}

unfoldable pub exception_names : List (List ℕ)
exception_names =
    codes "Division By Zero"
    ∷ codes "Debug"
    ∷ codes "Non Maskable Interrupt"
    ∷ codes "Breakpoint"
    ∷ codes "Overflow"
    ∷ codes "Bound Range Exceeded"
    ∷ codes "Invalid Opcode"
    ∷ codes "Device Not Available"
    ∷ codes "Double Fault"
    ∷ codes "Coprocessor Segment Overrun"
    ∷ codes "Invalid TSS"
    ∷ codes "Segment Not Present"
    ∷ codes "Stack-Segment Fault"
    ∷ codes "General Protection Fault"
    ∷ codes "Page Fault"
    ∷ codes "Reserved"
    ∷ codes "x87 FPU Exception"
    ∷ codes "Alignment Check"
    ∷ codes "Machine Check"
    ∷ codes "SIMD FPU Exception"
    ∷ codes "Virtualization Exception"
    ∷ codes "Control Protection"
    ∷ codes "Reserved"
    ∷ codes "Reserved"
    ∷ codes "Reserved"
    ∷ codes "Reserved"
    ∷ codes "Reserved"
    ∷ codes "Reserved"
    ∷ codes "Reserved"
    ∷ codes "Reserved"
    ∷ codes "Reserved"
    ∷ codes "Reserved"
    ∷ []

-- What becomes of an interrupt: a handler runs, the machine stops with a message, or nothing.
pub data Outcome (H : Type 0) : Type 0 where
  handled : H → Outcome H
  halted : Screen → Outcome H
  ignored : Outcome H

-- The message about an exception; `none` is undefined behaviour of the printf.
unfoldable pub report : Frame → Screen → Option Screen
report f s =
    printf (set_color s 15 4) (codes "\n*** EXCEPTION: %s (#%u) ***\n")
      (string (some (get_or exception_names f.isr_num [])) ∷ word f.isr_num ∷ [])
    >>= λ s. printf s (codes "Error code: 0x%08x\n") (word f.error_code ∷ []) >>= λ s.
        printf s (codes "EIP: 0x%08x  CS: 0x%04x  EFLAGS: 0x%08x\n")
          (word f.eip ∷ word f.cs ∷ word f.eflags ∷ [])
        >>= λ s.
            printf s (codes "EAX: 0x%08x  EBX: 0x%08x  ECX: 0x%08x  EDX: 0x%08x\n")
              (word f.eax ∷ word f.ebx ∷ word f.ecx ∷ word f.edx ∷ [])
            >>= λ s.
                printf s (codes "ESI: 0x%08x  EDI: 0x%08x  EBP: 0x%08x\n")
                  (word f.esi ∷ word f.edi ∷ word f.ebp ∷ [])

-- The rest of `isr_dispatch`, once the handler has been looked up.
unfoldable pub respond : {H : Type 0} → Frame → Screen → Option H → Option (Outcome H)
respond f s (some h) = some (handled h)
respond f s none = if ltb f.isr_num 32 then (report f s >>= λ s. some (halted s)) else some ignored

-- `isr_dispatch`; `none` is undefined behaviour, of the printf or past the end of `handlers`.
unfoldable pub dispatch : {H : Type 0} → Frame → Screen → Table H → Option (Outcome H)
dispatch f s t = if ltb f.isr_num 256 then respond f s (t.handlers f.isr_num) else none
