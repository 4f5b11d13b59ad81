-- ===== src/Realmode/Calls.antt =====
-- What the BIOS is called with by src/kernel/realmode.c, and what comes back.
use alma_os.Base.{
  ℕ, List, ◌∷◌, Bool, true, false, not, ◌||◌, Option, none, some, ◌+◌, ◌*◌, ◌/◌, ◌^◌, ◌==◌, ==_ne,
  u8, u16, u32, ◌≡◌, ◌≢◌, ◌⊎◌, inl, inr, refl, arith, Bool-cases,
}
use alma_os.CString.{Memory}
use alma_os.Gfx.{bytes_of, store_all}
use alma_os.Ports.{Event, Device, written}
use alma_os.VideoCommands.{number_at}
use alma_os.Realmode.{
  Regs, Realmode, Stub, data_addr, load_block, read_block, masked, mask_master, mask_slave,
  pic1_data, pic2_data, call_bios, int,
}

-- The registers as wide as they are.
unfoldable pub cut : Regs → Regs
cut regs = record {
  eax = u32 regs.eax;
  ebx = u32 regs.ebx;
  ecx = u32 regs.ecx;
  edx = u32 regs.edx;
  esi = u32 regs.esi;
  edi = u32 regs.edi;
  ebp = u32 regs.ebp;
  ds = u16 regs.ds;
  es = u16 regs.es;
  eflags = 0;
}

dword :
    (n : ℕ)
    → u8 n
        + (u8 (n / 2 ^ 8)
            + (u8 (n / 2 ^ 8 / 2 ^ 8) + (u8 (n / 2 ^ 8 / 2 ^ 8 / 2 ^ 8) + 0) * 2 ^ 8) * 2 ^ 8)
          * 2 ^ 8
      ≡ u32 n
dword n = omega arith

half : (n : ℕ) → u8 n + (u8 (n / 2 ^ 8) + 0) * 2 ^ 8 ≡ u16 n
half n = omega arith

Regs-ext :
    (a b : Regs)
    → a.eax ≡ b.eax
    → a.ebx ≡ b.ebx
    → a.ecx ≡ b.ecx
    → a.edx ≡ b.edx
    → a.esi ≡ b.esi
    → a.edi ≡ b.edi
    → a.ebp ≡ b.ebp
    → a.ds ≡ b.ds
    → a.es ≡ b.es
    → a.eflags ≡ b.eflags
    → a ≡ b
Regs-ext a b peax pebx pecx pedx pesi pedi pebp pds pes peflags = λ i. record {
  eax = peax i;
  ebx = pebx i;
  ecx = pecx i;
  edx = pedx i;
  esi = pesi i;
  edi = pedi i;
  ebp = pebp i;
  ds = pds i;
  es = pes i;
  eflags = peflags i;
}

-- The block that is stored is read back.
read_block-load_block :
    (handler : ℕ) (regs : Regs) (mem : Memory) → read_block (load_block handler regs mem) ≡ cut regs
unfolding read_block load_block cut number_at store_all bytes_of
read_block-load_block handler regs mem =
    Regs-ext _ _ (dword regs.eax) (dword regs.ebx) (dword regs.ecx) (dword regs.edx)
      (dword regs.esi) (dword regs.edi) (dword regs.ebp) (half regs.ds) (half regs.es) refl

number_at-load_block :
    (handler : ℕ) (regs : Regs) (mem : Memory)
    → number_at (load_block handler regs mem) (data_addr + 0x1C) 4 ≡ u32 handler
unfolding load_block number_at store_all bytes_of
number_at-load_block handler regs mem = dword handler

-- The trampoline runs with every interrupt masked.
written-masked :
    (h : List Event)
    → (written pic1_data (masked h) ≡ 0xFF ∷ written pic1_data h)
      × (written pic2_data (masked h) ≡ 0xFF ∷ written pic2_data h)
unfolding written masked
written-masked h = (refl, refl)

-- What `int` gives back and leaves behind, after the trampoline has left memory and ports so.
pub record IsReturned (device : Device) (s : Realmode) (left : Memory × List Event)
    (r : Bool × Option Regs × Realmode) : Type 0 where
  pub succeeds : r.0 ≡ true
  pub registers : r.1 ≡ some (read_block left.0)
  pub memory : r.2.memory ≡ left.0
  pub ready : r.2.ready ≡ true
  pub master :
      written pic1_data r.2.history ≡ mask_master device s.history ∷ written pic1_data left.1
  pub slave : written pic2_data r.2.history ≡ mask_slave device s.history ∷ written pic2_data left.1

IsReturned-int :
    (device : Device) (stub : Stub) (vector : ℕ) (regs : Regs) (s : Realmode)
    → s.ready ≡ true
    → number_at s.memory (u8 vector * 4) 4 ≢ 0
    → IsReturned device s
        (stub (load_block (number_at s.memory (u8 vector * 4) 4) regs s.memory) (masked s.history))
        (int device stub vector (some regs) s)
unfolding int call_bios written
IsReturned-int device stub vector regs s ready some_handler =
    rw (ready, ==_ne (number_at s.memory (u8 vector * 4) 4) 0 some_handler)
      (record {
        succeeds = refl;
        registers = refl;
        memory = refl;
        ready = refl;
        master = refl;
        slave = refl;
      })

-- `realmode_int` with the trampoline in place and a vector that has a handler: the trampoline runs with
-- every interrupt masked, on a block that holds the handler and the registers, cut to their widths,
-- with the flags clear; the call succeeds with the registers that it leaves in the block, and the masks
-- of both controllers are set back to what was read before.
pub int-IsReturned :
    (device : Device) (stub : Stub) (vector : ℕ) (regs : Regs) (s : Realmode)
    → s.ready ≡ true
    → number_at s.memory (u8 vector * 4) 4 ≢ 0
    → let handler = number_at s.memory (u8 vector * 4) 4 in
      let memory = load_block handler regs s.memory in
      let history = masked s.history in
      (number_at memory (data_addr + 0x1C) 4 ≡ u32 handler)
      × (read_block memory ≡ cut regs)
      × (written pic1_data history ≡ 0xFF ∷ written pic1_data s.history)
      × (written pic2_data history ≡ 0xFF ∷ written pic2_data s.history)
      × IsReturned device s (stub memory history) (int device stub vector (some regs) s)
int-IsReturned device stub vector regs s ready some_handler =
    let handler = number_at s.memory (u8 vector * 4) 4 in
    (
      number_at-load_block handler regs s.memory,
      read_block-load_block handler regs s.memory,
      (written-masked s.history).0,
      (written-masked s.history).1,
      IsReturned-int device stub vector regs s ready some_handler,
    )

-- Without the trampoline, a handler or registers nothing happens.
int-fails :
    (device : Device) (stub : Stub) (vector : ℕ) (regs : Option Regs) (s : Realmode)
    → (s.ready ≡ false) ⊎ (number_at s.memory (u8 vector * 4) 4 ≡ 0) ⊎ (regs ≡ none)
    → int device stub vector regs s ≡ (false, regs, s)
unfolding int
int-fails device stub vector none s h = refl
int-fails device stub vector (some regs) s h =
    elim (Bool-cases (not s.ready || number_at s.memory (u8 vector * 4) 4 == 0)) [
      | inl e ↦ rw e refl
      | inr e ↦ absurd (ground arith)
    ]
