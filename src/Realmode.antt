-- ===== src/Realmode.antt =====
-- Calls of the BIOS from protected mode, src/kernel/realmode.c. The record Realmode holds
-- `realmode_ready`, memory and what has been done at the ports; the descriptor table that SGDT reports
-- and the trampoline, which is assembly, are parameters.
pub mod Calls
pub mod Descriptors
mod Tests
use alma_os.Base.{
  ℕ, zero, suc, List, [], ◌∷◌, Bool, true, false, not, ◌||◌, Option, none, some, ◌+◌, ◌*◌, ◌/◌, ◌^◌,
  ◌==◌, ltb, if◌then◌else◌, u8,
}
use alma_os.CString.{Memory, store, memcpy, memset}
use alma_os.Gfx.{bytes_of, store_all}
use alma_os.Ports.{Event, wrote, asked, Device, inb}
use alma_os.VideoCommands.{number_at}

-- `realmode_regs_t`
pub record Regs : Type 0 where
  pub eax : ℕ
  pub ebx : ℕ
  pub ecx : ℕ
  pub edx : ℕ
  pub esi : ℕ
  pub edi : ℕ
  pub ebp : ℕ
  pub ds : ℕ
  pub es : ℕ
  pub eflags : ℕ

pub record Realmode : Type 0 where
  pub ready : Bool
  pub memory : Memory
  pub history : List Event

-- What the trampoline makes of memory and of the ports.
abbrev pub Stub : Type 0
Stub = Memory → List Event → Memory × List Event

abbrev pub stub_addr : ℕ
stub_addr = 0x30000

-- `REALMODE_DATA_ADDR`
abbrev pub data_addr : ℕ
data_addr = 0x30400

unfoldable pub gdt_set_base : Memory → ℕ → ℕ → Memory
gdt_set_base mem descriptor base =
    store
      (store (store (store mem (descriptor + 2) (u8 base)) (descriptor + 3) (u8 (base / 2 ^ 8)))
        (descriptor + 4) (u8 (base / 2 ^ 16)))
      (descriptor + 7) (u8 (base / 2 ^ 24))

-- `realmode_patch_gdt`; `none` for false.
unfoldable pub patch_gdt : ℕ → ℕ → Memory → Option Memory
patch_gdt limit gdt mem =
    if ltb limit 39
    then none
    else some (gdt_set_base (gdt_set_base mem (gdt + 24) stub_addr) (gdt + 32) stub_addr)

-- The copy of the trampoline, the block of state cleared, and the descriptor of the BIOS's vectors.
unfoldable pub install : ℕ → ℕ → Memory → Memory
install start size mem =
    store_all (memset (memcpy mem stub_addr start size) data_addr 0 0x44) (data_addr + 0x14)
      (0xFF ∷ 0x03 ∷ 0 ∷ 0 ∷ 0 ∷ 0 ∷ [])

-- The end of `realmode_init`, after the descriptors.
unfoldable pub finish : ℕ → ℕ → Option Memory → Realmode → Bool × Realmode
finish start size none s = (false, record s { ready = false })
finish start size (some mem) s = (true, record s { ready = true; memory = install start size mem })

-- `realmode_init`, with its result; the trampoline's `size` bytes are at `start`.
unfoldable pub init : ℕ → ℕ → ℕ → ℕ → Realmode → Bool × Realmode
init start size limit gdt s =
    if size == 0 || ltb 0x400 size
    then (false, record s { ready = false })
    else finish start size (patch_gdt limit gdt s.memory) s

-- The fields of the block from `bios_handler` on.
unfoldable pub load_block : ℕ → Regs → Memory → Memory
load_block handler regs mem =
    let mem = store_all mem (data_addr + 0x1C) (bytes_of 4 handler) in
    let mem = store_all mem (data_addr + 0x20) (bytes_of 4 regs.eax) in
    let mem = store_all mem (data_addr + 0x24) (bytes_of 4 regs.ebx) in
    let mem = store_all mem (data_addr + 0x28) (bytes_of 4 regs.ecx) in
    let mem = store_all mem (data_addr + 0x2C) (bytes_of 4 regs.edx) in
    let mem = store_all mem (data_addr + 0x30) (bytes_of 4 regs.esi) in
    let mem = store_all mem (data_addr + 0x34) (bytes_of 4 regs.edi) in
    let mem = store_all mem (data_addr + 0x38) (bytes_of 4 regs.ebp) in
    let mem = store_all mem (data_addr + 0x3C) (bytes_of 2 regs.ds) in
    let mem = store_all mem (data_addr + 0x3E) (bytes_of 2 regs.es) in
    store_all mem (data_addr + 0x40) (bytes_of 4 0)

-- The registers in the block.
unfoldable pub read_block : Memory → Regs
read_block mem = record {
  eax = number_at mem (data_addr + 0x20) 4;
  ebx = number_at mem (data_addr + 0x24) 4;
  ecx = number_at mem (data_addr + 0x28) 4;
  edx = number_at mem (data_addr + 0x2C) 4;
  esi = number_at mem (data_addr + 0x30) 4;
  edi = number_at mem (data_addr + 0x34) 4;
  ebp = number_at mem (data_addr + 0x38) 4;
  ds = number_at mem (data_addr + 0x3C) 2;
  es = number_at mem (data_addr + 0x3E) 2;
  eflags = number_at mem (data_addr + 0x40) 4;
}

-- `PIC1_DATA` and `PIC2_DATA`
abbrev pub pic1_data : ℕ
pic1_data = 0x21

abbrev pub pic2_data : ℕ
pic2_data = 0xA1

-- All interrupts masked, after the masks have been read.
unfoldable pub masked : List Event → List Event
masked h = wrote pic2_data 0xFF ∷ wrote pic1_data 0xFF ∷ asked pic2_data ∷ asked pic1_data ∷ h

unfoldable pub mask_master : Device → List Event → ℕ
mask_master device h = inb device h pic1_data

unfoldable pub mask_slave : Device → List Event → ℕ
mask_slave device h = inb device (asked pic1_data ∷ h) pic2_data

-- From the stores to the block on.
unfoldable pub call_bios : Device → Stub → ℕ → Regs → Realmode → Regs × Realmode
call_bios device stub handler regs s =
    let (mem, h) = stub (load_block handler regs s.memory) (masked s.history) in
    (
      read_block mem,
      record s {
        memory = mem;
        history =
            wrote pic2_data (mask_slave device s.history)
            ∷ wrote pic1_data (mask_master device s.history)
            ∷ h;
      },
    )

-- `realmode_int`, with its result and the registers; `none` is the null pointer.
unfoldable pub int : Device → Stub → ℕ → Option Regs → Realmode → Bool × Option Regs × Realmode
int device stub vector none s = (false, none, s)
int device stub vector (some regs) s =
    let handler = number_at s.memory (u8 vector * 4) 4 in
    let r = call_bios device stub handler regs s in
    if not s.ready || handler == 0 then (false, some regs, s) else (true, some r.0, r.1)
