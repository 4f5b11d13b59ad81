-- ===== src/Realmode/Tests.antt =====
-- Tests of the calls of the BIOS, and their theorems at concrete inputs.
use alma_os.Base.{
  [], ◌∷◌, true, false, some, ◌*◌, ◌%◌, ◌==◌, ltb, if◌then◌else◌, u32, ◌≡◌, refl, arith,
}
use alma_os.CString.{Memory, store}
use alma_os.Ports.{Device, written}
use alma_os.VideoCommands.{number_at}
use alma_os.Realmode.{
  Regs, Realmode, Stub, pic1_data, pic2_data, load_block, read_block, masked, init, int,
}
use alma_os.Realmode.Calls.{cut, IsReturned, int-IsReturned}

-- Each vector's handler is at 0x5000500.
abbrev low_memory : Memory
low_memory q = if ltb q 0x400 then 5 * (q % 2) else 0

abbrev regs : Regs
regs = record {
  eax = 0x4F00;
  ebx = 0;
  ecx = 0x12345;
  edx = 0;
  esi = 0;
  edi = 0;
  ebp = 0;
  ds = 0x10000;
  es = 0x3300;
  eflags = 7;
}

-- A BIOS that writes 0x4F to the low byte of `eax` and lets the masks stand.
abbrev stub : Stub
stub mem h = (store mem 0x30420 0x4F, h)

abbrev pics : Device
pics h port = if port == pic1_data then 0xB8 else 0x8F

abbrev started : Realmode
started = record { ready = true; memory = low_memory; history = [] }

-- A trampoline that is too long is refused.
init-too_long : (init 0x100000 0x401 39 0x800 started).0 ≡ false
unfolding init
init-too_long = refl

int-IsReturned_example :
    (number_at (load_block 0x5000500 regs low_memory) 0x3041C 4 ≡ u32 0x5000500)
    × (read_block (load_block 0x5000500 regs low_memory) ≡ cut regs)
    × (written pic1_data (masked []) ≡ 0xFF ∷ [])
    × (written pic2_data (masked []) ≡ 0xFF ∷ [])
    × IsReturned pics started
        (stub (load_block 0x5000500 regs low_memory) (masked []))
        (int pics stub 0x10 (some regs) started)
unfolding number_at written
int-IsReturned_example = int-IsReturned pics stub 0x10 regs started refl (ground arith)
