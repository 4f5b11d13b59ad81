-- ===== src/Video/Tests.antt =====
-- Tests of the video modes, and their theorems at concrete inputs.
use alma_os.Base.{ℕ, [], true, some, ◌≤◌, ◌==◌, if◌then◌else◌, All, ◌≡◌, ◌⊎◌, refl}
use alma_os.Video.{
  Machine, Video, Buffer, Wanted, Best, no_best, text_mode, set_vbe, far_ptr_to_linear, buffer_u16,
  buffer_u32, vbe_answer, vbe_call, ask_vbe2, collected, collect_modes, score_bpp, suitable,
  mode_info, consider, scan, settle, switch_to, try_modes,
}
use alma_os.Video.Choice.{rating, listed, Refuses, IsFirst, Switches, set_vbe-IsFirst}

-- The block of a mode: 640x480 with a linear framebuffer, 16 bits in mode 0x101 and 32 in the others.
abbrev mode_block : ℕ → Buffer
mode_block mode i =
    if i == 0x00
    then 0x91
    else if i == 0x12
    then 0x80
    else if i == 0x13
    then 0x02
    else if i == 0x14
    then 0xE0
    else if i == 0x15
    then 0x01
    else if i == 0x19
    then (if mode == 0x101 then 16 else 32)
    else if i == 0x1B
    then 6
    else if i == 0x2B
    then 0xE0
    else 0

-- The block of the controller: the list of modes is at 0xC000:0.
abbrev controller_block : Buffer
controller_block i = if i == 0x11 then 0xC0 else 0

abbrev machine : Machine
machine = record {
  bios = λ regs buffer. some (
    record regs { eax = 0x004F },
    if regs.eax == 0x4F00
        then controller_block
        else if regs.eax == 0x4F01
        then mode_block regs.ecx
        else buffer,
  );
  ready = true;
  word_at = λ buffer address.
      if address == 0xC0000
      then 0x101
      else if address == 0xC0002
      then 0x112
      else if address == 0xC0004
      then 0x113
      else 0xFFFF;
}

abbrev started : Video
started = record {
  current = text_mode;
  vbe_available = true;
  vbe_version = 0x200;
  buffer = λ i. 0;
  dac = [];
}

abbrev wanted : Wanted
wanted = record { width = 640; height = 480; bpp = 32 }

-- The first of the two modes with 32 bits.
set_vbe-mode : (set_vbe machine wanted started).1.current.vbe_mode ≡ 0x112
unfolding set_vbe try_modes settle switch_to scan consider suitable mode_info score_bpp
    collect_modes collected far_ptr_to_linear buffer_u16 buffer_u32 vbe_call vbe_answer ask_vbe2
set_vbe-mode = refl

set_vbe-IsFirst_example :
    (All (λ a. rating wanted a ≤ 0) (listed machine started)
      × Refuses started (set_vbe machine wanted started))
    ⊎ ((r : Best) × (f : IsFirst wanted no_best (listed machine started) r) × Switches machine
          wanted started f.found
          (set_vbe machine wanted started))
set_vbe-IsFirst_example = set_vbe-IsFirst machine wanted started refl refl
