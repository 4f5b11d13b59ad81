-- ===== src/VideoCommands/Tests.antt =====
-- Tests of the video commands, and their theorems at concrete inputs.
use alma_os.Base.{ℕ, List, [], ◌∷◌, true, false, none, some, ◌*◌, ◌≡◌, refl, arith}
use alma_os.Video.{Machine, Video, vga13_mode, text_mode, no_mode, set_vga13}
use alma_os.Gfx.{Bridge, attached, pixel_size, known_bpp, present}
use alma_os.Gfx.Rows.{row_at}
use alma_os.VideoCommands.{read_hardware_pixel, is_seen, tally_pixel, tally, apply_parsed}
use alma_os.VideoCommands.Readback.{hardware_value, read_hardware_pixel-present}
use alma_os.VideoCommands.Summary.{others, IsSummary, tally-IsSummary}

abbrev pixels : List ℕ
pixels = 0 ∷ 7 ∷ 0 ∷ 9 ∷ 7 ∷ []

tally-pixels :
    tally 0 (record { covered = 0; seen = [] }) pixels ≡ record { covered = 3; seen = 7 ∷ 9 ∷ [] }
unfolding tally tally_pixel is_seen
tally-pixels = refl

tally-IsSummary_example :
    IsSummary (others 0 pixels) (tally 0 (record { covered = 0; seen = [] }) pixels)
tally-IsSummary_example = tally-IsSummary 0 pixels

abbrev memory : ℕ → ℕ
memory q = 0

abbrev colours : ℕ → ℕ
colours i = i * 0x10305

abbrev bridge : Bridge
bridge =
    attached
      (record {
        pixels = none;
        width = 0;
        height = 0;
        pitch = 0;
        depth = none;
        ready = false;
        mode = no_mode;
      })
      vga13_mode 0x100000 0x200000

read_hardware_pixel-present_example :
    read_hardware_pixel (present bridge colours memory) (row_at vga13_mode 2) 3 8
    ≡ hardware_value vga13_mode (colours 643)
unfolding pixel_size known_bpp
read_hardware_pixel-present_example =
    read_hardware_pixel-present bridge colours memory 2 3 refl refl (omega arith) (omega arith)
      (omega arith)

-- A BIOS that supports nothing.
abbrev machine : Machine
machine = record {
  bios = λ regs buffer. some (record regs { eax = 0 }, buffer);
  ready = true;
  word_at = λ buffer address. 0xFFFF;
}

abbrev started : Video
started = record {
  current = text_mode;
  vbe_available = true;
  vbe_version = 0x200;
  buffer = λ i. 0;
  dac = [];
}

-- A width of 0 is taken for the mode 13h.
apply_parsed-zero :
    apply_parsed machine (some (record { width = 0; height = 480; bpp = 32 })) started
    ≡ set_vga13 machine started
unfolding apply_parsed
apply_parsed-zero = refl
