-- ===== src/VideoCommands.antt =====
-- The commands `mode` and `gfxdemo`, src/kernel/cmd_video.c, but for the parser of mode specifications
-- and the drawing of the cube, whose floats and rasterizer are a parameter.
pub mod Specs
pub mod Readback
pub mod Summary
mod Tests
use alma_os.Base.{
  ℕ, zero, suc, List, [], ◌∷◌, ◌++◌, Bool, true, false, not, ◌&&◌, ◌||◌, Option, none, some, ◌+◌,
  ◌-◌, ◌*◌, ◌/◌, ◌%◌, ◌^◌, ◌==◌, ltb, leb, if◌then◌else◌, ◌>>=◌, length, get_or, drop, u8, u32,
}
use alma_os.Base.Text.{codes}
use alma_os.CString.{Memory}
use alma_os.CString.Texts.{differ}
use alma_os.Getopt.{is_zero}
use alma_os.ModeSpec.{parse_mode_spec}
use alma_os.Printf.{Arg, word, string, printf}
use alma_os.Vga.{Screen, puts, clear}
use alma_os.Video.{
  Kind, text, vga13, vbe_lfb, ModeInfo, Machine, Video, set_text, set_vga13, set_vbe,
}

-- `video_kind_name`; a kind has no other value.
unfoldable pub kind_name : Kind → List ℕ
kind_name text = codes "texto"
kind_name vga13 = codes "VGA 13h"
kind_name vbe_lfb = codes "VBE (framebuffer linear)"

-- The line about the channels.
unfoldable pub print_channels : ModeInfo → Screen → Option Screen
print_channels mode s = elim mode.kind [
  | vbe_lfb ↦ printf s (codes "  modo VBE 0x%03x  R:%u@%u G:%u@%u B:%u@%u\n") (
      word mode.vbe_mode
      ∷ word mode.red_size
      ∷ word mode.red_pos
      ∷ word mode.green_size
      ∷ word mode.green_pos
      ∷ word mode.blue_size
      ∷ word mode.blue_pos
      ∷ [])
  | _ ↦ some s
]

unfoldable pub print_vbe : Video → Screen → Option Screen
print_vbe v s =
    if v.vbe_available
    then printf s (codes "VBE %u.%u disponivel\n")
        (word (v.vbe_version / 2 ^ 8 % 2 ^ 8) ∷ word (v.vbe_version % 2 ^ 8) ∷ [])
    else some (puts s (codes "VBE indisponivel nesta maquina\n"))

-- `print_current_mode`; `none` is undefined behaviour of the printf.
unfoldable pub print_current_mode : Video → Screen → Option Screen
print_current_mode v s =
    let mode = v.current in
    printf s (codes "Modo atual: %s\n") (string (some (kind_name mode.kind)) ∷ []) >>= λ s.
    printf s (codes "  framebuffer: 0x%08x  %ux%u  pitch=%u  bpp=%u\n") (
      word mode.framebuffer
      ∷ word mode.width
      ∷ word mode.height
      ∷ word mode.pitch
      ∷ word mode.bpp
      ∷ [])
    >>= λ s. print_channels mode s >>= λ s. print_vbe v s

-- What follows the parser.
unfoldable pub apply_parsed : Machine → Option alma_os.ModeSpec.Mode → Video → Bool × Video
apply_parsed m none v = (false, v)
apply_parsed m (some mode) v =
    if mode.width == 0
    then set_vga13 m v
    else set_vbe m (record { width = mode.width; height = mode.height; bpp = u8 mode.bpp }) v

unfoldable pub apply_mode : Machine → List ℕ → Video → Bool × Video
apply_mode m spec v =
    if is_zero (differ spec (codes "text"))
    then set_text m v
    else apply_parsed m (parse_mode_spec spec) v

-- The console and the video driver.
pub record System : Type 0 where
  pub screen : Screen
  pub video : Video

-- The end of `cmd_video_mode`, after `apply_mode`.
unfoldable pub after_mode : List ℕ → Screen → Bool × Video → Option (ℕ × System)
after_mode spec s (false, v) =
    printf s (codes "mode: nao foi possivel ativar '%s'\n") (string (some spec) ∷ []) >>= λ s.
    some (1, record { screen = s; video = v })
after_mode spec s (true, v) =
    print_current_mode v s >>= λ s. some (0, record { screen = s; video = v })

-- `cmd_video_mode`: its result and the system; the list is `argv` from its first word on.
unfoldable pub cmd_mode : Machine → List (List ℕ) → System → Option (ℕ × System)
cmd_mode m argv sys =
    let spec = get_or argv 1 [] in
    if ltb (length argv) 2
    then (print_current_mode sys.video sys.screen >>= λ s.
        some (
          0,
          record sys { screen = puts s (codes "Uso: mode <text|vga13|LARGURAxALTURA[xBPP]>\n") },
        ))
    else after_mode spec sys.screen (apply_mode m spec sys.video)

-- A number of `k` bytes, the lowest first.
unfoldable pub number_at : Memory → ℕ → ℕ → ℕ
number_at mem p zero = 0
number_at mem p (suc k) = mem p + number_at mem (p + 1) k * 2 ^ 8

unfoldable pub read_hardware_pixel : Memory → ℕ → ℕ → ℕ → ℕ
read_hardware_pixel mem row x bpp =
    if bpp == 8
    then number_at mem (row + x) 1
    else if bpp == 15 || bpp == 16
    then number_at mem (row + x * 2) 2
    else if bpp == 24
    then number_at mem (row + x * 3) 3
    else if bpp == 32
    then number_at mem (row + x * 4) 4
    else 0

-- `covered` and the part of `seen` that is used.
pub record Tally : Type 0 where
  pub covered : ℕ
  pub seen : List ℕ

-- The loop over `seen`.
unfoldable pub is_seen : List ℕ → ℕ → Bool
is_seen [] pixel = false
is_seen (s ∷ seen) pixel = if s == pixel then true else is_seen seen pixel

-- The body of the loop over the pixels.
unfoldable pub tally_pixel : ℕ → Tally → ℕ → Tally
tally_pixel background t pixel = if pixel == background then t else record {
  covered = u32 (t.covered + 1);
  seen =
      if not (is_seen t.seen pixel) && ltb (length t.seen) 16
      then t.seen ++ (pixel ∷ [])
      else t.seen;
}

unfoldable pub tally : ℕ → Tally → List ℕ → Tally
tally background t [] = t
tally background t (pixel ∷ pixels) = tally background (tally_pixel background t pixel) pixels

-- The pixels of a row from the `x`th one on, `n` to go.
unfoldable pub row_pixels : Memory → ModeInfo → ℕ → ℕ → ℕ → List ℕ
row_pixels mem mode row x zero = []
row_pixels mem mode row x (suc n) =
    read_hardware_pixel mem row x mode.bpp ∷ row_pixels mem mode row (x + 1) n

unfoldable pub all_pixels : Memory → ModeInfo → ℕ → ℕ → List ℕ
all_pixels mem mode y zero = []
all_pixels mem mode y (suc n) =
    row_pixels mem mode (mode.framebuffer + y * mode.pitch) 0 mode.width
    ++ all_pixels mem mode (y + 1) n

-- `gfxdemo_report_framebuffer`
unfoldable pub report_framebuffer : Memory → ModeInfo → Screen → Option Screen
report_framebuffer mem mode s =
    let background = read_hardware_pixel mem mode.framebuffer 0 mode.bpp in
    let t =
      tally background (record { covered = 0; seen = [] }) (all_pixels mem mode 0 mode.height) in
    if mode.bpp == 0 || mode.width == 0 || mode.height == 0
    then some (puts s (codes "gfxdemo: modo sem pixels, resumo indisponivel\n"))
    else printf s (codes "gfxdemo: fundo=0x%08x cobertos=%u cores=%u\n")
        (word background ∷ word t.covered ∷ word (length t.seen) ∷ [])
