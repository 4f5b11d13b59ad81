-- ===== src/Video.antt =====
-- Video modes, src/kernel/video.c. What the BIOS does in an `int 10h` is a parameter: a function from
-- the registers and the transfer buffer at the call to those at the return, or `none` where
-- `realmode_int` fails. Memory outside that buffer is a parameter as well, and the ports are a trace.
pub mod Choice
pub mod Modes
mod Tests
use alma_os.Base.{
  ℕ, zero, suc, List, [], ◌∷◌, ◌++◌, Bool, true, false, not, ◌&&◌, ◌||◌, Option, none, some, ◌+◌,
  ◌-◌, ◌*◌, ◌/◌, ◌%◌, ◌^◌, ◌==◌, ltb, leb, if◌then◌else◌, length, u8, u16, u32, has_bit, bit_or,
}

-- `video_kind_t`
pub data Kind : Type 0 where
  text : Kind
  vga13 : Kind
  vbe_lfb : Kind

-- `video_mode_info_t`
pub record ModeInfo : Type 0 where
  pub kind : Kind
  pub framebuffer : ℕ
  pub width : ℕ
  pub height : ℕ
  pub pitch : ℕ
  pub bpp : ℕ
  pub red_pos : ℕ
  pub red_size : ℕ
  pub green_pos : ℕ
  pub green_size : ℕ
  pub blue_pos : ℕ
  pub blue_size : ℕ
  pub vbe_mode : ℕ

-- The registers that the calls set and read.
pub record Regs : Type 0 where
  pub eax : ℕ
  pub ebx : ℕ
  pub ecx : ℕ
  pub eflags : ℕ

-- The transfer buffer, byte by byte.
abbrev pub Buffer : Type 0
Buffer = ℕ → ℕ

-- `realmode_int(0x10, &regs)` with what it leaves in the buffer.
abbrev pub Bios : Type 0
Bios = Regs → Buffer → Option (Regs × Buffer)

-- The file's static variables, the transfer buffer, and the bytes written to the palette's ports.
pub record Video : Type 0 where
  pub current : ModeInfo
  pub vbe_available : Bool
  pub vbe_version : ℕ
  pub buffer : Buffer
  pub dac : List (ℕ × ℕ)

-- The machine around the driver: the BIOS, `realmode_is_ready`, and the words of memory.
pub record Machine : Type 0 where
  pub bios : Bios
  pub ready : Bool
  pub word_at : Buffer → ℕ → ℕ

abbrev pub no_regs : Regs
no_regs = record { eax = 0; ebx = 0; ecx = 0; eflags = 0 }

abbrev pub no_mode : ModeInfo
no_mode = record {
  kind = text;
  framebuffer = 0;
  width = 0;
  height = 0;
  pitch = 0;
  bpp = 0;
  red_pos = 0;
  red_size = 0;
  green_pos = 0;
  green_size = 0;
  blue_pos = 0;
  blue_size = 0;
  vbe_mode = 0;
}

unfoldable pub far_ptr_to_linear : ℕ → ℕ
far_ptr_to_linear far_ptr = far_ptr / 2 ^ 16 % 2 ^ 16 * 16 + far_ptr % 2 ^ 16

abbrev pub buffer_u8 : Buffer → ℕ → ℕ
buffer_u8 b offset = u8 (b offset)

-- The two bytes do not meet, so that `|` is a sum.
unfoldable pub buffer_u16 : Buffer → ℕ → ℕ
buffer_u16 b offset = buffer_u8 b offset + buffer_u8 b (offset + 1) * 2 ^ 8

unfoldable pub buffer_u32 : Buffer → ℕ → ℕ
buffer_u32 b offset = buffer_u16 b offset + buffer_u16 b (offset + 2) * 2 ^ 16

abbrev pub text_mode : ModeInfo
text_mode = record no_mode {
  kind = text;
  framebuffer = 0xB8000;
  width = 80;
  height = 25;
  pitch = 160;
  bpp = 16;
}

-- `video_record_text_mode`
unfoldable pub record_text_mode : Video → Video
record_text_mode v = record v { current = text_mode }

-- The three bytes of an index of the palette.
unfoldable pub palette_entry : ℕ → List (ℕ × ℕ)
palette_entry index =
    let red = index / 2 ^ 5 % 2 ^ 3 in
    let green = index / 2 ^ 2 % 2 ^ 3 in
    let blue = index % 2 ^ 2 in
    (0x3C9, u8 (red * 255 / 7 / 2 ^ 2))
    ∷ (0x3C9, u8 (green * 255 / 7 / 2 ^ 2))
    ∷ (0x3C9, u8 (blue * 255 / 3 / 2 ^ 2))
    ∷ []

-- The loop, with `n` indices to go up to 256.
unfoldable pub palette_from : ℕ → List (ℕ × ℕ)
palette_from zero = []
palette_from (suc n) = palette_entry (256 - suc n) ++ palette_from n

-- `video_install_332_palette`
unfoldable pub install_332_palette : Video → Video
install_332_palette v = record v { dac = v.dac ++ ((0x3C8, 0) ∷ palette_from 256) }

abbrev pub vbe_supported : ℕ
vbe_supported = 0x004F

-- What `vbe_call` makes of the return of the BIOS; the buffer is the one it leaves.
unfoldable pub vbe_answer : Buffer → Option (Regs × Buffer) → Bool × Buffer
vbe_answer before none = (false, before)
vbe_answer before (some (regs, buffer)) =
    (not (has_bit regs.eflags 0) && u16 regs.eax == vbe_supported, buffer)

unfoldable pub vbe_call : Machine → ℕ → ℕ → Buffer → Bool × Buffer
vbe_call m ax cx buffer = vbe_answer buffer (m.bios (record no_regs { eax = ax; ecx = cx }) buffer)

-- `memcpy((void *)REALMODE_BUFFER_ADDR, "VBE2", 4)`
unfoldable pub ask_vbe2 : Buffer → Buffer
ask_vbe2 b = λ i.
    if i == 0
    then b'V'
    else if i == 1
    then b'B'
    else if i == 2
    then b'E'
    else if i == 3
    then b'2'
    else b i

unfoldable pub is_vesa : Buffer → Bool
is_vesa b =
    buffer_u8 b 0 == b'V' && buffer_u8 b 1 == b'E' && buffer_u8 b 2 == b'S' && buffer_u8 b 3 == b'A'

-- `video_init`
unfoldable pub init : Machine → Video → Video
init m v =
    let v' = record (record_text_mode v) { vbe_available = false; vbe_version = 0 } in
    let answer = vbe_call m 0x4F00 0 (ask_vbe2 v.buffer) in
    let asked = record v' { buffer = answer.1 } in
    if not m.ready
    then v'
    else if not answer.0
    then asked
    else if not (is_vesa answer.1)
    then asked
    else record asked { vbe_version = buffer_u16 answer.1 0x04; vbe_available = true }

-- What follows the BIOS's answer to the call that sets a mode of its own.
unfoldable pub bios_answered :
    Machine → (Video → Video) → Video → Option (Regs × Buffer) → Bool × Video
bios_answered m install v none = (false, v)
bios_answered m install v (some (regs, buffer)) =
    let v' = install (record v { buffer = buffer }) in if m.ready then (true, v') else (false, v)

-- Both of the modes of the BIOS that need no VBE; the buffer is the one that the call leaves.
unfoldable pub set_bios_mode : Machine → ℕ → (Video → Video) → Video → Bool × Video
set_bios_mode m ax install v =
    bios_answered m install v (m.bios (record no_regs { eax = ax }) v.buffer)

-- `video_set_text`
unfoldable pub set_text : Machine → Video → Bool × Video
set_text m v = set_bios_mode m 0x03 record_text_mode v

abbrev pub vga13_mode : ModeInfo
vga13_mode = record no_mode {
  kind = vga13;
  framebuffer = 0xA0000;
  width = 320;
  height = 200;
  pitch = 320;
  bpp = 8;
}

-- `video_set_vga13`
unfoldable pub set_vga13 : Machine → Video → Bool × Video
set_vga13 m v =
    set_bios_mode m 0x13 (λ w. record (install_332_palette w) { current = vga13_mode }) v

-- The copy of the list: up to `capacity` modes from `list[count]` on, before the end mark.
unfoldable pub collected : ℕ → (ℕ → ℕ) → ℕ → List ℕ
collected zero list count = []
collected (suc capacity) list count =
    let rest = collected capacity list (count + 1) in
    if list count == 0xFFFF then [] else list count ∷ rest

-- `vbe_collect_modes`, with the buffer that it leaves. The list is made of words.
unfoldable pub collect_modes : Machine → ℕ → Buffer → List ℕ × Buffer
collect_modes m capacity buffer =
    let answer = vbe_call m 0x4F00 0 (ask_vbe2 buffer) in
    let list = far_ptr_to_linear (buffer_u32 answer.1 0x0E) in
    if not answer.0
    then ([], answer.1)
    else if list == 0
    then ([], answer.1)
    else (collected capacity (λ i. m.word_at answer.1 (u32 (list + 2 * i))) 0, answer.1)

-- `vbe_score_bpp`
unfoldable pub score_bpp : ℕ → ℕ → ℕ
score_bpp mode_bpp wanted_bpp =
    if mode_bpp == wanted_bpp
    then 2
    else if mode_bpp == 32 || mode_bpp == 24 || mode_bpp == 16 || mode_bpp == 15
    then 1
    else 0

-- What the caller of `video_set_vbe` asks for.
pub record Wanted : Type 0 where
  pub width : ℕ
  pub height : ℕ
  pub bpp : ℕ

-- `best_mode`, `best_score` and `candidate`.
pub record Best : Type 0 where
  pub mode : ℕ
  pub score : ℕ
  pub candidate : ModeInfo

abbrev pub no_best : Best
no_best = record { mode = 0; score = 0; candidate = no_mode }

-- No `continue` of the loop up to the score: the mode is there, has a linear framebuffer for graphics,
-- the size that is wanted, and a memory model that the bridge knows.
unfoldable pub suitable : Wanted → Bool × Buffer → Bool
suitable w answer =
    let attributes = buffer_u16 answer.1 0x00 in
    let memory_model = buffer_u8 answer.1 0x1B in
    answer.0
    && has_bit attributes 0
    && has_bit attributes 4
    && has_bit attributes 7
    && buffer_u16 answer.1 0x12 == w.width
    && buffer_u16 answer.1 0x14 == w.height
    && (memory_model == 4 || memory_model == 6)

-- The candidate that a mode becomes.
unfoldable pub mode_info : Wanted → ℕ → Buffer → ModeInfo
mode_info w mode b = record {
  kind = vbe_lfb;
  framebuffer = buffer_u32 b 0x28;
  width = w.width;
  height = w.height;
  pitch = buffer_u16 b 0x10;
  bpp = buffer_u8 b 0x19;
  red_pos = buffer_u8 b 0x20;
  red_size = buffer_u8 b 0x1F;
  green_pos = buffer_u8 b 0x22;
  green_size = buffer_u8 b 0x21;
  blue_pos = buffer_u8 b 0x24;
  blue_size = buffer_u8 b 0x23;
  vbe_mode = mode;
}

-- The body of the loop, with the answer of the BIOS about a mode.
unfoldable pub consider : Wanted → Best → ℕ → Bool × Buffer → Best
consider w best mode answer =
    let score = score_bpp (buffer_u8 answer.1 0x19) w.bpp in
    if not (suitable w answer)
    then best
    else if leb score best.score
    then best
    else record { mode = mode; score = score; candidate = mode_info w mode answer.1 }

-- The loop over the modes, with the buffer that its last call leaves.
unfoldable pub scan : Machine → Wanted → Best → List ℕ → Buffer → Best × Buffer
scan m w best [] buffer = (best, buffer)
scan m w best (mode ∷ modes) buffer =
    let answer = vbe_call m 0x4F01 mode buffer in
    scan m w (consider w best mode answer) modes answer.1

-- The switch to the best mode.
unfoldable pub switch_to : Best → Video → Option (Regs × Buffer) → Bool × Video
switch_to best v none = (false, v)
switch_to best v (some (regs, buffer)) =
    let v' = record v { buffer = buffer } in
    if u16 regs.eax == vbe_supported
    then (true, record v' { current = best.candidate })
    else (false, v')

-- What follows the loop.
unfoldable pub settle : Machine → Video → Best → Buffer → Bool × Video
settle m v best buffer =
    let set_mode = record no_regs { eax = 0x4F02; ebx = bit_or best.mode 0x4000 } in
    let v' = record v { buffer = buffer } in
    if best.score == 0 || best.candidate.framebuffer == 0
    then (false, v')
    else switch_to best v' (m.bios set_mode buffer)

-- What follows the first test.
unfoldable pub try_modes : Machine → Wanted → Video → Bool × Video
try_modes m w v =
    let modes = collect_modes m 128 v.buffer in
    let best = scan m w no_best modes.0 modes.1 in
    if length modes.0 == 0 then (false, record v { buffer = modes.1 }) else settle m v best.0 best.1

-- `video_set_vbe`
unfoldable pub set_vbe : Machine → Wanted → Video → Bool × Video
set_vbe m w v =
    let r = try_modes m w v in if not m.ready || not v.vbe_available then (false, v) else r
