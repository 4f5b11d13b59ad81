-- ===== src/Video/Modes.antt =====
-- The mode that src/kernel/video.c describes after each of its setters.
use alma_os.Base.{ℕ, Bool, true, false, none, some, bit_or, u16, ◌≡◌, ◌≢◌, ◌⊎◌}
use alma_os.Video.{Machine, Video, vbe_lfb, ModeInfo, Regs, no_regs, Buffer, Wanted}
use alma_os.Video.Choice.{Refuses}

-- A setter either refuses, and the mode stays, or succeeds, and describes one with a property.
abbrev pub Sets : Video → (ModeInfo → Type 0) → Bool × Video → Type 0
Sets v P r = Refuses v r ⊎ ((r.0 ≡ true) × P r.1.current)

-- A mode of the BIOS is set when the BIOS has answered the call for it, and otherwise refused.
abbrev pub SetsBios : Machine → ℕ → ModeInfo → Video → Bool × Video → Type 0
SetsBios m ax mode v r =
    (((m.ready ≡ false) ⊎ (m.bios (record no_regs { eax = ax }) v.buffer ≡ none)) × Refuses v r)
    ⊎ ((m.ready ≡ true)
        × (answer : Regs × Buffer) × (m.bios (record no_regs { eax = ax }) v.buffer ≡ some answer)
        × (r.0 ≡ true)
        × (r.1.current ≡ mode))

-- A mode that `video_set_vbe` may set: of the size that was asked for, with a framebuffer.
pub record IsVbe (w : Wanted) (c : ModeInfo) : Type 0 where
  pub lfb : c.kind ≡ vbe_lfb
  pub wide : c.width ≡ w.width
  pub high : c.height ≡ w.height
  pub there : c.framebuffer ≢ 0

-- Such a mode, for which the BIOS has answered the call that sets it with success.
abbrev pub IsVbeSet : Machine → Wanted → ModeInfo → Type 0
IsVbeSet m w c =
    IsVbe w c
    × (buffer : Buffer) × (answer : Regs × Buffer) × (m.bios
          (record no_regs { eax = 0x4F02; ebx = bit_or c.vbe_mode 0x4000 }) buffer
        ≡ some answer)
    × (u16 answer.0.eax ≡ 0x004F)
