-- ===== src/Gfx/Buffers.antt =====
-- The buffers that `gfx_bridge_init` of src/kernel/gfx_bridge.c gets from the page allocator.
use alma_os.Base.{
  ℕ, Bool, true, false, none, some, ◌+◌, ◌^◌, ◌<◌, ◌≤◌, ◌≡◌, ◌⊎◌, inl, inr, refl, arith, Bool-cases,
}
use alma_os.Kalloc.{Region, pages}
use alma_os.Kalloc.Blocks.{IsValid, rounded, pages_outcome, pages-IsValid}
use alma_os.Video.{ModeInfo}
use alma_os.Gfx.{
  Bridge, Words, FbClear, buffer_bytes, has_pixels, cleared, with_color, request, init, framebuffer,
  depth_buffer,
}

-- What a successful start of the bridge has.
pub record IsAttached (mode : ModeInfo) (r : Region) (b : Bridge) (r' : Region) : Type 0 where
  pub color : ℕ
  pub depth : ℕ
  pub has_color : framebuffer b ≡ some color
  pub has_depth : depth_buffer b ≡ some depth
  pub same_mode : b.mode ≡ mode
  pub free_before : r.base + r.offset ≤ color
  pub apart : color + buffer_bytes mode ≤ depth
  pub inside : depth + buffer_bytes mode ≤ r'.base + r'.offset

-- Neither buffer is there.
abbrev pub IsDetached : Bridge → Type 0
IsDetached b = (framebuffer b ≡ none) × (depth_buffer b ≡ none)

abbrev Result : ModeInfo → Region → (Bool × Bridge × Words) × Region → Type 0
Result mode r o =
    ((o.0.0 ≡ true) × IsAttached mode r o.0.1 o.1) ⊎ ((o.0.0 ≡ false) × IsDetached o.0.1)

buffer_bytes-small : (mode : ModeInfo) → buffer_bytes mode < 2 ^ 32
buffer_bytes-small mode = omega arith

Result-second :
    (clear : FbClear) (b : Bridge) (mode : ModeInfo) (mem : Words) (r r' : Region) (color : ℕ)
    → IsValid r'
    → IsDetached b
    → r.base + r.offset ≤ color
    → color + buffer_bytes mode ≤ r'.base + r'.offset
    → Result mode r (with_color clear b mode mem color (pages r' (buffer_bytes mode)))
Result-second clear b mode mem r r' color v detached free below =
    elim (pages_outcome (buffer_bytes mode) v (buffer_bytes-small mode)) [
      | inl (f, e) ↦ rw e (
          unfold with_color framebuffer depth_buffer in
          inl (
            refl,
            record {
              color = color;
              depth = r'.base + r'.offset;
              has_color = refl;
              has_depth = refl;
              same_mode = refl;
              free_before = free;
              apart = below;
              inside = omega arith;
            },
          ))
      | inr (f, e) ↦ rw e (unfold with_color in inr (refl, detached))
    ]

Result-first :
    (clear : FbClear) (b : Bridge) (mode : ModeInfo) (mem : Words) (r : Region)
    → IsValid r
    → IsDetached b
    → Result mode r (request clear b mode mem (pages r (buffer_bytes mode)))
Result-first clear b mode mem r v detached =
    let small = buffer_bytes-small mode in
    let (v', base, capacity, grows) = pages-IsValid (buffer_bytes mode) v small in
    elim (pages_outcome (buffer_bytes mode) v small) [
      | inl (f, e) ↦
          let r' = record r { offset = r.offset + rounded (buffer_bytes mode) } in
          let valid : IsValid r' = rw e at v' in
          rw e (
            unfold request in
            Result-second clear b mode mem r r' (r.base + r.offset) valid detached (omega arith)
              (omega arith))
      | inr (f, e) ↦ rw e (unfold request in inr (refl, detached))
    ]

-- `gfx_bridge_init` with a valid region of the page allocator either succeeds, in a mode that has
-- pixels, with a colour and a depth buffer that lie one behind the other in what was free, each as
-- long as was asked for, or it fails, and neither buffer can be had. In a mode without pixels it
-- fails and takes no memory.
pub init-IsAttached :
    (clear : FbClear) (b : Bridge) (mode : ModeInfo) (mem : Words) (r : Region)
    → IsValid r
    → let o = init clear b mode mem r in
      (((o.0.0 ≡ true) × IsAttached mode r o.0.1 o.1) ⊎ ((o.0.0 ≡ false) × IsDetached o.0.1))
      × (has_pixels mode ≡ false → (o.0.0 ≡ false) × (o.1 ≡ r))
init-IsAttached clear b mode mem r v =
    let detached : IsDetached (cleared b) = unfold framebuffer depth_buffer in (refl, refl) in
    (
      elim (Bool-cases (has_pixels mode)) [
        | inl e ↦ unfold init in rw e (Result-first clear (cleared b) mode mem r v detached)
        | inr e ↦ unfold init in rw e (inr (refl, detached))
      ],
      λ e. unfold init in rw e (refl, refl),
    )
