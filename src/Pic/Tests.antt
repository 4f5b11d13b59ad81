-- ===== src/Pic/Tests.antt =====
-- Tests of the interrupt controllers, and their theorem at a concrete input.
use alma_os.Base.{[], ◌∷◌, not, ◌&&◌, ◌||◌, ◌==◌, if◌then◌else◌, has_bit, ◌≡◌, refl, arith}
use alma_os.Ports.{Device, written, wrote}
use alma_os.Pic.{remap, slow_outb, send_eoi, set_mask, clear_mask}
use alma_os.Pic.Masks.{IsMasked, masks-IsMasked}

abbrev pics : Device
pics h port = if port == 0x21 then 0xB8 else 0x8F

-- The offsets and the other words of the set-up, and then the masks that were read.
remap-writes :
    (written 0x21 (remap pics 0x20 0x28 []) ≡ 0xB8 ∷ 1 ∷ 4 ∷ 0x20 ∷ [])
    × (written 0xA1 (remap pics 0x20 0x28 []) ≡ 0x8F ∷ 1 ∷ 2 ∷ 0x28 ∷ [])
unfolding remap slow_outb written
remap-writes = (refl, refl)

send_eoi-slave : send_eoi 12 [] ≡ wrote 0x20 0x20 ∷ wrote 0xA0 0x20 ∷ []
unfolding send_eoi
send_eoi-slave = refl

masks-IsMasked_example :
    IsMasked 0xA1 (λ j. j == 4 || has_bit 0x8F j) [] (set_mask pics 12 [])
    × IsMasked 0xA1 (λ j. not (j == 4) && has_bit 0x8F j) [] (clear_mask pics 12 [])
masks-IsMasked_example = masks-IsMasked pics 12 [] (omega arith)
