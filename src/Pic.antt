-- ===== src/Pic.antt =====
-- The interrupt controllers, src/kernel/pic.c, over what has been done at the ports.
pub mod Masks
mod Tests
use alma_os.Base.{ℕ, List, [], ◌∷◌, ◌+◌, ◌-◌, ◌^◌, ltb, if◌then◌else◌, bit_or, bit_and, u8}
use alma_os.Ports.{Event, wrote, asked, Device, inb}

abbrev pub pic1_cmd : ℕ
pic1_cmd = 0x20

abbrev pub pic1_data : ℕ
pic1_data = 0x21

abbrev pub pic2_cmd : ℕ
pic2_cmd = 0xA0

abbrev pub pic2_data : ℕ
pic2_data = 0xA1

-- `outb` and `io_wait`.
unfoldable pub slow_outb : ℕ → ℕ → List Event → List Event
slow_outb port val h = wrote 0x80 0 ∷ wrote port (u8 val) ∷ h

-- `pic_remap`
unfoldable pub remap : Device → ℕ → ℕ → List Event → List Event
remap device master_offset slave_offset h =
    let mask1 = inb device h pic1_data in
    let h = asked pic1_data ∷ h in
    let mask2 = inb device h pic2_data in
    let h = asked pic2_data ∷ h in
    let h = slow_outb pic2_cmd 0x11 (slow_outb pic1_cmd 0x11 h) in
    let h = slow_outb pic2_data slave_offset (slow_outb pic1_data master_offset h) in
    let h = slow_outb pic2_data 0x02 (slow_outb pic1_data 0x04 h) in
    let h = slow_outb pic2_data 0x01 (slow_outb pic1_data 0x01 h) in
    wrote pic2_data mask2 ∷ wrote pic1_data mask1 ∷ h

-- `pic_send_eoi`
unfoldable pub send_eoi : ℕ → List Event → List Event
send_eoi irq h = let h = if ltb irq 8 then h else wrote pic2_cmd 0x20 ∷ h in wrote pic1_cmd 0x20 ∷ h

-- The data port of the controller of an interrupt line, and the line's number there.
unfoldable pub port_of : ℕ → ℕ
port_of irq = if ltb irq 8 then pic1_data else pic2_data

unfoldable pub line_of : ℕ → ℕ
line_of irq = if ltb irq 8 then irq else irq - 8

-- `val | (1 << irq)`, as a byte.
abbrev pub with_line : ℕ → ℕ → ℕ
with_line val line = u8 (bit_or val (2 ^ line))

-- `val & ~(1 << irq)`, of which the low 8 bits count.
abbrev pub without_line : ℕ → ℕ → ℕ
without_line val line = bit_and val (255 - u8 (2 ^ line))

-- `pic_set_mask`
unfoldable pub set_mask : Device → ℕ → List Event → List Event
set_mask device irq h =
    wrote (port_of irq) (with_line (inb device h (port_of irq)) (line_of irq))
    ∷ asked (port_of irq)
    ∷ h

-- `pic_clear_mask`
unfoldable pub clear_mask : Device → ℕ → List Event → List Event
clear_mask device irq h =
    wrote (port_of irq) (without_line (inb device h (port_of irq)) (line_of irq))
    ∷ asked (port_of irq)
    ∷ h
