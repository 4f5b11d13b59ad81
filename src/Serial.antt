-- ===== src/Serial.antt =====
-- The serial port, src/kernel/serial.c. The record Serial holds `serial_enabled` and what has been done
-- at the ports.
pub mod Sending
mod Tests
use alma_os.Base.{
  ℕ, zero, suc, List, [], ◌∷◌, Bool, true, false, not, Option, none, some, ◌+◌, ◌==◌, if◌then◌else◌,
  bit_and, u8,
}
use alma_os.Ports.{Event, wrote, asked, Device, inb}

-- `SERIAL_COM1_PORT`, with the offsets of the registers from it.
abbrev pub com1 : ℕ
com1 = 0x3F8

abbrev pub int_enable : ℕ
int_enable = 0x3F9

abbrev pub fifo_ctrl : ℕ
fifo_ctrl = 0x3FA

abbrev pub line_ctrl : ℕ
line_ctrl = 0x3FB

abbrev pub modem_ctrl : ℕ
modem_ctrl = 0x3FC

abbrev pub line_status : ℕ
line_status = 0x3FD

pub record Serial : Type 0 where
  pub enabled : Bool
  pub history : List Event

-- The writes of `serial_init` up to the read of the probe, the last one first.
abbrev pub set_up : List Event → List Event
set_up h =
    wrote com1 0xAE
    ∷ wrote modem_ctrl 0x1E
    ∷ wrote modem_ctrl 0x0B
    ∷ wrote fifo_ctrl 0xC7
    ∷ wrote line_ctrl 0x03
    ∷ wrote int_enable 0
    ∷ wrote com1 3
    ∷ wrote line_ctrl 0x80
    ∷ wrote int_enable 0
    ∷ h

-- `serial_init`, with its result.
unfoldable pub init : Device → Serial → Bool × Serial
init device s =
    let h = set_up s.history in
    if inb device h com1 == 0xAE
    then (true, record { enabled = true; history = wrote modem_ctrl 0x0B ∷ asked com1 ∷ h })
    else (false, record { enabled = false; history = asked com1 ∷ h })

-- `LSR_THR_EMPTY`
abbrev pub can_send : ℕ → Bool
can_send status = not (bit_and status 0x20 == 0)

-- The loop of `serial_wait_ready`, with the rounds that are left.
unfoldable pub wait : Device → ℕ → List Event → List Event
wait device zero h = h
wait device (suc spins) h =
    let rest = wait device spins (asked line_status ∷ h) in
    if can_send (inb device h line_status) then asked line_status ∷ h else rest

abbrev pub max_spins : ℕ
max_spins = 100000

unfoldable pub wait_ready : Device → List Event → List Event
wait_ready device h = wait device max_spins h

-- Waiting, and one byte.
unfoldable pub send : Device → ℕ → List Event → List Event
send device byte h = wrote com1 byte ∷ wait_ready device h

unfoldable pub putchar : Device → ℕ → Serial → Serial
putchar device c s =
    let h = if c == b'\n' then send device b'\r' s.history else s.history in
    if not s.enabled then s else record s { history = send device (u8 c) h }

unfoldable pub put_text : Device → List ℕ → Serial → Serial
put_text device [] s = s
put_text device (c ∷ text) s = put_text device text (putchar device c s)

-- `serial_puts`; `none` is the null pointer.
unfoldable pub puts : Device → Option (List ℕ) → Serial → Serial
puts device none s = s
puts device (some text) s = put_text device text s

-- `serial_has_data`, with `LSR_DATA_READY`.
unfoldable pub has_data : Device → Serial → Bool × Serial
has_data device s = if not s.enabled then (false, s) else (
  not (bit_and (inb device s.history line_status) 1 == 0),
  record s { history = asked line_status ∷ s.history },
)

unfoldable pub getchar : Device → Serial → ℕ × Serial
getchar device s =
    let r = has_data device s in
    if not r.0
    then (0, r.1)
    else (inb device r.1.history com1, record r.1 { history = asked com1 ∷ r.1.history })
