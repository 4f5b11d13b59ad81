-- ===== src/Serial/Tests.antt =====
-- Tests of the serial port, and its theorem at a concrete input.
use alma_os.Base.{ℕ, [], ◌∷◌, true, false, some, ◌*◌, ◌+◌, ◌≤◌, ◌==◌, if◌then◌else◌, ◌≡◌, ◌≢◌, refl}
use alma_os.Base.Text.{codes}
use alma_os.Ports.{asked, Device, written, reads}
use alma_os.Serial.{Serial, com1, init, getchar, has_data, puts}
use alma_os.Serial.Sending.{sent_after, puts-sent_after}

-- A UART that is always ready and echoes.
abbrev uart : Device
uart h port = if port == com1 then 0xAE else 0x21

-- No UART.
abbrev nothing : Device
nothing h port = 0xFF

abbrev off : Serial
off = record { enabled = false; history = [] }

abbrev on : Serial
on = record { enabled = true; history = [] }

init-uart :
    ((init uart off).0 ≡ true)
    × ((init nothing on).0 ≡ false)
    × ((init nothing on).1.enabled ≡ false)
unfolding init
init-uart = (refl, refl, refl)

getchar-uart :
    getchar uart on ≡ (0xAE, record { enabled = true; history = asked com1 ∷ asked 0x3FD ∷ [] })
unfolding getchar has_data
getchar-uart = refl

sent_after-line : sent_after [] (codes "a\n") ≡ b'\n' ∷ b'\r' ∷ b'a' ∷ []
unfolding sent_after
sent_after-line = refl

puts-sent_after_example :
    (written com1 (puts uart (some (codes "a\n")) on).history ≡ sent_after [] (codes "a\n"))
    × ((port : ℕ) → port ≢ com1 → written port (puts uart (some (codes "a\n")) on).history ≡ [])
    × (reads (puts uart (some (codes "a\n")) on).history ≤ 0 + 2 * 200000)
unfolding written reads
puts-sent_after_example = puts-sent_after uart (codes "a\n") on refl
