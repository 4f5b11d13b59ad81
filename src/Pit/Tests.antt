-- ===== src/Pit/Tests.antt =====
-- Tests of the timer.
use alma_os.Base.{[], ◌∷◌, ◌≡◌, refl}
use alma_os.Ports.{wrote}
use alma_os.Pit.{divisor_of, frequency_of, init, handler}

-- 100 Hz, the default, is a divisor of 11931.
init-default :
    init 0 (record { tick_count = 7; history = [] })
    ≡ record { tick_count = 0; history = wrote 0x40 0x2E ∷ wrote 0x40 0x9B ∷ wrote 0x43 0x36 ∷ [] }
unfolding init divisor_of frequency_of
init-default = refl

-- The counter wraps.
handler-wraps :
    handler (record { tick_count = 0xFFFFFFFF; history = [] })
    ≡ record { tick_count = 0; history = [] }
unfolding handler
handler-wraps = refl
