-- ===== src/Pit.antt =====
-- The timer, src/kernel/pit.c. The record Pit holds its counter and what has been done at the ports.
mod Divisors
mod Tests
use alma_os.Base.{ℕ, List, [], ◌∷◌, ◌+◌, ◌/◌, ◌^◌, ◌==◌, ltb, if◌then◌else◌, u8, u32}
use alma_os.Ports.{Event, wrote}

pub record Pit : Type 0 where
  pub tick_count : ℕ
  pub history : List Event

-- A `frequency` of 0 stands for 100 Hz.
unfoldable pub frequency_of : ℕ → ℕ
frequency_of frequency = if frequency == 0 then 100 else frequency

unfoldable pub divisor_of : ℕ → ℕ
divisor_of frequency =
    let divisor = 1193182 / frequency in
    let divisor : ℕ = if ltb 0xFFFF divisor then 0xFFFF else divisor in
    if ltb divisor 1 then 1 else divisor

-- `pit_init`
unfoldable pub init : ℕ → Pit → Pit
init frequency p =
    let divisor = divisor_of (frequency_of frequency) in
    record {
      tick_count = 0;
      history =
          wrote 0x40 (u8 (divisor / 2 ^ 8)) ∷ wrote 0x40 (u8 divisor) ∷ wrote 0x43 0x36 ∷ p.history;
    }

-- `pit_handler`
unfoldable pub handler : Pit → Pit
handler p = record p { tick_count = u32 (p.tick_count + 1) }
