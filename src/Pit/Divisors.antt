-- ===== src/Pit/Divisors.antt =====
-- The divisor that src/kernel/pit.c sends.
use alma_os.Base.{ℕ, ◌+◌, ◌*◌, ◌/◌, ◌^◌, ◌≤◌, ltb, if◌then◌else◌, u8, ◌≡◌, arith}
use alma_os.Pit.{divisor_of}

-- A divisor is never 0 and its two bytes give it whole.
divisor_of-bytes :
    (frequency : ℕ)
    → let divisor = divisor_of frequency in
      (1 ≤ divisor) × (divisor ≤ 65535) × (u8 divisor + u8 (divisor / 2 ^ 8) * 2 ^ 8 ≡ divisor)
unfolding divisor_of
divisor_of-bytes frequency = bytes (1193182 / frequency)
  where
    bytes :
        (d : ℕ)
        → let cut : ℕ = if ltb 0xFFFF d then 0xFFFF else d in
          let divisor : ℕ = if ltb cut 1 then 1 else cut in
          (1 ≤ divisor) × (divisor ≤ 65535) × (u8 divisor + u8 (divisor / 2 ^ 8) * 2 ^ 8 ≡ divisor)
    bytes d = (ground arith, ground arith, ground arith)
