-- ===== src/Base/Bits.antt =====
-- `|` on numbers that are put together from fields of bits.
use Prim.Native.Nat.{
  ℕ, zero, suc, ◌+◌, ◌*◌, ◌/◌, ◌%◌, ◌^◌, ◌≤◌, ◌<◌, max, bit_or, digits, bit_or-bitwise,
}
use mathlib.Core.Path.{◌≡◌, sym, ap, ap₂, ◌∙◌}
use native.Mathlib.Nat.{pow-suc}
use native.Mathlib.Omega.{arith}

abbrev or_digits : ℕ → ℕ → ℕ → ℕ
or_digits fuel a b = digits (λ y. y) max fuel a b

pub zero-bit_or : (b : ℕ) → bit_or 0 b ≡ b
zero-bit_or b = bit_or-bitwise 0 b

-- As many rounds as the first number, or more, give `|`.
or_digits-bit_or : (bound n a b : ℕ) → n ≤ bound → a ≤ n → or_digits n a b ≡ bit_or a b
or_digits-bit_or bound zero zero b in_bound enough = omega (arith, zero-bit_or b)
or_digits-bit_or bound (suc n) zero b in_bound enough = omega (arith, zero-bit_or b)
or_digits-bit_or bound zero (suc a) b in_bound enough = absurd (omega (arith, enough))
or_digits-bit_or zero (suc n) (suc a) b in_bound enough = absurd (omega (arith, in_bound))
or_digits-bit_or (suc bound) (suc n) (suc a) b in_bound enough =
    let half = suc a / 2 in
    let here : or_digits n half (b / 2) ≡ bit_or half (b / 2) =
      or_digits-bit_or bound n half (b / 2) (omega (arith, in_bound)) (omega (arith, enough)) in
    let there : or_digits a half (b / 2) ≡ bit_or half (b / 2) =
      or_digits-bit_or bound a half (b / 2) (omega (arith, in_bound, enough)) (omega arith) in
    omega (arith, here, there, bit_or-bitwise (suc a) b)

-- The lowest bit, and the rest.
pub bit_or-halves : (a b : ℕ) → bit_or a b ≡ bit_or (a / 2) (b / 2) * 2 + max (a % 2) (b % 2)
bit_or-halves zero b = omega (arith, zero-bit_or (b / 2), zero-bit_or b)
bit_or-halves (suc a) b =
    let rest = or_digits-bit_or a a (suc a / 2) (b / 2) (omega arith) (omega arith) in
    omega (arith, rest, bit_or-bitwise (suc a) b)

twice-pow : (x k : ℕ) → x * 2 ^ suc k ≡ 2 * (x * 2 ^ k)
twice-pow x k = omega (arith, ap (λ (t : ℕ). x * t) (pow-suc 2 k))

-- Above `k` bits that only the first number uses, the two are joined as they stand there.
pub bit_or-above :
    (k x a b : ℕ) → b < 2 ^ k → bit_or (x * 2 ^ k + b) (a * 2 ^ k) ≡ bit_or x a * 2 ^ k + b
bit_or-above zero x a b h =
    let e : bit_or (x * 1 + b) (a * 1) ≡ bit_or x a = ap₂ bit_or (omega arith) (omega arith) in
    omega arith
bit_or-above (suc k) x a b h = omega (
  arith,
  bit_or-halves (x * 2 ^ suc k + b) (a * 2 ^ suc k),
  halves,
  twice-pow (bit_or x a) k,
  bit_or-above k x a (b / 2) (omega (arith, pow-suc 2 k)),
  twice-pow x k,
  twice-pow a k,
)
  where
    halves :
        bit_or ((x * 2 ^ suc k + b) / 2) (a * 2 ^ suc k / 2)
        ≡ bit_or (x * 2 ^ k + b / 2) (a * 2 ^ k)
    halves = ap₂ bit_or (omega (arith, twice-pow x k)) (omega (arith, twice-pow a k))

-- Fields that do not meet add up.
pub bit_or-fields : (k a b : ℕ) → b < 2 ^ k → bit_or b (a * 2 ^ k) ≡ a * 2 ^ k + b
bit_or-fields k a b h =
    ap (λ t. bit_or t (a * 2 ^ k)) (omega arith)
    ∙ bit_or-above k 0 a b h
    ∙ ap (λ t. t * 2 ^ k + b) (zero-bit_or a)

comm_below : (n a b : ℕ) → a ≤ n → b ≤ n → bit_or a b ≡ bit_or b a
comm_below zero a b ha hb = let same : a ≡ b = omega (arith, ha, hb) in ap₂ bit_or same (sym same)
comm_below (suc n) a b ha hb = omega (
  arith,
  bit_or-halves a b,
  bit_or-halves b a,
  comm_below n (a / 2) (b / 2) (omega (arith, ha)) (omega (arith, hb)),
)

pub bit_or_comm : (a b : ℕ) → bit_or a b ≡ bit_or b a
bit_or_comm a b = comm_below (a + b) a b (omega arith) (omega arith)
