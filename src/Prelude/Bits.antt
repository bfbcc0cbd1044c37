-- ===== src/Prelude/Bits.antt =====
-- Facts about the bit operations: checks of all bytes by evaluation, and laws for every width.
use Prim.Native.Nat.{
  ℕ, zero, suc, ◌+◌, ◌*◌, ◌/◌, ◌%◌, ◌^◌, ◌≤◌, ◌<◌, min, max, bit_xor, bit_or, bit_and, digits,
  bitwise, bit_xor-bitwise, bit_or-bitwise, bit_and-bitwise, differ,
}
use mathlib.Core.Path.{◌≡◌, refl, ap}
use mathlib.Core.Bool.{Bool, true, ◌&&◌}
use native.Mathlib.Omega.{arith}
use native.Mathlib.Nat.{pow-suc, le_refl}

-- Does a test hold of every byte below a bound?
unfoldable pub holds_below : (ℕ → Bool) → ℕ → Bool
holds_below test zero = true
holds_below test (suc bound) = holds_below test bound && test bound

pub holds_below_at :
    (test : ℕ → Bool) (bound at : ℕ) → at < bound → holds_below test bound ≡ true → test at ≡ true
unfolding holds_below
holds_below_at test zero at inside all = absurd (omega arith)
holds_below_at test (suc bound) at inside all = ground (arith, holds_below_at test bound at)

-- The native operations recurse on the binary digits with fuel, which is of no account here.
module _ (base : ℕ → ℕ) (digit : ℕ → ℕ → ℕ) where
  any_fuel : (a k l b : ℕ) → a ≤ l → a ≤ k → digits base digit k a b ≡ digits base digit l a b
  any_fuel zero zero zero b hl hk = refl
  any_fuel zero zero (suc l) b hl hk = refl
  any_fuel zero (suc k) zero b hl hk = refl
  any_fuel zero (suc k) (suc l) b hl hk = refl
  any_fuel (suc a) zero l b hl hk = absurd (omega arith)
  any_fuel (suc a) (suc k) zero b hl hk = absurd (omega arith)
  any_fuel (suc a) (suc k) (suc l) b hl hk =
      rw (any_fuel (suc a / 2) k l (b / 2) (omega arith) (omega arith))

  halves :
      ((b : ℕ) → base b ≡ base (b / 2) * 2 + digit 0 (b % 2))
      → (a b : ℕ)
      → bitwise base digit a b ≡ bitwise base digit (a / 2) (b / 2) * 2 + digit (a % 2) (b % 2)
  halves last zero b = last b
  halves last (suc a) b =
      omega (arith, any_fuel (suc a / 2) a (suc a / 2) (b / 2) (le_refl _) (omega arith))

differ-lt-two : (a b : ℕ) → a < 2 → b < 2 → differ a b < 2
differ-lt-two zero b h k = k
differ-lt-two (suc zero) zero h k = h
differ-lt-two (suc zero) (suc b) h k = omega arith
differ-lt-two (suc (suc a)) b h k = absurd (omega arith)

bit_xor_halves : (a b : ℕ) → bit_xor a b ≡ bit_xor (a / 2) (b / 2) * 2 + differ (a % 2) (b % 2)
bit_xor_halves a b = simp bit_xor-bitwise (halves (λ y. y) differ (λ y. omega arith) a b)

bit_or_halves : (a b : ℕ) → bit_or a b ≡ bit_or (a / 2) (b / 2) * 2 + max (a % 2) (b % 2)
bit_or_halves a b = simp bit_or-bitwise (halves (λ y. y) max (λ y. omega arith) a b)

bit_and_halves : (a b : ℕ) → bit_and a b ≡ bit_and (a / 2) (b / 2) * 2 + min (a % 2) (b % 2)
bit_and_halves a b = simp bit_and-bitwise (halves (λ y. 0) min (λ y. omega arith) a b)

-- Exclusive or stays within the width of its arguments.
pub bit_xor-lt : (w a b : ℕ) → a < 2 ^ w → b < 2 ^ w → bit_xor a b < 2 ^ w
bit_xor-lt zero zero zero p q = omega arith
bit_xor-lt zero zero (suc b) p q = absurd (omega arith)
bit_xor-lt zero (suc a) b p q = absurd (omega arith)
bit_xor-lt (suc w) a b p q = omega (
  arith,
  pow-suc 2 w,
  bit_xor_halves a b,
  differ-lt-two (a % 2) (b % 2) (omega arith) (omega arith),
  bit_xor-lt w (a / 2) (b / 2) (omega (arith, pow-suc 2 w)) (omega (arith, pow-suc 2 w)),
)

halve : (q k : ℕ) → q * 2 ^ suc k ≡ 2 * (q * 2 ^ k)
halve q k = omega (arith, ap (λ (t : ℕ). q * t) (pow-suc 2 k))

-- `r | (q << k)` is a sum when `r` fits in `k` bits.
pub bit_or-shifted : (k q r : ℕ) → r < 2 ^ k → bit_or r (q * 2 ^ k) ≡ r + q * 2 ^ k
bit_or-shifted zero q zero h = simp bit_or-bitwise (omega arith)
bit_or-shifted zero q (suc r) h = absurd (omega arith)
bit_or-shifted (suc k) q r h = ground (
  arith,
  bit_or_halves r (q * 2 ^ suc k),
  halve q k,
  pow-suc 2 k,
  bit_or-shifted k q (r / 2) (omega (arith, pow-suc 2 k)),
)

bit_and-zero_below : (n a : ℕ) → a ≤ n → bit_and a 0 ≡ 0
bit_and-zero_below n zero h = refl
bit_and-zero_below zero (suc a) h = absurd (omega arith)
bit_and-zero_below (suc n) (suc a) h =
    omega (arith, bit_and_halves (suc a) 0, bit_and-zero_below n (suc a / 2) (omega arith))

pub bit_and-zero : (a : ℕ) → bit_and a 0 ≡ 0
bit_and-zero a = bit_and-zero_below a a (omega arith)

-- A mask of ones keeps the remainder, one digit after the other.
bit_and_15 : (a : ℕ) → bit_and a 15 ≡ a % 16
bit_and_15 a = omega (
  arith,
  bit_and_halves a 15,
  bit_and_halves (a / 2) 7,
  bit_and_halves (a / 2 / 2) 3,
  bit_and_halves (a / 2 / 2 / 2) 1,
  bit_and-zero (a / 2 / 2 / 2 / 2),
)

pub bit_and_127 : (a : ℕ) → bit_and a 127 ≡ a % 128
bit_and_127 a = omega (
  arith,
  bit_and_halves a 127,
  bit_and_halves (a / 2) 63,
  bit_and_halves (a / 2 / 2) 31,
  bit_and_15 (a / 2 / 2 / 2),
)
