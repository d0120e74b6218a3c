-- ===== src/Base/Bits.antt =====
-- `bit_or` of numbers that share no bit is their sum, for every width.
use Prim.Native.Nat.{
  ℕ, zero, suc, ◌+◌, ◌*◌, ◌/◌, ◌%◌, ◌^◌, ◌≤◌, ◌<◌, max, bit_or, digits, bit_or-bitwise,
}
use mathlib.Core.Path.{◌≡◌, refl, ap}
use native.Mathlib.Omega.{arith}
use native.Mathlib.Nat.{pow-suc}

abbrev or_digits : ℕ → ℕ → ℕ → ℕ
or_digits n a b = digits (λ b. b) max n a b

or_digits_fuel : (n m a b : ℕ) → a ≤ n → a ≤ m → or_digits n a b ≡ or_digits m a b
or_digits_fuel zero zero a b p q = refl
or_digits_fuel zero (suc m) zero b p q = refl
or_digits_fuel zero (suc m) (suc a) b p q = absurd (omega arith)
or_digits_fuel (suc n) zero zero b p q = refl
or_digits_fuel (suc n) zero (suc a) b p q = absurd (omega arith)
or_digits_fuel (suc n) (suc m) zero b p q = refl
or_digits_fuel (suc n) (suc m) (suc a) b p q =
    omega (arith, or_digits_fuel n m (suc a / 2) (b / 2) (omega arith) (omega arith))

zero-bit_or : (b : ℕ) → bit_or 0 b ≡ b
zero-bit_or b = bit_or-bitwise 0 b

bit_or_step : (a b : ℕ) → bit_or a b ≡ bit_or (a / 2) (b / 2) * 2 + max (a % 2) (b % 2)
bit_or_step zero b = omega (arith, zero-bit_or b, zero-bit_or (b / 2))
bit_or_step (suc a) b = omega (
  arith,
  bit_or-bitwise (suc a) b,
  bit_or-bitwise (suc a / 2) (b / 2),
  or_digits_fuel a (suc a / 2) (suc a / 2) (b / 2) (omega arith) (omega arith),
)

bit_or-zero_fuel : (n a : ℕ) → a ≤ n → bit_or a 0 ≡ a
bit_or-zero_fuel n zero h = refl
bit_or-zero_fuel zero (suc a) h = absurd (omega arith)
bit_or-zero_fuel (suc n) (suc a) h =
    omega (arith, bit_or_step (suc a) 0, bit_or-zero_fuel n (suc a / 2) (omega arith))

pub bit_or-zero : (a : ℕ) → bit_or a 0 ≡ a
bit_or-zero a = bit_or-zero_fuel a a (omega arith)

or_double : (c b : ℕ) → bit_or (c * 2) b ≡ bit_or c (b / 2) * 2 + b % 2
or_double c b =
    let e : c * 2 / 2 ≡ c = omega arith in
    omega (arith, bit_or_step (c * 2) b, ap (λ (t : ℕ). bit_or t (b / 2)) e)

shift_suc : (k a : ℕ) → a * 2 ^ suc k ≡ a * 2 ^ k * 2
shift_suc k a = omega (arith, ap (λ (t : ℕ). a * t) (pow-suc 2 k))

-- A number shifted left by k, joined with one below 2 ^ k.
pub bit_or_disjoint : (k a b : ℕ) → b < 2 ^ k → bit_or (a * 2 ^ k) b ≡ a * 2 ^ k + b
bit_or_disjoint zero a b h =
    let e : b ≡ 0 = omega arith in
    let f : a * 2 ^ 0 ≡ a = omega arith in rw (e, f, bit_or-zero a) (omega arith)
bit_or_disjoint (suc k) a b h = rw (shift_suc k a) (
    omega
      (arith, or_double (a * 2 ^ k) b, bit_or_disjoint k a (b / 2) (omega (arith, pow-suc 2 k))))

or_double_right : (b c : ℕ) → bit_or b (c * 2) ≡ bit_or (b / 2) c * 2 + b % 2
or_double_right b c =
    let e : c * 2 / 2 ≡ c = omega arith in
    omega (arith, bit_or_step b (c * 2), ap (bit_or (b / 2)) e)

-- The same with the low number on the left.
pub bit_or_disjoint_low : (k a b : ℕ) → b < 2 ^ k → bit_or b (a * 2 ^ k) ≡ a * 2 ^ k + b
bit_or_disjoint_low zero a b h =
    let e : b ≡ 0 = omega arith in
    let f : a * 2 ^ 0 ≡ a = omega arith in rw (e, f, zero-bit_or a) (omega arith)
bit_or_disjoint_low (suc k) a b h = rw (shift_suc k a) (
    omega (
      arith,
      or_double_right b (a * 2 ^ k),
      bit_or_disjoint_low k a (b / 2) (omega (arith, pow-suc 2 k)),
    ))
