-- ===== src/Common/Xor.antt =====
-- Laws of the exclusive or at variables: each argument is determined by the other and the result,
-- and the result fits the width of the arguments.
use Prim.Native.Nat.{bit_xor, bit_xor-bitwise, digits, differ}
use Prim.Native.Nat.{ℕ, zero, suc, ◌+◌, ◌*◌, ◌/◌, ◌%◌, ◌^◌, ◌≤◌, ◌<◌}
use mathlib.Core.Path.{◌≡◌, refl}
use native.Mathlib.Nat.{pow-suc}
use native.Mathlib.Omega.{arith}

abbrev xor_digits : ℕ → ℕ → ℕ → ℕ
xor_digits n a b = digits (λ b. b) differ n a b

xor_digits_fuel : (n m a b : ℕ) → a ≤ n → a ≤ m → xor_digits n a b ≡ xor_digits m a b
xor_digits_fuel zero zero a b p q = refl
xor_digits_fuel zero (suc m) zero b p q = refl
xor_digits_fuel zero (suc m) (suc a) b p q = absurd (omega arith)
xor_digits_fuel (suc n) zero zero b p q = refl
xor_digits_fuel (suc n) zero (suc a) b p q = absurd (omega arith)
xor_digits_fuel (suc n) (suc m) zero b p q = refl
xor_digits_fuel (suc n) (suc m) (suc a) b p q =
    omega (arith, xor_digits_fuel n m (suc a / 2) (b / 2) (omega arith) (omega arith))

zero-bit_xor : (b : ℕ) → bit_xor 0 b ≡ b
zero-bit_xor b = bit_xor-bitwise 0 b

differ_lem : (a b : ℕ) → a < 2 → b < 2 → differ a b ≡ (a + b) % 2
differ_lem zero b p q = omega arith
differ_lem (suc zero) zero p q = refl
differ_lem (suc zero) (suc zero) p q = refl
differ_lem (suc zero) (suc (suc b)) p q = absurd (omega arith)
differ_lem (suc (suc a)) b p q = absurd (omega arith)

pub bit_xor_step : (a b : ℕ) → bit_xor a b ≡ bit_xor (a / 2) (b / 2) * 2 + (a % 2 + b % 2) % 2
bit_xor_step zero b = omega (arith, zero-bit_xor b, zero-bit_xor (b / 2))
bit_xor_step (suc a) b = omega (
  arith,
  bit_xor-bitwise (suc a) b,
  bit_xor-bitwise (suc a / 2) (b / 2),
  xor_digits_fuel a (suc a / 2) (suc a / 2) (b / 2) (omega arith) (omega arith),
  differ_lem (suc a % 2) (b % 2) (omega arith) (omega arith),
)

bit_xor_left_fuel : (k a b c : ℕ) → a ≤ k → b ≤ k → bit_xor a c ≡ bit_xor b c → a ≡ b
bit_xor_left_fuel zero a b c p q e = omega arith
bit_xor_left_fuel (suc k) a b c p q e = omega (
  arith,
  bit_xor_step a c,
  bit_xor_step b c,
  bit_xor_left_fuel k (a / 2) (b / 2) (c / 2) (omega arith) (omega arith)
      (omega (arith, bit_xor_step a c, bit_xor_step b c)),
)

pub bit_xor_left_injective : (a b c : ℕ) → bit_xor a c ≡ bit_xor b c → a ≡ b
bit_xor_left_injective a b c e = bit_xor_left_fuel (a + b) a b c (omega arith) (omega arith) e

bit_xor_right_fuel : (k a b c : ℕ) → b ≤ k → c ≤ k → bit_xor a b ≡ bit_xor a c → b ≡ c
bit_xor_right_fuel zero a b c p q e = omega arith
bit_xor_right_fuel (suc k) a b c p q e = omega (
  arith,
  bit_xor_step a b,
  bit_xor_step a c,
  bit_xor_right_fuel k (a / 2) (b / 2) (c / 2) (omega arith) (omega arith)
      (omega (arith, bit_xor_step a b, bit_xor_step a c)),
)

pub bit_xor_right_injective : (a b c : ℕ) → bit_xor a b ≡ bit_xor a c → b ≡ c
bit_xor_right_injective a b c e = bit_xor_right_fuel (b + c) a b c (omega arith) (omega arith) e

pub bit_xor-lt : (k a b : ℕ) → a < 2 ^ k → b < 2 ^ k → bit_xor a b < 2 ^ k
bit_xor-lt zero a b p q =
    let a_zero : a ≡ 0 = omega arith in
    let b_zero : b ≡ 0 = omega arith in rw (a_zero, b_zero) (omega (arith, zero-bit_xor 0))
bit_xor-lt (suc k) a b p q = omega (
  arith,
  bit_xor_step a b,
  pow-suc 2 k,
  bit_xor-lt k (a / 2) (b / 2) (omega (arith, pow-suc 2 k)) (omega (arith, pow-suc 2 k)),
)
