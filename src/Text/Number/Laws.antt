-- ===== src/Text/Number/Laws.antt =====
-- Printed numbers can be told apart.
use ajar_gateway.Common.{
  ℕ, zero, suc, ◌+◌, ◌-◌, ◌*◌, ◌/◌, ◌%◌, ◌^◌, ◌<◌, ◌≤◌, ◌≡◌, refl, ap, sym, ◌∙◌, arith, [], ◌∷◌,
  ◌++◌, length, length-append,
}
use ajar_gateway.Text.{Text}
use ajar_gateway.Text.Number.{decimal, decimal_from, hex, hex_digit}
use native.Mathlib.Nat.{pow-suc}
use native.Mathlib.Decide.{dec_lt}

-- Parts of equal length can be cut off equal texts.
pub append_cancel : (s t u v : Text) → length s ≡ length t → s ++ u ≡ t ++ v → (s ≡ t) × (u ≡ v)
append_cancel [] [] u v l e = (refl, e)
append_cancel [] (y ∷ t) u v l e = absurd (omega arith)
append_cancel (x ∷ s) [] u v l e = absurd (omega arith)
append_cancel (x ∷ s) (y ∷ t) u v l e = ground (arith, append_cancel s t u v)

pub snoc-injective : (s t : Text) (x y : ℕ) → s ++ x ∷ [] ≡ t ++ y ∷ [] → (s ≡ t) × (x ≡ y)
snoc-injective s t x y e =
    let lengths : length s + 1 ≡ length t + 1 =
      sym (length-append s (x ∷ [])) ∙ ap length e ∙ length-append t (y ∷ []) in
    let (same, ends) = append_cancel s t (x ∷ []) (y ∷ []) (omega arith) e in (same, ground arith)

pub length-hex : (w n : ℕ) → length (hex w n) ≡ w
unfolding hex
length-hex zero n = refl
length-hex (suc w) n =
    omega (arith, length-append (hex w (n / 16)) (hex_digit (n % 16) ∷ []), length-hex w (n / 16))

hex_digit-injective : (a b : ℕ) → a < 16 → b < 16 → hex_digit a ≡ hex_digit b → a ≡ b
hex_digit-injective a b p q e = ground arith

pub hex-injective : (w a b : ℕ) → a < 16 ^ w → b < 16 ^ w → hex w a ≡ hex w b → a ≡ b
unfolding hex
hex-injective zero a b p q e = omega arith
hex-injective (suc w) a b p q e =
    let (high, low) =
      snoc-injective (hex w (a / 16)) (hex w (b / 16)) (hex_digit (a % 16)) (hex_digit (b % 16))
        e in
    omega (
      arith,
      hex-injective w (a / 16) (b / 16) (omega (arith, pow-suc 16 w)) (omega (arith, pow-suc 16 w))
          high,
      hex_digit-injective (a % 16) (b % 16) (omega arith) (omega arith) low,
    )

-- The number that a text of digits stands for, read from the left on top of `n`.
pub read_decimal : ℕ → Text → ℕ
read_decimal n [] = n
read_decimal n (c ∷ s) = read_decimal (n * 10 + (c - b'0')) s

read_decimal-append :
    (n : ℕ) (s t : Text) → read_decimal n (s ++ t) ≡ read_decimal (read_decimal n s) t
unfolding read_decimal
read_decimal-append n [] t = refl
read_decimal-append n (c ∷ s) t = read_decimal-append (n * 10 + (c - b'0')) s t

pub decimal_from_small : (fuel n : ℕ) → n < 10 → decimal_from (suc fuel) n ≡ (b'0' + n) ∷ []
unfolding decimal_from
decimal_from_small fuel n h = ground arith

pub decimal_from_big :
    (fuel n : ℕ)
    → 10 ≤ n
    → decimal_from (suc fuel) n ≡ decimal_from fuel (n / 10) ++ (b'0' + n % 10) ∷ []
unfolding decimal_from
decimal_from_big fuel n h = ground arith

read_decimal_digit : (n d : ℕ) → read_decimal n ((b'0' + d) ∷ []) ≡ n * 10 + d
unfolding read_decimal
read_decimal_digit n d = omega arith

read_decimal-decimal_from : (fuel n : ℕ) → n < fuel → read_decimal 0 (decimal_from fuel n) ≡ n
read_decimal-decimal_from zero n h = absurd (omega arith)
read_decimal-decimal_from (suc fuel) n h = elim (dec_lt n 10) [
  | yes small ↦ rw (decimal_from_small fuel n small) (omega (arith, read_decimal_digit 0 n))
  | no big ↦ rw (decimal_from_big fuel n (omega arith)) (
      rw read_decimal-append (
        omega (
          arith,
          read_decimal-decimal_from fuel (n / 10) (omega arith),
          read_decimal_digit (read_decimal 0 (decimal_from fuel (n / 10))) (n % 10),
        )))
]

-- `decimal` prints enough to read the number back.
pub read_decimal-decimal : (n : ℕ) → read_decimal 0 (decimal n) ≡ n
unfolding decimal
read_decimal-decimal n = read_decimal-decimal_from (suc n) n (omega arith)

pub decimal-injective : (m n : ℕ) → decimal m ≡ decimal n → m ≡ n
decimal-injective m n e =
    sym (read_decimal-decimal m) ∙ ap (read_decimal 0) e ∙ read_decimal-decimal n
