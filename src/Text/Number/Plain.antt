-- ===== src/Text/Number/Plain.antt =====
-- Texts without spaces, commas and control characters, such as printed numbers.
use ajar_gateway.Common.{
  ℕ, zero, suc, ◌≤◌, ◌<◌, ◌≡◌, ◌≢◌, refl, [], ◌∷◌, All, All-append, ◌/◌, false, arith,
}
use native.Mathlib.Decide.{dec_lt}
use ajar_gateway.Text.{Text, split, trim, trim_start, trim_end, is_whitespace}
use ajar_gateway.Text.Number.{decimal, decimal_from, hex}
use ajar_gateway.Text.Number.Laws.{decimal_from_small, decimal_from_big}

-- A printing ASCII character that is no space and no comma.
abbrev pub IsPlainChar : ℕ → Type 0
IsPlainChar c = (33 ≤ c) × (c < 127) × (c ≢ 44)

abbrev pub IsPlain : Text → Type 0
IsPlain s = All IsPlainChar s

decimal_from-IsPlain : (fuel n : ℕ) → IsPlain (decimal_from fuel n)
unfolding decimal_from
decimal_from-IsPlain zero n = tt
decimal_from-IsPlain (suc fuel) n = elim (dec_lt n 10) [
  | yes small ↦ rw (decimal_from_small fuel n small) (ground arith, tt)
  | no big ↦ rw (decimal_from_big fuel n (omega arith)) (
      All-append IsPlainChar (decimal_from fuel (n / 10)) _ (decimal_from-IsPlain fuel (n / 10))
        (ground arith, tt))
]

pub hex-IsPlain : (w n : ℕ) → IsPlain (hex w n)
unfolding hex
hex-IsPlain zero n = tt
hex-IsPlain (suc w) n =
    All-append IsPlainChar (hex w (n / 16)) _ (hex-IsPlain w (n / 16)) (ground arith, tt)

pub split-IsPlain : (s : Text) → IsPlain s → split b',' s ≡ s ∷ []
unfolding split
split-IsPlain [] h = refl
split-IsPlain (c ∷ s) (p, h) = ground (arith, split-IsPlain s h)

plain_no_space : (c : ℕ) → IsPlainChar c → is_whitespace c ≡ false
unfolding is_whitespace
plain_no_space c h = ground arith

trim_start-IsPlain : (s : Text) → IsPlain s → trim_start is_whitespace s ≡ s
unfolding trim_start
trim_start-IsPlain [] h = refl
trim_start-IsPlain (c ∷ s) (p, h) = rw (plain_no_space c p)

trim_end-IsPlain : (s : Text) → IsPlain s → trim_end is_whitespace s ≡ s
unfolding trim_end
trim_end-IsPlain [] h = refl
trim_end-IsPlain (c ∷ s) (p, h) = ground (arith, plain_no_space c p, trim_end-IsPlain s h)

pub trim-IsPlain : (s : Text) → IsPlain s → trim s ≡ s
unfolding trim
trim-IsPlain s h = rw (trim_start-IsPlain s h) (trim_end-IsPlain s h)

pub decimal-IsPlain : (n : ℕ) → IsPlain (decimal n)
unfolding decimal
decimal-IsPlain n = decimal_from-IsPlain (suc n) n
