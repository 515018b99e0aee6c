-- ===== src/Text/Decode/Characters.antt =====
-- The bytes of a character of more than one byte.
use ajar_gateway.Common.{ℕ, ◌+◌, ◌-◌, ◌*◌, ◌≤◌, ◌≡◌, [], ◌∷◌, ◌==◌, if◌then◌else◌, arith}
use ajar_gateway.Text.{encode}

-- The characters of two, three and four bytes.
pub encode_two :
    (b c : ℕ)
    → 0xc2 ≤ b
    → b ≤ 0xdf
    → 0x80 ≤ c
    → c ≤ 0xbf
    → encode ((b - 0xc0) * 64 + (c - 0x80)) ≡ b ∷ c ∷ []
encode_two b c p q r s = ground arith

pub encode_three :
    (b c d low : ℕ)
    → 0xe0 ≤ b
    → b ≤ 0xef
    → 0x80 ≤ low
    → 0xe0 + 0xa0 ≤ b + low + (if b == 0xe0 then 0 else 0x20)
    → low ≤ c
    → c ≤ 0xbf
    → 0x80 ≤ d
    → d ≤ 0xbf
    → encode (((b - 0xe0) * 64 + (c - 0x80)) * 64 + (d - 0x80)) ≡ b ∷ c ∷ d ∷ []
encode_three b c d low p q l m r s t u = ground arith

pub encode_four :
    (b c d e low : ℕ)
    → 0xf0 ≤ b
    → b ≤ 0xf4
    → 0x80 ≤ low
    → 0xf0 + 0x90 ≤ b + low + (if b == 0xf0 then 0 else 0x10)
    → low ≤ c
    → c ≤ 0xbf
    → 0x80 ≤ d
    → d ≤ 0xbf
    → 0x80 ≤ e
    → e ≤ 0xbf
    → encode ((((b - 0xf0) * 64 + (c - 0x80)) * 64 + (d - 0x80)) * 64 + (e - 0x80))
      ≡ b ∷ c ∷ d ∷ e ∷ []
encode_four b c d e low p q l m r s t u v w = ground arith
