-- ===== src/Text/Decode/FirstByte.antt =====
-- What a first byte of UTF-8 tells.
use ajar_gateway.Common.{
  ℕ, ◌+◌, ◌-◌, ◌≤◌, ◌<◌, ◌≡◌, inl, inr, ◌&&◌, none, some, leb, ltb, ◌==◌, if◌then◌else◌, Bool-cases,
  arith,
}
use ajar_gateway.Text.Decode.{between, inside, lead}

-- What a first byte leads to.
pub data FirstByte (b : ℕ) : Type 0 where
  one : b < 0x80 → lead b ≡ some (between, some b) → FirstByte b
  two : 0xc2 ≤ b → b ≤ 0xdf → lead b ≡ some (inside 0 0x80 0xbf (b - 0xc0), none) → FirstByte b
  three :
      (low high : ℕ)
      → 0xe0 ≤ b
      → b ≤ 0xef
      → 0x80 ≤ low
      → high ≤ 0xbf
      → 0xe0 + 0xa0 ≤ b + low + (if b == 0xe0 then 0 else 0x20)
      → lead b ≡ some (inside 1 low high (b - 0xe0), none)
      → FirstByte b
  four :
      (low high : ℕ)
      → 0xf0 ≤ b
      → b ≤ 0xf4
      → 0x80 ≤ low
      → high ≤ 0xbf
      → 0xf0 + 0x90 ≤ b + low + (if b == 0xf0 then 0 else 0x10)
      → lead b ≡ some (inside 2 low high (b - 0xf0), none)
      → FirstByte b
  no_lead : lead b ≡ none → FirstByte b

lead-three : (b : ℕ) → 0xe0 ≤ b → b ≤ 0xef → FirstByte b
unfolding lead
lead-three b p q = elim (Bool-cases (b == 0xe0)) [
  | inl e ↦ three 0xa0 0xbf p q (omega arith) (omega arith) (ground arith) (ground arith)
  | inr e ↦ elim (Bool-cases (b == 0xed)) [
    | inl f ↦ three 0x80 0x9f p q (omega arith) (omega arith) (ground arith) (ground arith)
    | inr f ↦ three 0x80 0xbf p q (omega arith) (omega arith) (ground arith) (ground arith)
  ]
]

lead-four : (b : ℕ) → 0xf0 ≤ b → b ≤ 0xf4 → FirstByte b
unfolding lead
lead-four b p q = elim (Bool-cases (b == 0xf0)) [
  | inl e ↦ four 0x90 0xbf p q (omega arith) (omega arith) (ground arith) (ground arith)
  | inr e ↦ elim (Bool-cases (b == 0xf4)) [
    | inl f ↦ four 0x80 0x8f p q (omega arith) (omega arith) (ground arith) (ground arith)
    | inr f ↦ four 0x80 0xbf p q (omega arith) (omega arith) (ground arith) (ground arith)
  ]
]

pub lead-FirstByte : (b : ℕ) → FirstByte b
unfolding lead
lead-FirstByte b = elim (Bool-cases (ltb b 0x80)) [
  | inl p ↦ one (ground arith) (ground arith)
  | inr p ↦ elim (Bool-cases (leb 0xc2 b && leb b 0xdf)) [
    | inl q ↦ two (ground arith) (ground arith) (ground arith)
    | inr q ↦ elim (Bool-cases (leb 0xe0 b && leb b 0xef)) [
      | inl r ↦ lead-three b (ground arith) (ground arith)
      | inr r ↦ elim (Bool-cases (leb 0xf0 b && leb b 0xf4)) [
        | inl u ↦ lead-four b (ground arith) (ground arith)
        | inr u ↦ no_lead (ground arith)
      ]
    ]
  ]
]
