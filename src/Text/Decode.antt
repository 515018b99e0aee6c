-- ===== src/Text/Decode.antt =====
-- `to_str` of an `OsStr`: the text that its bytes encode, where they are valid UTF-8.
pub mod FirstByte
pub mod Characters
pub mod Laws
use ajar_gateway.Common.{
  ℕ, ◌+◌, ◌-◌, ◌*◌, ◌&&◌, Option, none, some, List, [], ◌∷◌, leb, ltb, ◌==◌, if◌then◌else◌, ◌≡◌,
  refl,
}
use mathlib.Core.Option
use ajar_gateway.Text.{Text, codes, utf8}

-- Between two characters, or inside one: the bytes still needed behind the next one, the range of
-- the next one, and the value so far.
pub data State : Type 0 where
  between : State
  inside : (behind low high value : ℕ) → State

-- What a first byte leads to: the state behind it, and the character if it is complete. Overlong
-- forms, surrogates and values past 0x10ffff are ruled out by the range of the second byte.
pub lead : ℕ → Option (State × Option ℕ)
lead b =
    if ltb b 0x80
    then some (between, some b)
    else if leb 0xc2 b && leb b 0xdf
    then some (inside 0 0x80 0xbf (b - 0xc0), none)
    else if b == 0xe0
    then some (inside 1 0xa0 0xbf 0, none)
    else if b == 0xed
    then some (inside 1 0x80 0x9f 0xd, none)
    else if leb 0xe1 b && leb b 0xef
    then some (inside 1 0x80 0xbf (b - 0xe0), none)
    else if b == 0xf0
    then some (inside 2 0x90 0xbf 0, none)
    else if b == 0xf4
    then some (inside 2 0x80 0x8f 4, none)
    else if leb 0xf1 b && leb b 0xf3
    then some (inside 2 0x80 0xbf (b - 0xf0), none)
    else none

abbrev continued : ℕ → ℕ → State × Option ℕ
continued behind value =
    if behind == 0 then (between, some value) else (inside (behind - 1) 0x80 0xbf value, none)

utf8_step : State → ℕ → Option (State × Option ℕ)
unfolding lead
utf8_step between b = lead b
utf8_step (inside behind low high value) b =
    if leb low b && leb b high then some (continued behind (value * 64 + (b - 0x80))) else none

abbrev emit : Option ℕ → Option Text → Option Text
emit none rest = rest
emit (some c) rest = Option.map (λ t. c ∷ t) rest

decode_from : State → List ℕ → Option Text
unfolding utf8_step
decode_from between [] = some []
decode_from (inside behind low high value) [] = none
decode_from state (b ∷ s) = elim (utf8_step state b) [
  | none ↦ none
  | some (next, character) ↦ emit character (decode_from next s)
]

unfoldable pub to_str : List ℕ → Option Text
unfolding decode_from
to_str bytes = decode_from between bytes

round_trip : to_str (utf8 (codes "aé€😀")) ≡ some (codes "aé€😀")
unfolding to_str utf8
round_trip = refl

invalid : to_str (0xff ∷ []) ≡ none
unfolding to_str
invalid = refl
