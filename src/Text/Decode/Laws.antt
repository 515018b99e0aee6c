-- ===== src/Text/Decode/Laws.antt =====
-- A text that is decoded has the bytes that it was decoded from.
use ajar_gateway.Common.{
  ℕ, zero, suc, ◌+◌, ◌-◌, ◌*◌, ◌≤◌, ◌<◌, ◌≡◌, refl, sym, ap, ◌∙◌, inl, inr, false, ◌&&◌, Option,
  none, some, some-injective, List, [], ◌∷◌, ◌++◌, length, leb, ◌==◌, if◌then◌else◌, Bool-cases,
  arith,
}
use ajar_gateway.Text.{Text, utf8, encode}
use ajar_gateway.Text.Decode.{
  State, between, inside, lead, utf8_step, emit, continued, decode_from, to_str,
}
use ajar_gateway.Text.Decode.FirstByte.{one, two, three, four, no_lead, lead-FirstByte}
use ajar_gateway.Text.Decode.Characters.{encode_two, encode_three, encode_four}

-- A character that is complete with the next byte.
record Completed (low high value : ℕ) (s : List ℕ) (t : Text) : Type 0 where
  byte : ℕ
  behind : List ℕ
  rest : Text
  is_byte : s ≡ byte ∷ behind
  in_range : (low ≤ byte) × (byte ≤ high)
  text_is : t ≡ (value * 64 + (byte - 0x80)) ∷ rest
  decoded : decode_from between behind ≡ some rest

emitted :
    (c : ℕ) (r : Option Text) (t : Text)
    → emit (some c) r ≡ some t
    → (rest : Text) × (r ≡ some rest) × (t ≡ c ∷ rest)
emitted c none t h = absurd (cc)
emitted c (some rest) t h = (rest, refl, sym (some-injective _ _ h))

decode_from-Completed :
    (low high value : ℕ) (s : List ℕ) (t : Text)
    → decode_from (inside 0 low high value) s ≡ some t
    → Completed low high value s t
unfolding decode_from utf8_step
decode_from-Completed low high value [] t h = absurd (cc)
decode_from-Completed low high value (b ∷ s) t h = elim (Bool-cases (leb low b && leb b high)) [
  | inl p ↦
      let (rest, decoded, text_is) =
        emitted (value * 64 + (b - 0x80)) (decode_from between s) t (rw (p, decode_from) at h) in
      record {
        byte = b;
        behind = s;
        rest = rest;
        is_byte = refl;
        in_range = (ground arith, ground arith);
        text_is = text_is;
        decoded = decoded;
      }
  | inr p ↦ absurd (cc (rw (p, decode_from) at h))
]

-- A character that goes on behind the next byte.
record Continued (k low high value : ℕ) (s : List ℕ) (t : Text) : Type 0 where
  byte : ℕ
  behind : List ℕ
  is_byte : s ≡ byte ∷ behind
  in_range : (low ≤ byte) × (byte ≤ high)
  decoded : decode_from (inside k 0x80 0xbf (value * 64 + (byte - 0x80))) behind ≡ some t

continued-suc : (k value : ℕ) → continued (suc k) value ≡ (inside k 0x80 0xbf value, none)
continued-suc k value =
    let more : (suc k == 0) ≡ false = ground arith in
    let less : suc k - 1 ≡ k = omega arith in rw (more, less) refl

decode_from-Continued :
    (k low high value : ℕ) (s : List ℕ) (t : Text)
    → decode_from (inside (suc k) low high value) s ≡ some t
    → Continued k low high value s t
unfolding decode_from utf8_step
decode_from-Continued k low high value [] t h = absurd (cc)
decode_from-Continued k low high value (b ∷ s) t h = elim (Bool-cases (leb low b && leb b high)) [
  | inl p ↦ record {
    byte = b;
    behind = s;
    is_byte = refl;
    in_range = (ground arith, ground arith);
    decoded = rw continued-suc at (rw (p, decode_from) at h);
  }
  | inr p ↦ absurd (cc (rw (p, decode_from) at h))
]

utf8_cons :
    (c : ℕ) (rest t : Text) (bytes behind : List ℕ)
    → t ≡ c ∷ rest
    → encode c ≡ bytes
    → utf8 rest ≡ behind
    → utf8 t ≡ bytes ++ behind
unfolding utf8
utf8_cons c rest t bytes behind is_t is_c is_rest = rw (is_t, utf8, is_c, is_rest) refl

first_step :
    (b : ℕ) (s : List ℕ) (t : Text) (next : State) (character : Option ℕ)
    → lead b ≡ some (next, character)
    → decode_from between (b ∷ s) ≡ some t
    → emit character (decode_from next s) ≡ some t
unfolding decode_from utf8_step
first_step b s t next character e h = rw (decode_from, e) at h

decode_two :
    (n b : ℕ) (s : List ℕ) (t : Text)
    → 0xc2 ≤ b
    → b ≤ 0xdf
    → ((s : List ℕ) (t : Text) → length s < n → decode_from between s ≡ some t → utf8 t ≡ s)
    → length s < n
    → decode_from (inside 0 0x80 0xbf (b - 0xc0)) s ≡ some t
    → utf8 t ≡ b ∷ s
decode_two n b s t p q ih short h =
    let last = decode_from-Completed 0x80 0xbf (b - 0xc0) s t h in
    utf8_cons _ last.rest t _ _ last.text_is
      (encode_two b last.byte p q last.in_range.0 last.in_range.1)
      (ih last.behind last.rest (omega (arith, ap length last.is_byte)) last.decoded)
    ∙ ap (λ (r : List ℕ). b ∷ r) (sym last.is_byte)

decode_three :
    (n b low high : ℕ) (s : List ℕ) (t : Text)
    → 0xe0 ≤ b
    → b ≤ 0xef
    → 0x80 ≤ low
    → high ≤ 0xbf
    → 0xe0 + 0xa0 ≤ b + low + (if b == 0xe0 then 0 else 0x20)
    → ((s : List ℕ) (t : Text) → length s < n → decode_from between s ≡ some t → utf8 t ≡ s)
    → length s < n
    → decode_from (inside 1 low high (b - 0xe0)) s ≡ some t
    → utf8 t ≡ b ∷ s
decode_three n b low high s t p q l u m ih short h =
    let second = decode_from-Continued 0 low high (b - 0xe0) s t h in
    let last = decode_from-Completed 0x80 0xbf _ second.behind t second.decoded in
    utf8_cons _ last.rest t _ _ last.text_is
      (encode_three b second.byte last.byte low p q l m second.in_range.0
        (omega (arith, second.in_range.1)) last.in_range.0 last.in_range.1)
      (ih last.behind last.rest (omega (arith, ap length second.is_byte, ap length last.is_byte))
        last.decoded)
    ∙ ap (λ (r : List ℕ). b ∷ second.byte ∷ r) (sym last.is_byte)
    ∙ ap (λ (r : List ℕ). b ∷ r) (sym second.is_byte)

decode_four :
    (n b low high : ℕ) (s : List ℕ) (t : Text)
    → 0xf0 ≤ b
    → b ≤ 0xf4
    → 0x80 ≤ low
    → high ≤ 0xbf
    → 0xf0 + 0x90 ≤ b + low + (if b == 0xf0 then 0 else 0x10)
    → ((s : List ℕ) (t : Text) → length s < n → decode_from between s ≡ some t → utf8 t ≡ s)
    → length s < n
    → decode_from (inside 2 low high (b - 0xf0)) s ≡ some t
    → utf8 t ≡ b ∷ s
decode_four n b low high s t p q l u m ih short h =
    let second = decode_from-Continued 1 low high (b - 0xf0) s t h in
    let third = decode_from-Continued 0 0x80 0xbf _ second.behind t second.decoded in
    let last = decode_from-Completed 0x80 0xbf _ third.behind t third.decoded in
    utf8_cons _ last.rest t _ _ last.text_is
      (encode_four b second.byte third.byte last.byte low p q l m second.in_range.0
        (omega (arith, second.in_range.1)) third.in_range.0 third.in_range.1 last.in_range.0
        last.in_range.1)
      (ih last.behind last.rest
        (omega (arith, ap length second.is_byte, ap length third.is_byte, ap length last.is_byte))
        last.decoded)
    ∙ ap (λ (r : List ℕ). b ∷ second.byte ∷ third.byte ∷ r) (sym last.is_byte)
    ∙ ap (λ (r : List ℕ). b ∷ second.byte ∷ r) (sym third.is_byte)
    ∙ ap (λ (r : List ℕ). b ∷ r) (sym second.is_byte)

decode_from-utf8 :
    (n : ℕ) (s : List ℕ) (t : Text) → length s < n → decode_from between s ≡ some t → utf8 t ≡ s
unfolding decode_from utf8
decode_from-utf8 zero s t short h = absurd (omega arith)
decode_from-utf8 (suc n) [] t short h = rw (sym (some-injective _ _ h)) refl
decode_from-utf8 (suc n) (b ∷ s) t short h = elim (lead-FirstByte b) [
  | one p e ↦
      let (rest, decoded, text_is) =
        emitted b (decode_from between s) t (first_step b s t between (some b) e h) in
      utf8_cons b rest t (b ∷ []) s text_is (ground arith)
        (decode_from-utf8 n s rest (omega arith) decoded)
  | two p q e ↦
      decode_two n b s t p q (decode_from-utf8 n) (omega arith) (first_step b s t _ none e h)
  | three low high p q l u m e ↦
      decode_three n b low high s t p q l u m (decode_from-utf8 n) (omega arith)
        (first_step b s t _ none e h)
  | four low high p q l u m e ↦
      decode_four n b low high s t p q l u m (decode_from-utf8 n) (omega arith)
        (first_step b s t _ none e h)
  | no_lead e ↦ absurd (cc (rw (decode_from, e) at h))
]

-- `to_str` loses nothing: the text has the bytes that it came from.
pub to_str-utf8 : (s : List ℕ) (t : Text) → to_str s ≡ some t → utf8 t ≡ s
unfolding to_str
to_str-utf8 s t h = decode_from-utf8 (suc (length s)) s t (omega arith) h
