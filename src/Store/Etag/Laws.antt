-- ===== src/Store/Etag/Laws.antt =====
-- What a tag of `strong_etag` of crates/store/src/lib.rs tells of the bytes.
use ajar_gateway.Common.{
  ℕ, ◌*◌, ◌%◌, ◌^◌, ◌<◌, ◌≡◌, ◌≢◌, ◌∙◌, ap, sym, refl, arith, none, [], ◌∷◌, ◌++◌, All, length,
  drop,
}
use mathlib.Core.List.{append-nil, append_assoc}
use ajar_gateway.Common.Xor.{bit_xor_left_injective, bit_xor_right_injective, bit_xor-lt}
use ajar_gateway.Store.Model.{Bytes}
use ajar_gateway.Store.Etag.{offset_basis, fnv_prime, fnv_round, fnv_from, format_etag, strong_etag}
use ajar_gateway.Text.{codes}
use ajar_gateway.Text.Number.{decimal, hex}
use ajar_gateway.Text.Number.Laws.{
  append_cancel, snoc-injective, length-hex, hex-injective, decimal-injective,
}
use Prim.Native.Nat.{bit_xor}

abbrev pub IsWord : ℕ → Type 0
IsWord n = n < 2 ^ 64

abbrev pub AreBytes : Bytes → Type 0
AreBytes bytes = All (λ b. b < 256) bytes

mul_prime_injective :
    (x y : ℕ) → IsWord x → IsWord y → x * fnv_prime % 2 ^ 64 ≡ y * fnv_prime % 2 ^ 64 → x ≡ y
mul_prime_injective x y p q e = omega arith

xor-IsWord : (h b : ℕ) → IsWord h → b < 256 → IsWord (bit_xor h b)
xor-IsWord h b p q = bit_xor-lt 64 h b p (omega arith)

fnv_round-IsWord : (h b : ℕ) → IsWord (fnv_round h b)
unfolding fnv_round
fnv_round-IsWord h b = omega arith

fnv_round_left_injective :
    (h k b : ℕ) → IsWord h → IsWord k → b < 256 → fnv_round h b ≡ fnv_round k b → h ≡ k
unfolding fnv_round
fnv_round_left_injective h k b p q r e =
    bit_xor_left_injective h k b
      (mul_prime_injective _ _ (xor-IsWord h b p r) (xor-IsWord k b q r) e)

fnv_round_right_injective :
    (h b c : ℕ) → IsWord h → b < 256 → c < 256 → fnv_round h b ≡ fnv_round h c → b ≡ c
unfolding fnv_round
fnv_round_right_injective h b c p q r e =
    bit_xor_right_injective h b c
      (mul_prime_injective _ _ (xor-IsWord h b p q) (xor-IsWord h c p r) e)

-- From different hashes the same bytes lead to different hashes.
fnv_from_injective :
    (h k : ℕ) (bytes : Bytes)
    → IsWord h
    → IsWord k
    → AreBytes bytes
    → fnv_from h bytes ≡ fnv_from k bytes
    → h ≡ k
unfolding fnv_from
fnv_from_injective h k [] p q bs e = e
fnv_from_injective h k (b ∷ bytes) p q (r, bs) e = fnv_round_left_injective h k b p q r (
    fnv_from_injective (fnv_round h b) (fnv_round k b) bytes (fnv_round-IsWord h b)
      (fnv_round-IsWord k b) bs e)

fnv_from-IsWord : (h : ℕ) (bytes : Bytes) → IsWord h → IsWord (fnv_from h bytes)
unfolding fnv_from
fnv_from-IsWord h [] p = p
fnv_from-IsWord h (b ∷ bytes) p = fnv_from-IsWord (fnv_round h b) bytes (fnv_round-IsWord h b)

fnv_from-append : (h : ℕ) (xs ys : Bytes) → fnv_from h (xs ++ ys) ≡ fnv_from (fnv_from h xs) ys
unfolding fnv_from
fnv_from-append h [] ys = refl
fnv_from-append h (x ∷ xs) ys = fnv_from-append (fnv_round h x) xs ys

-- One changed byte changes the hash.
fnv_from_one_byte :
    (h : ℕ) (before behind : Bytes) (b c : ℕ)
    → IsWord h
    → AreBytes behind
    → b < 256
    → c < 256
    → fnv_from h (before ++ b ∷ behind) ≡ fnv_from h (before ++ c ∷ behind)
    → b ≡ c
unfolding fnv_from
fnv_from_one_byte h [] behind b c w bs p q e =
    fnv_round_right_injective h b c w p q
      (fnv_from_injective _ _ behind (fnv_round-IsWord h b) (fnv_round-IsWord h c) bs e)
fnv_from_one_byte h (x ∷ before) behind b c w bs p q e =
    fnv_from_one_byte (fnv_round h x) before behind b c (fnv_round-IsWord h x) bs p q e

format_etag-injective :
    (h k m n : ℕ) → IsWord h → IsWord k → format_etag h m ≡ format_etag k n → (h ≡ k) × (m ≡ n)
format_etag-injective h k m n p q e =
    let same_length = length-hex 16 h ∙ sym (length-hex 16 k) in
    let (hashes, rest) =
      append_cancel (hex 16 h) (hex 16 k) (codes "-" ++ (decimal m ++ codes "\""))
        (codes "-" ++ (decimal n ++ codes "\"")) same_length (ap (drop 1) e) in
    let (sizes, _) = snoc-injective (decimal m) (decimal n) b'"' b'"' (ap (drop 1) rest) in
    (hex-injective 16 h k p q hashes, decimal-injective m n sizes)

-- Artifacts of one kind with the same tag have the same number of bytes.
pub strong_etag-length :
    (prefix xs ys : Bytes)
    → strong_etag prefix xs none ≡ strong_etag prefix ys none
    → length xs ≡ length ys
unfolding strong_etag
strong_etag-length prefix xs ys e =
    (format_etag-injective _ _ (length xs) (length ys)
      (fnv_from-IsWord offset_basis (prefix ++ xs ++ []) (omega arith))
      (fnv_from-IsWord offset_basis (prefix ++ ys ++ []) (omega arith)) e).1

regroup :
    (prefix before : Bytes) (b : ℕ) (behind : Bytes)
    → prefix ++ (before ++ b ∷ behind) ++ [] ≡ (prefix ++ before) ++ b ∷ behind
regroup prefix before b behind = simp (append-nil, append_assoc)

-- Two artifacts of one kind that differ in one byte have different tags.
pub strong_etag_one_byte :
    (prefix before behind : Bytes) (b c : ℕ)
    → AreBytes behind
    → b < 256
    → c < 256
    → b ≢ c
    → strong_etag prefix (before ++ b ∷ behind) none
      ≢ strong_etag prefix (before ++ c ∷ behind) none
unfolding strong_etag
strong_etag_one_byte prefix before behind b c bs p q differs e =
    let (hashes, _) =
      format_etag-injective _ _ (length (before ++ b ∷ behind)) (length (before ++ c ∷ behind))
        (fnv_from-IsWord offset_basis (prefix ++ (before ++ b ∷ behind) ++ []) (omega arith))
        (fnv_from-IsWord offset_basis (prefix ++ (before ++ c ∷ behind) ++ []) (omega arith)) e in
    differs (
      fnv_from_one_byte offset_basis (prefix ++ before) behind b c (omega arith) bs p q (
        ap (fnv_from offset_basis) (sym (regroup prefix before b behind))
        ∙ hashes
        ∙ ap (fnv_from offset_basis) (regroup prefix before c behind)))

-- The tag is a quoted string: a quote, 16 hexadecimal digits, a dash, the size, a quote.
etag_run : strong_etag (codes "manifest") (codes "{}") none ≡ codes "\"4771542a0213b4f0-2\""
unfolding strong_etag
etag_run = refl
