-- ===== src/Store/Time/Format.antt =====
-- `parse_rfc3339_utc` of crates/store/src/lib.rs against the texts `YYYY-MM-DDThh:mm:ssZ`.
use ajar_gateway.Common.{
  ℕ, ◌<◌, ◌≡◌, refl, sym, ◌∙◌, ◌↔◌, Bool, true, not, arith, List, [], ◌∷◌, ◌++◌, length, some, ok,
  fail_if, >>=-eq-ok, ok-injective, ◌==◌, ==_iff, ==_refl, ◌||◌,
}
use ajar_gateway.Common.Int.{ℤ}
use ajar_gateway.Text.{Text, utf8, encode}
use ajar_gateway.Text.Laws.{IsAscii, utf8_ascii, utf8-eq_ascii}
use ajar_gateway.Store.Error.{manifest_time_invalid}
use ajar_gateway.Store.Time.{
  ends_with, parse_digits, require, fields_in_range, parse_bytes, parse_rfc3339_utc,
}
use ajar_gateway.Store.Time.Fields.{
  Fields, timestamp, InRange, seconds, parse_digits-two, parse_digits-four, require_lem, stamp,
  fields_in_range_iff, parse_bytes-stamp,
}

cons-eq : {a b : ℕ} {s t : Text} → a ≡ b → s ≡ t → ◌≡◌ {A = Text} (a ∷ s) (b ∷ t)
cons-eq p q = λ i. p i ∷ q i

guard_lem :
    {E : Type 0} (e : E) (k : ℕ) (b : Bool) (u : Unit {0})
    → fail_if (not (k == 20) || not b) e ≡ ok u
    → (k ≡ 20) × (b ≡ true)
guard_lem e k b u h = ground arith

-- What the bytes that `parse_bytes` accepts are.
record IsStamp (bytes : List ℕ) (n : ℤ) : Type 0 where
  fields : Fields
  last : ℕ
  ranges : InRange fields
  bytes_are : bytes ≡ stamp fields last
  value_is : n ≡ seconds fields

fail_if-eq-ok : {E : Type 0} (b : Bool) (e : E) (u : Unit {0}) → fail_if (not b) e ≡ ok u → b ≡ true
fail_if-eq-ok b e u h = ground arith

parse_bytes-IsStamp :
    (a0 a1 a2 a3 a4 a5 a6 a7 a8 a9 b0 b1 b2 b3 b4 b5 b6 b7 b8 b9 : ℕ) (n : ℤ)
    → parse_bytes (
        a0 ∷ a1 ∷ a2 ∷ a3 ∷ a4 ∷ a5 ∷ a6 ∷ a7 ∷ a8 ∷ a9 ∷ b0 ∷ b1 ∷ b2 ∷ b3 ∷ b4 ∷ b5 ∷ b6 ∷ b7 ∷ b8
        ∷ b9 ∷ [])
      ≡ ok n
    → IsStamp
        (a0 ∷ a1 ∷ a2 ∷ a3 ∷ a4 ∷ a5 ∷ a6 ∷ a7 ∷ a8 ∷ a9 ∷ b0 ∷ b1 ∷ b2 ∷ b3 ∷ b4 ∷ b5 ∷ b6 ∷ b7
          ∷ b8 ∷ b9 ∷ [])
        n
unfolding parse_bytes stamp
parse_bytes-IsStamp a0 a1 a2 a3 a4 a5 a6 a7 a8 a9 b0 b1 b2 b3 b4 b5 b6 b7 b8 b9 n e =
    let (y, ey, e1) = >>=-eq-ok (parse_digits (a0 ∷ a1 ∷ a2 ∷ a3 ∷ [])) _ e in
    let (u1, r1, e2) = >>=-eq-ok (require (some a4) b'-') _ e1 in
    let (mo, emo, e3) = >>=-eq-ok (parse_digits (a5 ∷ a6 ∷ [])) _ e2 in
    let (u2, r2, e4) = >>=-eq-ok (require (some a7) b'-') _ e3 in
    let (d, ed, e5) = >>=-eq-ok (parse_digits (a8 ∷ a9 ∷ [])) _ e4 in
    let (u3, r3, e6) = >>=-eq-ok (require (some b0) b'T') _ e5 in
    let (h, eh, e7) = >>=-eq-ok (parse_digits (b1 ∷ b2 ∷ [])) _ e6 in
    let (u4, r4, e8) = >>=-eq-ok (require (some b3) b':') _ e7 in
    let (mi, emi, e9) = >>=-eq-ok (parse_digits (b4 ∷ b5 ∷ [])) _ e8 in
    let (u5, r5, e10) = >>=-eq-ok (require (some b6) b':') _ e9 in
    let (se, ese, e11) = >>=-eq-ok (parse_digits (b7 ∷ b8 ∷ [])) _ e10 in
    let (u6, r6, e12) =
      >>=-eq-ok (fail_if (not (fields_in_range mo d h mi se)) manifest_time_invalid) _ e11 in
    let (y0, y1, y2, y3, ylt) = parse_digits-four a0 a1 a2 a3 y ey in
    let (mo0, mo1, _) = parse_digits-two a5 a6 mo emo in
    let (d0, d1, _) = parse_digits-two a8 a9 d ed in
    let (h0, h1, _) = parse_digits-two b1 b2 h eh in
    let (mi0, mi1, _) = parse_digits-two b4 b5 mi emi in
    let (se0, se1, _) = parse_digits-two b7 b8 se ese in
    let (p, q, r, s, t) = (fields_in_range_iff mo d h mi se).0 (fail_if-eq-ok _ _ u6 r6) in
    record {
      fields = record { year = y; month = mo; day = d; hour = h; minute = mi; second = se };
      last = b9;
      ranges = record {
        year_in = ylt;
        month_in = p;
        day_in = q;
        hour_in = r;
        minute_in = s;
        second_in = t;
      };
      bytes_are = cons-eq y0 (
          cons-eq y1 (
            cons-eq y2 (
              cons-eq y3 (
                cons-eq (require_lem a4 b'-' u1 r1) (
                  cons-eq mo0 (
                    cons-eq mo1 (
                      cons-eq (require_lem a7 b'-' u2 r2) (
                        cons-eq d0 (
                          cons-eq d1 (
                            cons-eq (require_lem b0 b'T' u3 r3) (
                              cons-eq h0 (
                                cons-eq h1 (
                                  cons-eq (require_lem b3 b':' u4 r4) (
                                    cons-eq mi0 (
                                      cons-eq mi1 (
                                        cons-eq (require_lem b6 b':' u5 r5)
                                          (cons-eq se0 (cons-eq se1 refl))))))))))))))))));
      value_is = sym (ok-injective e12);
    }

-- Only a list of twenty bytes is left to look at.
parse_bytes-length-IsStamp :
    (bytes : List ℕ) (n : ℤ) → length bytes ≡ 20 → parse_bytes bytes ≡ ok n → IsStamp bytes n
parse_bytes-length-IsStamp
      (a0 ∷ a1 ∷ a2 ∷ a3 ∷ a4 ∷ a5 ∷ a6 ∷ a7 ∷ a8 ∷ a9 ∷ b0 ∷ b1 ∷ b2 ∷ b3 ∷ b4 ∷ b5 ∷ b6 ∷ b7 ∷ b8
        ∷ b9 ∷ [])
      n h e =
    parse_bytes-IsStamp a0 a1 a2 a3 a4 a5 a6 a7 a8 a9 b0 b1 b2 b3 b4 b5 b6 b7 b8 b9 n e
parse_bytes-length-IsStamp _ n h e = absurd (omega arith)

ends_with-append : (c : ℕ) (s t : Text) → ends_with c t ≡ true → ends_with c (s ++ t) ≡ true
ends_with-append c [] t h = h
ends_with-append c (x ∷ []) [] h = cc
ends_with-append c (x ∷ []) (y ∷ t) h = h
ends_with-append c (x ∷ y ∷ s) t h = ends_with-append c (y ∷ s) t h

ends_with-utf8 : (c : ℕ) (s : Text) → c < 128 → ends_with c s ≡ true → ends_with c (utf8 s) ≡ true
unfolding utf8
ends_with-utf8 c [] p h = h
ends_with-utf8 c (x ∷ []) p h = rw ((==_iff x c).0 h) (rw (utf8_ascii (c ∷ []) (p, tt)) (==_refl c))
ends_with-utf8 c (x ∷ y ∷ s) p h =
    ends_with-append c (encode x) (utf8 (y ∷ s)) (ends_with-utf8 c (y ∷ s) p h)

timestamp-IsAscii : (f : Fields) → InRange f → IsAscii (timestamp f)
unfolding timestamp
timestamp-IsAscii f v = omega arith

stamp_last : (f : Fields) (z : ℕ) → ends_with b'Z' (stamp f z) ≡ true → stamp f z ≡ timestamp f
unfolding stamp timestamp
stamp_last f z h = rw ((==_iff z b'Z').0 h)

-- What the texts that `parse_rfc3339_utc` accepts are.
pub record IsTimestamp (s : Text) (n : ℤ) : Type 0 where
  pub fields : Fields
  pub ranges : InRange fields
  pub text_is : s ≡ timestamp fields
  pub value_is : n ≡ seconds fields

parse-IsTimestamp : (s : Text) (n : ℤ) → parse_rfc3339_utc s ≡ ok n → IsTimestamp s n
unfolding parse_rfc3339_utc
parse-IsTimestamp s n e =
    let (u, guarded, parsed) =
      >>=-eq-ok
        (fail_if (not (length (utf8 s) == 20) || not (ends_with b'Z' s)) manifest_time_invalid) _
        e in
    let passed : (length (utf8 s) ≡ 20) × (ends_with b'Z' s ≡ true) = guard_lem _ _ _ u guarded in
    let found = parse_bytes-length-IsStamp (utf8 s) n passed.0 parsed in
    let ends = ends_with-utf8 b'Z' s (omega arith) passed.1 in
    let whole = found.bytes_are ∙ stamp_last found.fields found.last (rw found.bytes_are at ends) in
    record {
      fields = found.fields;
      ranges = found.ranges;
      text_is =
          utf8-eq_ascii s (timestamp found.fields) (timestamp-IsAscii found.fields found.ranges)
            whole;
      value_is = found.value_is;
    }

timestamp-parse : (f : Fields) → InRange f → parse_rfc3339_utc (timestamp f) ≡ ok (seconds f)
unfolding parse_rfc3339_utc stamp
timestamp-parse f v =
    rw (utf8_ascii (timestamp f) (timestamp-IsAscii f v))
      (unfold timestamp in parse_bytes-stamp f b'Z' v)

-- `parse_rfc3339_utc` accepts exactly the texts YYYY-MM-DDThh:mm:ssZ with a month from 1 to 12, a
-- day from 1 to 31, an hour up to 23 and minutes and seconds up to 59, and returns their seconds.
pub parse_rfc3339_utc_iff : (s : Text) (n : ℤ) → (parse_rfc3339_utc s ≡ ok n) ↔ IsTimestamp s n
parse_rfc3339_utc_iff s n =
    (parse-IsTimestamp s n, λ t. rw (t.text_is, t.value_is) (timestamp-parse t.fields t.ranges))
