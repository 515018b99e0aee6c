-- ===== src/Store/Validate/Laws.antt =====
-- What the validation of a manifest in crates/store/src/lib.rs lets pass.
use ajar_gateway.Common.{◌≡◌, ◌↔◌, ok, ◌>>◌, fail_if, >>=-eq-ok, arith}
use ajar_gateway.Common.Int.{ℤ, pos, ◌-ℤ◌, ltb_ℤ, leb_ℤ, ◌≤ℤ◌, ◌<ℤ◌}
use ajar_gateway.Store.Error.{
  manifest_time_invalid, manifest_lifetime_too_long, manifest_expired, manifest_sequence_invalid,
}
use ajar_gateway.Store.Model.{Manifest}
use ajar_gateway.Store.Time.{parse_rfc3339_utc}
use ajar_gateway.Store.Validate.{max_manifest_lifetime_seconds, validate_manifest_lifecycle}

-- A manifest that may be served at the time `now`.
pub record IsLive {Value : Type 0} (manifest : Manifest Value) (now : ℤ) : Type 0 where
  pub issued : ℤ
  pub expires : ℤ
  pub issued_is : parse_rfc3339_utc manifest.issued_at ≡ ok issued
  pub expires_is : parse_rfc3339_utc manifest.expires_at ≡ ok expires
  pub sequence_nonneg : pos 0 ≤ℤ manifest.sequence
  pub issued_first : issued <ℤ expires
  pub lifetime_capped : expires -ℤ issued ≤ℤ pos max_manifest_lifetime_seconds
  pub not_expired : now <ℤ expires

-- The three tests on the times, `lifetime` being the difference of the two.
times_lem :
    (issued expires lifetime now : ℤ)
    → ((fail_if (leb_ℤ expires issued) manifest_time_invalid
          >> (fail_if
                (ltb_ℤ (pos max_manifest_lifetime_seconds) lifetime)
                manifest_lifetime_too_long
              >> (fail_if (leb_ℤ expires now) manifest_expired >> ok (tt {0}))))
        ≡ ok (tt {0}))
      ↔ ((issued <ℤ expires) × (lifetime ≤ℤ pos max_manifest_lifetime_seconds) × (now <ℤ expires))
times_lem issued expires lifetime now = ground arith

sequence_lem :
    (sequence : ℤ) (u : Unit {0})
    → fail_if (ltb_ℤ sequence (pos 0)) manifest_sequence_invalid ≡ ok u
    → pos 0 ≤ℤ sequence
sequence_lem sequence u e = ground arith

sequence_passes :
    (sequence : ℤ)
    → pos 0 ≤ℤ sequence
    → fail_if (ltb_ℤ sequence (pos 0)) manifest_sequence_invalid ≡ ok tt
sequence_passes sequence h = ground arith

module _ {Value : Type 0} (manifest : Manifest Value) (now : ℤ) where
  lifecycle-IsLive : validate_manifest_lifecycle manifest now ≡ ok tt → IsLive manifest now
  unfolding validate_manifest_lifecycle
  lifecycle-IsLive e =
      let (u, sequenced, e1) =
        >>=-eq-ok (fail_if (ltb_ℤ manifest.sequence (pos 0)) manifest_sequence_invalid) _ e in
      let (issued, issued_is, e2) = >>=-eq-ok (parse_rfc3339_utc manifest.issued_at) _ e1 in
      let (expires, expires_is, e3) = >>=-eq-ok (parse_rfc3339_utc manifest.expires_at) _ e2 in
      let (first, capped, live) = (times_lem issued expires (expires -ℤ issued) now).0 e3 in
      record {
        issued = issued;
        expires = expires;
        issued_is = issued_is;
        expires_is = expires_is;
        sequence_nonneg = sequence_lem manifest.sequence u sequenced;
        issued_first = first;
        lifetime_capped = capped;
        not_expired = live;
      }

  IsLive-lifecycle : IsLive manifest now → validate_manifest_lifecycle manifest now ≡ ok tt
  unfolding validate_manifest_lifecycle
  IsLive-lifecycle l = rw (sequence_passes manifest.sequence l.sequence_nonneg) (
      rw (l.issued_is, l.expires_is)
        ((times_lem l.issued l.expires (l.expires -ℤ l.issued) now).1
          (l.issued_first, l.lifetime_capped, l.not_expired)))

  -- A manifest passes the lifecycle check exactly if its sequence is not negative, both timestamps
  -- are well formed, it is issued before it expires, lives 180 days at most and is not expired.
  pub validate_manifest_lifecycle_iff :
      (validate_manifest_lifecycle manifest now ≡ ok tt) ↔ IsLive manifest now
  validate_manifest_lifecycle_iff = (lifecycle-IsLive, IsLive-lifecycle)
