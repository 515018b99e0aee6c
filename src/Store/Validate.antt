-- ===== src/Store/Validate.antt =====
-- The validation of prepared artifacts in crates/store/src/lib.rs. `Serde` is what the crate calls
-- of serde and serde_json: the parser, the keys of an object, and the two typed conversions that
-- serde derives.
pub mod Laws
use ajar_gateway.Common.{
  ℕ, ◌*◌, Bool, not, Option, none, some, List, [], ◌∷◌, if◌then◌else◌, Result, ok, err, ◌>>=◌, ◌>>◌,
  fail_if,
}
use ajar_gateway.Common.Int.{ℤ, pos, ◌-ℤ◌, ltb_ℤ, leb_ℤ}
use ajar_gateway.Text.{Text, codes, member}
use ajar_gateway.Store.Error.{
  StoreLoadError, json_malformed, manifest_field_missing, view_field_missing, manifest_time_invalid,
  manifest_lifetime_too_long, manifest_expired, manifest_sequence_invalid,
}
use ajar_gateway.Store.Model.{Bytes, Manifest, View}
use ajar_gateway.Store.Time.{parse_rfc3339_utc}

pub record Serde (Value : Type 0) : Type 0 where
  pub from_slice : Bytes → Option Value
  pub as_object : Value → Option (List Text)
  pub manifest_from_value : Value → Option (Manifest Value)
  pub view_from_value : Value → Option View

abbrev pub max_manifest_lifetime_seconds : ℕ
max_manifest_lifetime_seconds = 180 * 24 * 60 * 60

abbrev pub manifest_fields : List Text
manifest_fields =
    codes "ajar_version"
    ∷ codes "profiles"
    ∷ codes "site"
    ∷ codes "keys"
    ∷ codes "views"
    ∷ codes "issued_at"
    ∷ codes "expires_at"
    ∷ codes "sequence"
    ∷ codes "signature"
    ∷ []

abbrev pub view_fields : List Text
view_fields = codes "url" ∷ codes "etag" ∷ codes "chunks" ∷ codes "signature" ∷ []

-- The loop over the required fields.
unfoldable pub require_fields :
    List Text → List Text → StoreLoadError → Result StoreLoadError (Unit {0})
require_fields [] keys missing = ok tt
require_fields (field ∷ fields) keys missing =
    let rest = require_fields fields keys missing in if member field keys then rest else err missing

module _ {Value : Type 0} (serde : Serde Value) where
  unfoldable pub validate_manifest_required_fields : Value → Result StoreLoadError (Unit {0})
  validate_manifest_required_fields value = elim (serde.as_object value) [
    | none ↦ err json_malformed
    | some keys ↦ require_fields manifest_fields keys manifest_field_missing
  ]

  unfoldable pub validate_view_required_fields : Value → Result StoreLoadError (Unit {0})
  validate_view_required_fields value = elim (serde.as_object value) [
    | none ↦ err json_malformed
    | some keys ↦ require_fields view_fields keys view_field_missing
  ]

module _ {Value : Type 0} where
  unfoldable pub validate_manifest_lifecycle : Manifest Value → ℤ → Result StoreLoadError (Unit {0})
  validate_manifest_lifecycle manifest now = do
    fail_if (ltb_ℤ manifest.sequence (pos 0)) manifest_sequence_invalid
    issued_at ← parse_rfc3339_utc manifest.issued_at
    expires_at ← parse_rfc3339_utc manifest.expires_at
    fail_if (leb_ℤ expires_at issued_at) manifest_time_invalid
    fail_if (ltb_ℤ (pos max_manifest_lifetime_seconds) (expires_at -ℤ issued_at))
        manifest_lifetime_too_long
    fail_if (leb_ℤ expires_at now) manifest_expired
    ok tt
