-- ===== src/Signer.antt =====
-- crates/signer/src/lib.rs: the interfaces of the Signer, with the two that its tests run with. No
-- code of the repository calls them yet.
use ajar_gateway.Common.{
  ◌≡◌, refl, ◌∷◌, ◌++◌, Result, ok, err, ok-injective, if◌then◌else◌, Bool-cases, inl, inr, ap, sym,
}
use ajar_gateway.Text.{Text, codes, text_eq, utf8}
use ajar_gateway.Text.Laws.{text_eq_iff}
use ajar_gateway.Store.Model.{Bytes}

pub data SignerError : Type 0 where
  key_not_found key_store_unavailable signature_failed : SignerError

-- `to_string` of an error.
abbrev pub signer_error_text : SignerError → Text
signer_error_text key_not_found = codes "key not found"
signer_error_text key_store_unavailable = codes "key store unavailable"
signer_error_text signature_failed = codes "signature failed"

pub record SigningKeyHandle : Type 0 where
  pub key_id : Text

-- The traits `KeyStore` and `SignatureProvider`.
pub record KeyStore : Type 0 where
  pub resolve_key : Text → Result SignerError SigningKeyHandle

pub record SignatureProvider : Type 0 where
  pub sign : Text → Bytes → Result SignerError Bytes

-- The store of the tests, which has one key.
abbrev pub test_key_store : Text → KeyStore
test_key_store own = record {
  resolve_key =
      λ key_id. if text_eq key_id own then ok (record { key_id = key_id }) else err key_not_found;
}

-- The provider of the tests.
abbrev pub test_signature_provider : SignatureProvider
test_signature_provider = record { sign = λ key_id message. ok (utf8 key_id ++ (b':' ∷ message)) }

-- What the documentation asks of a key store: a key is resolved by its stable id, and what is
-- unknown is denied.
pub record IsConforming (known : Text → Type 0) (store : KeyStore) : Type 0 where
  pub resolves : (id : Text) → known id → store.resolve_key id ≡ ok (record { key_id = id })
  pub denies :
      (id : Text) (handle : SigningKeyHandle)
      → store.resolve_key id ≡ ok handle
      → known id × (handle.key_id ≡ id)

test_key_store-denies :
    (own id : Text) (handle : SigningKeyHandle)
    → (test_key_store own).resolve_key id ≡ ok handle
    → (id ≡ own) × (handle.key_id ≡ id)
test_key_store-denies own id handle h = elim (Bool-cases (text_eq id own)) [
  | inl same ↦ (
    (text_eq_iff id own).0 same,
    ap (λ (k : SigningKeyHandle). k.key_id) (sym (ok-injective (rw same at h))),
  )
  | inr other ↦ absurd (cc (rw other at h))
]

pub test_key_store-IsConforming : (own : Text) → IsConforming (λ id. id ≡ own) (test_key_store own)
test_key_store-IsConforming own = record {
  resolves = λ id same. rw ((text_eq_iff id own).1 same) refl;
  denies = test_key_store-denies own;
}
