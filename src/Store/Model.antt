-- ===== src/Store/Model.antt =====
-- The data of crates/store/src/lib.rs. `Value` is `serde_json::Value`, which the crate never looks
-- into beyond the keys of an object.
use ajar_gateway.Common.{ℕ, List}
use ajar_gateway.Common.Int.{ℤ}
use ajar_gateway.Text.{Text}

abbrev pub Bytes : Type 0
Bytes = List ℕ

pub record Signature : Type 0 where
  pub sig : Text

pub record ManifestViews : Type 0 where
  pub index : Text

pub record Manifest (Value : Type 0) : Type 0 where
  pub ajar_version : Value
  pub profiles : Value
  pub site : Value
  pub keys : Value
  pub views : ManifestViews
  pub issued_at : Text
  pub expires_at : Text
  pub sequence : ℤ
  pub signature : Signature

pub record ViewChunk : Type 0 where
  pub chunk_type : Text
  pub content : Text

pub record View : Type 0 where
  pub url : Text
  pub etag : Text
  pub chunks : List ViewChunk
  pub signature : Signature

pub record StoredArtifact : Type 0 where
  pub bytes : Bytes
  pub etag : Text

pub record StoredManifest (Value : Type 0) : Type 0 where
  pub bytes : Bytes
  pub etag : Text
  pub expires_at_unix : ℤ
  pub views_index : Text
  pub manifest : Manifest Value

pub record StoredView : Type 0 where
  pub bytes : Bytes
  pub view : View
