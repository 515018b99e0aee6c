-- ===== src/Scenarios/Serde.antt =====
-- The typed conversions that serde derives for crates/store/src/lib.rs, on the values of `Json`: an
-- instance of the parameter `Serde`, to run the tests of crates/serving/src/lib.rs with.
use ajar_gateway.Common.{Option, none, some, List, [], ◌∷◌, if◌then◌else◌}
use ajar_gateway.Common.Int.{ℤ, pos}
use ajar_gateway.Text.{Text, codes, text_eq}
use ajar_gateway.Text.Decode.{to_str}
use ajar_gateway.Store.Model.{Manifest, Signature, View, ViewChunk}
use ajar_gateway.Store.Validate.{Serde}
use ajar_gateway.Scenarios.Json.{
  ◌>>=◌, Json, number, text, array, object, Items, no_items, item, Fields, no_fields, field,
  parse_json,
}

abbrev get : Text → Fields → Option Json
get key no_fields = none
get key (field name value fields) =
    let rest = get key fields in if text_eq key name then some value else rest

abbrev member_of : Json → Text → Option Json
member_of (object fields) key = get key fields
member_of _ key = none

abbrev as_text : Json → Option Text
as_text (text t) = some t
as_text _ = none

abbrev as_integer : Json → Option ℤ
as_integer (number n) = some (pos n)
as_integer _ = none

abbrev key_names : Fields → List Text
key_names no_fields = []
key_names (field name _ fields) = name ∷ key_names fields

abbrev keys_of : Json → Option (List Text)
keys_of (object fields) = some (key_names fields)
keys_of _ = none

abbrev text_at : Json → Text → Option Text
text_at value key = do found ← member_of value key; as_text found

abbrev signature_of : Json → Option Signature
signature_of value = do
  found ← member_of value (codes "signature")
  sig ← text_at found (codes "sig")
  some (record { sig = sig })

abbrev chunk_of : Json → Option ViewChunk
chunk_of value = do
  chunk_type ← text_at value (codes "type")
  content ← text_at value (codes "content")
  some (record { chunk_type = chunk_type; content = content })

abbrev chunks_in : Items → Option (List ViewChunk)
chunks_in no_items = some []
chunks_in (item value items) = do
  chunk ← chunk_of value
  chunks ← chunks_in items
  some (chunk ∷ chunks)

abbrev chunks_of : Json → Option (List ViewChunk)
chunks_of (array items) = chunks_in items
chunks_of _ = none

abbrev view_of : Json → Option View
view_of value = do
  url ← text_at value (codes "url")
  etag ← text_at value (codes "etag")
  listed ← member_of value (codes "chunks")
  chunks ← chunks_of listed
  signature ← signature_of value
  some (record { url = url; etag = etag; chunks = chunks; signature = signature })

abbrev manifest_of : Json → Option (Manifest Json)
manifest_of value = do
  ajar_version ← member_of value (codes "ajar_version")
  profiles ← member_of value (codes "profiles")
  site ← member_of value (codes "site")
  keys ← member_of value (codes "keys")
  views ← member_of value (codes "views")
  index ← text_at views (codes "index")
  issued_at ← text_at value (codes "issued_at")
  expires_at ← text_at value (codes "expires_at")
  found ← member_of value (codes "sequence")
  sequence ← as_integer found
  signature ← signature_of value
  some (record {
    ajar_version = ajar_version;
    profiles = profiles;
    site = site;
    keys = keys;
    views = record { index = index };
    issued_at = issued_at;
    expires_at = expires_at;
    sequence = sequence;
    signature = signature;
  })

abbrev pub json_serde : Serde Json
json_serde = record {
  from_slice = λ bytes. to_str bytes >>= parse_json;
  as_object = keys_of;
  manifest_from_value = manifest_of;
  view_from_value = view_of;
}
