-- ===== src/Serving/Serve/Revalidation.antt =====
-- Revalidation of the manifest in crates/serving/src/lib.rs, by the tags of crates/store/src/lib.rs.
use ajar_gateway.Common.{
  ◌≡◌, ◌≢◌, sym, ap, ◌∙◌, Bool, true, false, none, some, [], ◌∷◌, length, Bool-cases, inl, inr,
  arith,
}
use ajar_gateway.Common.Int.{ℤ, ◌<ℤ◌}
use ajar_gateway.Text.{codes, text_eq}
use ajar_gateway.Text.Laws.{text_eq_iff, text_eq_refl}
use ajar_gateway.Store.Model.{Bytes}
use ajar_gateway.Store.FilePath.{FilePath}
use ajar_gateway.Store.Backend.{FileSystem}
use ajar_gateway.Store.Validate.{Serde}
use ajar_gateway.Store.Etag.{strong_etag}
use ajar_gateway.Store.Etag.Laws.{strong_etag-length}
use ajar_gateway.Store.Etag.Plain.{tag_rest, strong_etag-tag_rest, tag_rest-IsPlain}
use ajar_gateway.Store.Load.{PreparedContentStore}
use ajar_gateway.Store.Load.Prepared.{IsPrepared}
use ajar_gateway.Serving.Http.{Http, Response, bytes}
use ajar_gateway.Serving.Headers.{if_none_match, if_none_match_matches}
use ajar_gateway.Serving.Headers.Matching.{if_none_match_matches_tag}
use ajar_gateway.Serving.State.{ProxyState, increment_manifest_served_total}
use ajar_gateway.Serving.Problem.{empty_response}
use ajar_gateway.Serving.Serve.{serve_manifest}
use ajar_gateway.Serving.Serve.Cases.{Stored, expired, cached, fresh, serve_manifest-Stored}

tags_differ :
    (prefix xs ys : Bytes)
    → length xs ≢ length ys
    → text_eq (strong_etag prefix xs none) (strong_etag prefix ys none) ≡ false
tags_differ prefix xs ys ne =
    elim (Bool-cases (text_eq (strong_etag prefix xs none) (strong_etag prefix ys none))) [
      | inl same ↦ absurd (
          ne (
            strong_etag-length prefix xs ys
              ((text_eq_iff (strong_etag prefix xs none) (strong_etag prefix ys none)).0 same)))
      | inr differ ↦ differ
    ]

module _ {H V U B : Type 0} (http : Http H V U B) {Addr Value : Type 0} where
  -- The manifest is sent.
  pub record IsResent (store : PreparedContentStore Value) (state : ProxyState Addr Value)
      (answer : Response H B × ProxyState Addr Value) : Type 0 where
    pub status_ok : answer.0.status ≡ 200
    pub exact_bytes : answer.0.body ≡ bytes store.manifest.bytes
    pub counted : answer.1 ≡ increment_manifest_served_total state

  Stored-cached :
      (store : PreparedContentStore Value) (now : ℤ) (state counted : ProxyState Addr Value)
      (content : Bytes) (matched : Bool) (answer : Response H B × ProxyState Addr Value)
      → now <ℤ store.manifest.expires_at_unix
      → matched ≡ true
      → Stored http store now state counted content matched answer
      → answer ≡ (empty_response http 304, state)
  Stored-cached store now state counted content matched answer in_time same (expired late _) =
      absurd (ground arith)
  Stored-cached store now state counted content matched answer in_time same (cached _ _ e) = e
  Stored-cached store now state counted content matched answer in_time same (fresh _ new _ _ _) =
      absurd (cc)

  Stored-IsResent :
      (store : PreparedContentStore Value) (now : ℤ) (state : ProxyState Addr Value)
      (matched : Bool) (answer : Response H B × ProxyState Addr Value)
      → now <ℤ store.manifest.expires_at_unix
      → matched ≡ false
      → Stored http store now state
          (increment_manifest_served_total state)
          store.manifest.bytes
          matched
          answer
      → IsResent store state answer
  Stored-IsResent store now state matched answer in_time new (expired late _) =
      absurd (ground arith)
  Stored-IsResent store now state matched answer in_time new (cached _ same _) = absurd (cc)
  Stored-IsResent store now state matched answer in_time new (fresh _ _ status body after) =
      record { status_ok = status; exact_bytes = body; counted = after }

module _ {H V U B : Type 0} (http : Http H V U B) {Value S : Type 0} (serde : Serde Value)
    (fs : FileSystem S) where
  -- The tag of a manifest that was seen, against that of the manifest that is served.
  manifest_tag-matches :
      (s : S) (dir : FilePath) (loaded_at : ℤ) (store : PreparedContentStore Value) (headers : H)
      (value : V) (seen : Bytes)
      → IsPrepared serde fs s dir loaded_at store
      → http.get_all headers if_none_match ≡ value ∷ []
      → http.value_text value ≡ some (strong_etag (codes "manifest") seen none)
      → if_none_match_matches http headers store.manifest.etag
        ≡ text_eq
            (strong_etag (codes "manifest") seen none)
            (strong_etag (codes "manifest") store.manifest.bytes none)
  manifest_tag-matches s dir loaded_at store headers value seen prepared one is_tag =
      let form = strong_etag-tag_rest (codes "manifest") seen in
      rw (prepared.manifest_tag, form)
        (if_none_match_matches_tag http headers value (tag_rest (codes "manifest") seen)
          (strong_etag (codes "manifest") store.manifest.bytes none) one (is_tag ∙ ap some form)
          (tag_rest-IsPlain (codes "manifest") seen))

module _ {H V U B : Type 0} (http : Http H V U B) {Addr Value S : Type 0} (serde : Serde Value)
    (fs : FileSystem S) where
  -- A client that has seen a manifest with the bytes `seen`, and sends its tag as the one value of
  -- `if-none-match` while a prepared store is served, is told before the expiry that it has the
  -- manifest, if the bytes are still the same, and nothing changes; it gets the manifest, and this
  -- is counted, if the number of bytes has changed.
  pub serve_manifest_revalidated :
      (s : S) (dir : FilePath) (loaded_at now : ℤ) (state : ProxyState Addr Value)
      (store : PreparedContentStore Value) (headers : H) (value : V) (seen : Bytes)
      → IsPrepared serde fs s dir loaded_at store
      → http.get_all headers if_none_match ≡ value ∷ []
      → http.value_text value ≡ some (strong_etag (codes "manifest") seen none)
      → now <ℤ store.manifest.expires_at_unix
      → (seen ≡ store.manifest.bytes
          → serve_manifest http state store headers now ≡ (empty_response http 304, state))
        × (length seen ≢ length store.manifest.bytes
            → IsResent http store state (serve_manifest http state store headers now))
  serve_manifest_revalidated s dir loaded_at now state store headers value seen prepared one is_tag
        in_time =
      let matches =
        manifest_tag-matches http serde fs s dir loaded_at store headers value seen prepared one
          is_tag in
      let answer = serve_manifest-Stored http state store headers now in
      let old = strong_etag (codes "manifest") seen none in
      (
        λ same.
            Stored-cached http store now state _ store.manifest.bytes _ _ in_time
              (matches
                ∙ ap (λ (b : Bytes). text_eq old (strong_etag (codes "manifest") b none)) (sym same)
                ∙ text_eq_refl old)
              answer,
        λ changed.
            Stored-IsResent http store now state _ _ in_time
              (matches ∙ tags_differ (codes "manifest") seen store.manifest.bytes changed) answer,
      )
