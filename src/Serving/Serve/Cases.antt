-- ===== src/Serving/Serve/Cases.antt =====
-- The three ways an answer from the store ends, in crates/serving/src/lib.rs: late, already at the
-- client, or sent.
use ajar_gateway.Common.{◌≡◌, refl, Bool, true, false, if◌then◌else◌, Bool-cases, inl, inr, arith}
use ajar_gateway.Common.Int.{ℤ, ◌≤ℤ◌, ◌<ℤ◌, leb_ℤ, ltb_ℤ}
use ajar_gateway.Text.{utf8}
use ajar_gateway.Store.Model.{Bytes, StoredView}
use ajar_gateway.Store.Load.{PreparedContentStore}
use ajar_gateway.Serving.Http.{Http, Response, bytes}
use ajar_gateway.Serving.Headers.{if_none_match_matches}
use ajar_gateway.Serving.State.{
  ProxyState, log_manifest_expired_once, increment_views_served_total,
  increment_manifest_served_total,
}
use ajar_gateway.Serving.Problem.{empty_response}
use ajar_gateway.Serving.Serve.{
  expired_response, unless_expired, serve_manifest, serve_view_index, serve_view_json,
  serve_view_markdown, render_markdown,
}

module _ {H V U B : Type 0} (http : Http H V U B) {Addr Value : Type 0} where
  -- An answer with the content `content`, where `counted` is the state once it is sent, and
  -- `matched` tells whether the client has it.
  pub data Stored (store : PreparedContentStore Value) (now : ℤ)
      (state counted : ProxyState Addr Value) (content : Bytes) (matched : Bool)
      (answer : Response H B × ProxyState Addr Value) : Type 0 where
    expired :
        store.manifest.expires_at_unix ≤ℤ now
        → answer ≡ (expired_response http, log_manifest_expired_once state)
        → Stored store now state counted content matched answer
    cached :
        now <ℤ store.manifest.expires_at_unix
        → matched ≡ true
        → answer ≡ (empty_response http 304, state)
        → Stored store now state counted content matched answer
    fresh :
        now <ℤ store.manifest.expires_at_unix
        → matched ≡ false
        → answer.0.status ≡ 200
        → answer.0.body ≡ bytes content
        → answer.1 ≡ counted
        → Stored store now state counted content matched answer

  sent_or_cached :
      (store : PreparedContentStore Value) (now : ℤ) (state : ProxyState Addr Value)
      (content : Bytes) (matched : Bool) (answer : Response H B × ProxyState Addr Value)
      → now <ℤ store.manifest.expires_at_unix
      → answer.0.status ≡ 200
      → answer.0.body ≡ bytes content
      → Stored store now state answer.1 content matched
          (if matched then (empty_response http 304, state) else answer)
  sent_or_cached store now state content true answer in_time status body = cached in_time refl refl
  sent_or_cached store now state content false answer in_time status body =
      fresh in_time refl status body refl

  unless_expired-Stored :
      (store : PreparedContentStore Value) (now : ℤ) (state : ProxyState Addr Value)
      (content : Bytes) (matched : Bool) (answer : Response H B × ProxyState Addr Value)
      → answer.0.status ≡ 200
      → answer.0.body ≡ bytes content
      → Stored store now state answer.1 content matched (
          unless_expired http state store now
            (if matched then (empty_response http 304, state) else answer))
  unless_expired-Stored store now state content matched answer status body =
      elim (Bool-cases (ltb_ℤ now store.manifest.expires_at_unix)) [
        | inl in_time ↦
            rw in_time
              (sent_or_cached store now state content matched answer (ground arith) status body)
        | inr late ↦ rw late (expired (ground arith) refl)
      ]

  pub serve_manifest-Stored :
      (state : ProxyState Addr Value) (store : PreparedContentStore Value) (headers : H) (now : ℤ)
      → Stored store now state
          (increment_manifest_served_total state)
          store.manifest.bytes
          (if_none_match_matches http headers store.manifest.etag)
          (serve_manifest http state store headers now)
  unfolding serve_manifest
  serve_manifest-Stored state store headers now =
      elim (Bool-cases (leb_ℤ store.manifest.expires_at_unix now)) [
        | inl late ↦ rw late (expired (ground arith) refl)
        | inr in_time ↦ rw in_time (
            sent_or_cached store now state store.manifest.bytes
              (if_none_match_matches http headers store.manifest.etag) _ (ground arith) refl refl)
      ]

  pub serve_view_index-Stored :
      (state : ProxyState Addr Value) (store : PreparedContentStore Value) (headers : H) (now : ℤ)
      → Stored store now state
          (increment_views_served_total state)
          store.view_index.bytes
          (if_none_match_matches http headers store.view_index.etag)
          (serve_view_index http state store headers now)
  unfolding serve_view_index
  serve_view_index-Stored state store headers now =
      unless_expired-Stored store now state store.view_index.bytes
        (if_none_match_matches http headers store.view_index.etag) _ refl refl

  pub serve_view_json-Stored :
      (state : ProxyState Addr Value) (store : PreparedContentStore Value) (view : StoredView)
      (headers : H) (now : ℤ)
      → Stored store now state
          (increment_views_served_total state)
          view.bytes
          (if_none_match_matches http headers view.view.etag)
          (serve_view_json http state store view headers now)
  unfolding serve_view_json
  serve_view_json-Stored state store view headers now =
      unless_expired-Stored store now state view.bytes
        (if_none_match_matches http headers view.view.etag) _ refl refl

  pub serve_view_markdown-Stored :
      (state : ProxyState Addr Value) (store : PreparedContentStore Value) (view : StoredView)
      (headers : H) (now : ℤ)
      → Stored store now state
          (increment_views_served_total state)
          (utf8 (render_markdown view))
          (if_none_match_matches http headers view.view.etag)
          (serve_view_markdown http state store view headers now)
  unfolding serve_view_markdown
  serve_view_markdown-Stored state store view headers now =
      unless_expired-Stored store now state (utf8 (render_markdown view))
        (if_none_match_matches http headers view.view.etag) _ refl refl
