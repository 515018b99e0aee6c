-- ===== src/Serving/Serve.antt =====
-- The answers from the store in crates/serving/src/lib.rs: the manifest, the View index, and a View
-- as the stored object or as markdown.
pub mod Laws
pub mod Cases
pub mod Revalidation
pub mod Cached
use ajar_gateway.Common.{
  ℕ, Bool, true, false, Option, none, some, List, [], ◌∷◌, ◌++◌, map, if◌then◌else◌, ltb, min,
}
use ajar_gateway.Common.Int.{ℤ, pos, pos_part, ◌-ℤ◌, leb_ℤ, ltb_ℤ}
use ajar_gateway.Text.{Text, codes, text_eq, utf8, join}
use ajar_gateway.Text.Number.{decimal}
use ajar_gateway.Store.Model.{Bytes, ViewChunk, StoredView}
use ajar_gateway.Store.Load.{PreparedContentStore}
use ajar_gateway.Serving.Http.{Http, Response, Content, bytes}
use ajar_gateway.Serving.Headers.{
  content_type, cache_control, etag_header, vary, ajar_content_signature, if_none_match_matches,
  insert_header,
}
use ajar_gateway.Serving.Negotiate.{ajar_json_type}
use ajar_gateway.Serving.State.{
  ProxyState, log_manifest_expired_once, increment_views_served_total,
  increment_manifest_served_total,
}
use ajar_gateway.Serving.Problem.{empty_response, problem_response}

-- `clamp(0, 3_600)`
abbrev pub clamp_cache : ℤ → ℤ
clamp_cache n = if ltb_ℤ n (pos 0) then pos 0 else if ltb_ℤ (pos 3_600) n then pos 3_600 else n

-- The text of a chunk: every type but a heading stands as it is.
abbrev render_chunk : ViewChunk → Text
render_chunk chunk =
    if text_eq chunk.chunk_type (codes "heading")
    then codes "## " ++ chunk.content
    else chunk.content

unfoldable pub render_markdown : StoredView → Text
render_markdown view = join (codes "\n\n") (map render_chunk view.view.chunks)

module _ {H V U B : Type 0} (http : Http H V U B) where
  abbrev pub expired_response : Response H B
  expired_response =
      problem_response http 404 (codes "AJAR-VERIFY-EXPIRED") (codes "Manifest expired")
        (codes "The configured Ajar manifest has expired.")

  -- `Response::new(Body::from(bytes))` with its content type.
  abbrev pub typed_response : Bytes → Text → Response H B
  typed_response content media = record {
    status = 200;
    headers = http.insert http.empty content_type (http.static_value media);
    body = bytes content;
  }

  abbrev pub with_header : Response H B → Text → Text → Response H B
  with_header response name value = record response {
    headers = insert_header http response.headers name value;
  }

  abbrev pub with_static : Response H B → Text → Text → Response H B
  with_static response name value = record response {
    headers = http.insert response.headers name (http.static_value value);
  }

  -- The headers that the two forms of a View share.
  abbrev pub view_response : StoredView → Bytes → Text → Response H B
  view_response view content media =
      with_static
        (with_header (with_header (typed_response content media) etag_header view.view.etag)
          ajar_content_signature view.view.signature.sig)
        vary (codes "Accept")

module _ {H V U B : Type 0} (http : Http H V U B) {Addr Value : Type 0} where
  unfoldable pub serve_manifest :
      ProxyState Addr Value
      → PreparedContentStore Value
      → H
      → ℤ
      → Response H B × ProxyState Addr Value
  serve_manifest state store headers now =
      let manifest = store.manifest in
      let cache_seconds = clamp_cache (manifest.expires_at_unix -ℤ now) in
      let response =
        with_header http
          (with_header http (typed_response http manifest.bytes (codes "application/json"))
            cache_control (codes "max-age=" ++ decimal (pos_part cache_seconds)))
          etag_header manifest.etag in
      if leb_ℤ manifest.expires_at_unix now
      then (expired_response http, log_manifest_expired_once state)
      else if if_none_match_matches http headers manifest.etag
      then (empty_response http 304, state)
      else (response, increment_manifest_served_total state)

  -- `expired_manifest_problem` in front of an answer.
  abbrev pub unless_expired :
      ProxyState Addr Value
      → PreparedContentStore Value
      → ℤ
      → Response H B × ProxyState Addr Value
      → Response H B × ProxyState Addr Value
  unless_expired state store now answer =
      if ltb_ℤ now store.manifest.expires_at_unix
      then answer
      else (expired_response http, log_manifest_expired_once state)

  unfoldable pub serve_view_index :
      ProxyState Addr Value
      → PreparedContentStore Value
      → H
      → ℤ
      → Response H B × ProxyState Addr Value
  serve_view_index state store headers now =
      let index = store.view_index in
      let response =
        with_header http (typed_response http index.bytes (codes "application/json")) etag_header
          index.etag in
      unless_expired state store now (
        if if_none_match_matches http headers index.etag
        then (empty_response http 304, state)
        else (response, increment_views_served_total state))

  unfoldable pub serve_view_json :
      ProxyState Addr Value
      → PreparedContentStore Value
      → StoredView
      → H
      → ℤ
      → Response H B × ProxyState Addr Value
  serve_view_json state store view headers now = unless_expired state store now (
      if if_none_match_matches http headers view.view.etag
      then (empty_response http 304, state)
      else (view_response http view view.bytes ajar_json_type, increment_views_served_total state))

  unfoldable pub serve_view_markdown :
      ProxyState Addr Value
      → PreparedContentStore Value
      → StoredView
      → H
      → ℤ
      → Response H B × ProxyState Addr Value
  serve_view_markdown state store view headers now = unless_expired state store now (
      if if_none_match_matches http headers view.view.etag
      then (empty_response http 304, state)
      else (
        view_response http view (utf8 (render_markdown view))
            (codes "text/markdown; charset=utf-8"),
        increment_views_served_total state,
      ))
