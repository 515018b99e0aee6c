-- ===== src/Examples/Proxy.antt =====
-- Instances of the theorems on `proxy_request` in crates/serving.
use ajar_gateway.Common.{ℕ, ◌≡◌, refl, false, some, [], ◌∷◌, ok}
use ajar_gateway.Text.{Text, text_eq}
use ajar_gateway.Serving.Http.{Request, Response, bytes}
use ajar_gateway.Serving.Headers.{if_none_match_matches, texts}
use ajar_gateway.Serving.State.{Shared}
use ajar_gateway.Serving.Serve.{
  serve_manifest, serve_view_index, serve_view_json, serve_view_markdown,
}
use ajar_gateway.Serving.Serve.Cached.{NotModified, serve-NotModified}
use ajar_gateway.Serving.Proxy.{proxy_request, current_store, from_store, manifest_path}
use ajar_gateway.Serving.Proxy.Account.{IsAccounted}
use ajar_gateway.Serving.Proxy.Answers.{proxy_request-IsAccounted}
use ajar_gateway.Serving.Proxy.Offer.{IsOffered}
use ajar_gateway.Serving.Proxy.Contents.{proxy_request-IsOffered}
use ajar_gateway.Examples.Headers.{Headers, map_http}
use ajar_gateway.Examples.Site.{site_store, stored_view, today}
use ajar_gateway.Examples.Serving.{state, shared, headers, get_page, origin}

proxy_request-IsAccounted_example :
    IsAccounted state.metrics
      (proxy_request map_http origin state get_page today).1.metrics
      (proxy_request map_http origin state get_page today).0
proxy_request-IsAccounted_example = proxy_request-IsAccounted map_http origin state get_page today

abbrev pub get_manifest : Request Headers Text ℕ
get_manifest = record get_page { uri = manifest_path }

abbrev manifest_answer : Response Headers ℕ
manifest_answer = (serve_manifest map_http state (site_store 3) headers today).0

manifest_is_answered :
    (proxy_request map_http origin state get_manifest today).0 ≡ ok manifest_answer
unfolding proxy_request current_store from_store if_none_match_matches texts text_eq serve_manifest
manifest_is_answered = refl

manifest_bytes : manifest_answer.body ≡ bytes (3 ∷ [])
unfolding if_none_match_matches texts text_eq serve_manifest
manifest_bytes = refl

proxy_request-IsOffered_example :
    (s : Shared ℕ) × (some shared ≡ some s)
    × (s.poisoned ≡ false)
    × IsOffered map_http s.current get_manifest today (3 ∷ [])
proxy_request-IsOffered_example =
    proxy_request-IsOffered map_http origin state get_manifest today manifest_answer (3 ∷ [])
      manifest_is_answered manifest_bytes

serve-NotModified_example :
    NotModified map_http
      (site_store 3)
      today
      state
      (if_none_match_matches map_http headers (site_store 3).manifest.etag)
      (serve_manifest map_http state (site_store 3) headers today)
    × NotModified map_http
        (site_store 3)
        today
        state
        (if_none_match_matches map_http headers (site_store 3).view_index.etag)
        (serve_view_index map_http state (site_store 3) headers today)
    × NotModified map_http
        (site_store 3)
        today
        state
        (if_none_match_matches map_http headers stored_view.view.etag)
        (serve_view_json map_http state (site_store 3) stored_view headers today)
    × NotModified map_http
        (site_store 3)
        today
        state
        (if_none_match_matches map_http headers stored_view.view.etag)
        (serve_view_markdown map_http state (site_store 3) stored_view headers today)
serve-NotModified_example =
    serve-NotModified map_http state (site_store 3) stored_view headers today
