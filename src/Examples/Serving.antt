-- ===== src/Examples/Serving.antt =====
-- Instances of the theorems on crates/serving.
use ajar_gateway.Common.{ℕ, ◌≡◌, ◌↔◌, refl, true, false, some, [], ◌∷◌, ok, arith, if◌then◌else◌}
use ajar_gateway.Common.Int.{◌≤ℤ◌}
use ajar_gateway.Text.{Text, codes, split, text_eq}
use ajar_gateway.Text.Number.{parse_u64}
use ajar_gateway.Serving.Http.{Request}
use ajar_gateway.Serving.Negotiate.{ajar_json, negotiate}
use ajar_gateway.Serving.Negotiate.Laws.{Chosen, negotiate-Chosen}
use ajar_gateway.Serving.Headers.{if_none_match_matches, texts, strip_hop_by_hop_headers}
use ajar_gateway.Serving.Headers.Laws.{is_hop_by_hop, strip_hop_by_hop_headers-get_all}
use ajar_gateway.Serving.Config.{
  GatewayConfig, ValidatedConfig, validate, IsValidated, validate_iff,
}
use ajar_gateway.Serving.State.{Shared, ProxyState}
use ajar_gateway.Serving.Serve.Laws.{
  serve-expired_iff, IsFreshManifest, serve_manifest-IsFreshManifest,
}
use ajar_gateway.Serving.Serve.{
  serve_manifest, serve_view_index, serve_view_json, serve_view_markdown,
}
use ajar_gateway.Serving.Upstream.{build_upstream_request, declared_content_length, request_target}
use ajar_gateway.Serving.Upstream.Laws.{IsForwarded, build_upstream_request_iff}
use ajar_gateway.Serving.Proxy.{Exchange, answered, proxy_request}
use ajar_gateway.Serving.Proxy.Kept.{IsCounted}
use ajar_gateway.Serving.Proxy.Laws.{proxy_request-IsCounted}
use ajar_gateway.Serving.Reload.{reload_store}
use ajar_gateway.Serving.Reload.Laws.{Answered, reload_store-Answered}
use ajar_gateway.Serving.Start.{no_metrics}
use ajar_gateway.Examples.Headers.{Headers, map_http, map_http_laws}
use ajar_gateway.Examples.Site.{dir, site_fs, site_serde, site_store, stored_view, today}

abbrev accept_text : Text
accept_text = codes "text/markdown;q=0,application/ajar+json"

negotiate-Chosen_example :
    (negotiate (some accept_text) true ≡ ajar_json) ↔ Chosen (split b',' accept_text) ajar_json
negotiate-Chosen_example = negotiate-Chosen accept_text ajar_json

abbrev pub headers : Headers
headers =
    (codes "connection", codes "X-Private, close")
    ∷ (codes "x-private", codes "1")
    ∷ (codes "proxy-authorization", codes "2")
    ∷ (codes "content-type", codes "text/html; charset=utf-8")
    ∷ (codes "content-length", codes "10")
    ∷ []

strip_hop_by_hop_headers-get_all_example :
    map_http.get_all (strip_hop_by_hop_headers map_http headers) (codes "x-private") ≡ (
      if is_hop_by_hop map_http headers (codes "x-private")
      then []
      else map_http.get_all headers (codes "x-private"))
strip_hop_by_hop_headers-get_all_example =
    strip_hop_by_hop_headers-get_all map_http map_http_laws headers (codes "x-private")

abbrev pub config : GatewayConfig ℕ
config = record {
  origin_url = codes "http://origin:8080";
  listen_addr = 1;
  admin_addr = 2;
  request_timeout_ms = 30_000;
  max_body_bytes = 100;
  store_dir = some dir;
}

abbrev pub valid : ValidatedConfig ℕ
valid = record {
  origin_scheme = codes "http";
  origin_authority = codes "origin:8080";
  listen_addr = 1;
  admin_addr = 2;
  request_timeout = 30_000;
  max_body_bytes = 100;
  store_dir = some dir;
}

validate_iff_example : (validate map_http config ≡ ok valid) ↔ IsValidated map_http config valid
validate_iff_example = validate_iff map_http config valid

-- A gateway that serves the site.
abbrev pub shared : Shared ℕ
shared = record { poisoned = false; current = site_store 3 }

abbrev pub state : ProxyState ℕ ℕ
state = record {
  config = valid;
  metrics = no_metrics;
  store = some shared;
  manifest_expiry_logged = false;
  log = [];
}

abbrev pub get_page : Request Headers Text ℕ
get_page = record { method = codes "GET"; uri = codes "/page"; headers = headers; body = 0 }

abbrev pub origin : Request Headers Text ℕ → Exchange Headers ℕ
origin r = answered 200 headers 5

serve-expired_iff_example :
    (((serve_manifest map_http state (site_store 3) headers today).0.status ≡ 404)
      ↔ ((site_store 3).manifest.expires_at_unix ≤ℤ today))
    × (((serve_view_index map_http state (site_store 3) headers today).0.status ≡ 404)
        ↔ ((site_store 3).manifest.expires_at_unix ≤ℤ today))
    × (((serve_view_json map_http state (site_store 3) stored_view headers today).0.status ≡ 404)
        ↔ ((site_store 3).manifest.expires_at_unix ≤ℤ today))
    × (((serve_view_markdown map_http state (site_store 3) stored_view headers today).0.status
          ≡ 404)
        ↔ ((site_store 3).manifest.expires_at_unix ≤ℤ today))
serve-expired_iff_example =
    serve-expired_iff map_http state (site_store 3) stored_view headers today

not_cached : if_none_match_matches map_http headers (site_store 3).manifest.etag ≡ false
unfolding if_none_match_matches texts text_eq
not_cached = refl

serve_manifest-IsFreshManifest_example :
    IsFreshManifest map_http
      (site_store 3)
      today
      (serve_manifest map_http state (site_store 3) headers today).0
serve_manifest-IsFreshManifest_example =
    serve_manifest-IsFreshManifest map_http map_http_laws state (site_store 3) headers today
      (omega arith) not_cached

abbrev pub upstream_page : Request Headers Text ℕ
upstream_page = record {
  method = codes "GET";
  uri = codes "http://origin:8080/page";
  headers = strip_hop_by_hop_headers map_http headers;
  body = 0;
}

build_upstream_request_iff_example :
    (build_upstream_request map_http valid get_page ≡ ok upstream_page)
    ↔ IsForwarded map_http valid get_page upstream_page
build_upstream_request_iff_example =
    build_upstream_request_iff map_http valid get_page upstream_page

pub page_is_sent : build_upstream_request map_http valid get_page ≡ ok upstream_page
unfolding build_upstream_request declared_content_length parse_u64 request_target text_eq
page_is_sent = refl

proxy_request-IsCounted_example :
    IsCounted state (proxy_request map_http origin state get_page today).1
proxy_request-IsCounted_example = proxy_request-IsCounted map_http origin state get_page today

reload_store-Answered_example :
    Answered map_http site_serde site_fs 3 today state
      (reload_store map_http site_serde site_fs 3 state today)
reload_store-Answered_example = reload_store-Answered map_http site_serde site_fs 3 state today
