-- ===== src/Scenarios/Passing.antt =====
-- The tests of crates/serving/src/lib.rs of a gateway without a store.
use ajar_gateway.Common.{Bool, true, false, not, ◌&&◌, none, some, [], ◌∷◌, ◌==◌}
use ajar_gateway.Text.{Text, codes}
use ajar_gateway.Serving.Negotiate.{Representation, ajar_json, markdown, passthrough, negotiate}
use ajar_gateway.Serving.Headers.{content_type, content_length, ajar_error_code}
use ajar_gateway.Serving.Proxy.{is_some}
use ajar_gateway.Scenarios.Gateway.{
  Test, ◌>>=◌, ◌>>◌, assert, spawn_origin, shutdown, spawn_gateway,
}
use ajar_gateway.Scenarios.Wire.{header}
use ajar_gateway.Scenarios.Client.{
  build_request, request_public, request_admin, public_uri, admin_uri, header_is, body_is,
  body_contains, post_reload,
}

abbrev same_representation : Representation → Representation → Bool
same_representation ajar_json ajar_json = true
same_representation markdown markdown = true
same_representation passthrough passthrough = true
same_representation _ _ = false

abbrev chooses : Text → Representation → Bool
chooses header wanted = same_representation (negotiate (some header) true) wanted

unfoldable pub negotiation_matrix : Bool
unfolding negotiate
negotiation_matrix =
    chooses (codes "application/ajar+json") ajar_json
    && chooses (codes "application/ajar+json; profile=core; q=0.7") ajar_json
    && chooses (codes "text/markdown") markdown
    && chooses (codes "text/markdown;q=1, application/ajar+json;q=0.1") ajar_json
    && chooses (codes "application/ajar+json;q=0, text/markdown;q=1") markdown
    && chooses (codes "text/markdown;q=0") passthrough
    && chooses (codes "*/*") passthrough
    && chooses (codes "this is not an accept header") passthrough
    && same_representation (negotiate (some (codes "application/ajar+json")) false) passthrough
    && same_representation (negotiate none true) passthrough

abbrev pub get_request_passes_through_status_headers_and_body : Test (Unit {0})
get_request_passes_through_status_headers_and_body = do
  spawn_origin
  spawn_gateway 1024
  request ←
      build_request (codes "GET") (public_uri (codes "/get?x=1"))
        ((codes "x-custom", codes "kept") ∷ []) []
  response ← request_public request
  assert (response.status == 206)
  assert (header_is response (codes "x-origin") (codes "yes"))
  assert (header_is response (codes "x-seen-custom") (codes "kept"))
  assert (body_is response (codes "get:/get?x=1"))
  shutdown

abbrev pub post_body_streams_through : Test (Unit {0})
post_body_streams_through = do
  spawn_origin
  spawn_gateway 1024
  request ←
      build_request (codes "POST") (public_uri (codes "/post"))
        ((content_type, codes "application/octet-stream") ∷ []) (codes "posted-body")
  response ← request_public request
  assert (body_is response (codes "posted-body"))
  shutdown

abbrev pub hop_by_hop_headers_are_stripped : Test (Unit {0})
hop_by_hop_headers_are_stripped = do
  spawn_origin
  spawn_gateway 1024
  request ←
      build_request (codes "GET") (public_uri (codes "/hop"))
        ((codes "connection", codes "x-remove")
          ∷ (codes "x-remove", codes "present")
          ∷ (codes "keep-alive", codes "timeout=5")
          ∷ [])
        []
  response ← request_public request
  assert (not (is_some (header response.headers (codes "connection"))))
  assert (body_is response (codes "stripped"))
  shutdown

abbrev pub admin_healthz_and_metrics_respond : Test (Unit {0})
admin_healthz_and_metrics_respond = do
  spawn_origin
  spawn_gateway 1024
  health_request ← build_request (codes "GET") (admin_uri (codes "/healthz")) [] []
  health_response ← request_admin health_request
  metrics_request ← build_request (codes "GET") (admin_uri (codes "/metrics")) [] []
  metrics_response ← request_admin metrics_request
  assert (body_is health_response (codes "{\"status\":\"ok\"}"))
  assert (body_contains metrics_response (codes "requests_total"))
  shutdown

abbrev pub storeless_manifest_path_passes_through_to_origin : Test (Unit {0})
storeless_manifest_path_passes_through_to_origin = do
  spawn_origin
  spawn_gateway 1024
  request ← build_request (codes "GET") (public_uri (codes "/.well-known/ajar.json")) [] []
  response ← request_public request
  assert (body_is response (codes "origin-manifest"))
  shutdown

abbrev pub reload_without_store_config_returns_409_and_get_is_405 : Test (Unit {0})
reload_without_store_config_returns_409_and_get_is_405 = do
  spawn_origin
  spawn_gateway 1024
  post_response ← post_reload
  assert (post_response.status == 409)
  assert (body_contains post_response (codes "no content store configured"))
  get_request ← build_request (codes "GET") (admin_uri (codes "/reload")) [] []
  get_response ← request_admin get_request
  assert (get_response.status == 405)
  shutdown

abbrev pub oversized_body_is_rejected : Test (Unit {0})
oversized_body_is_rejected = do
  spawn_origin
  spawn_gateway 4
  request ←
      build_request (codes "POST") (public_uri (codes "/post")) ((content_length, codes "5") ∷ [])
        (codes "12345")
  response ← request_public request
  assert (response.status == 413)
  assert (header_is response ajar_error_code (codes "AJAR_GATEWAY_REQUEST_BODY_TOO_LARGE"))
  shutdown
