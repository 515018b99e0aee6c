-- ===== src/Scenarios/Prepared.antt =====
-- The tests of crates/serving/src/lib.rs of the answers from the store.
use ajar_gateway.Common.{[], ◌∷◌, ◌==◌}
use ajar_gateway.Common.Int.{pos}
use ajar_gateway.Text.{codes}
use ajar_gateway.Serving.Headers.{
  accept, ajar_content_signature, ajar_error_code, cache_control, content_type, etag_header,
  if_none_match, link, vary,
}
use ajar_gateway.Serving.Proxy.{is_some}
use ajar_gateway.Scenarios.Gateway.{
  Test, ◌>>=◌, ◌>>◌, assert, spawn_origin, shutdown, found, set_clock, spawn_gateway_with_store,
  write_fixture,
}
use ajar_gateway.Scenarios.Fixture.{manifest_fixture, view_fixture}
use ajar_gateway.Scenarios.Wire.{header}
use ajar_gateway.Scenarios.Client.{
  build_request, request_public, public_uri, header_is, body_is, body_contains,
}

abbrev pub manifest_serves_200_304_and_html_proxy_link : Test (Unit {0})
manifest_serves_200_304_and_html_proxy_link = do
  spawn_origin
  store_dir ← write_fixture
  set_clock (pos 0)
  spawn_gateway_with_store 1024 store_dir
  manifest_request ← build_request (codes "GET") (public_uri (codes "/.well-known/ajar.json")) [] []
  manifest_response ← request_public manifest_request
  assert (header_is manifest_response content_type (codes "application/json"))
  assert (is_some (header manifest_response.headers cache_control))
  assert (body_is manifest_response manifest_fixture)
  etag ← found (header manifest_response.headers etag_header)
  again ←
      build_request (codes "GET") (public_uri (codes "/.well-known/ajar.json"))
        ((if_none_match, etag) ∷ []) []
  not_modified ← request_public again
  assert (not_modified.status == 304)
  html_request ← build_request (codes "GET") (public_uri (codes "/html")) [] []
  html_response ← request_public html_request
  assert (header_is html_response link (codes "</.well-known/ajar.json>; rel=\"ajar-manifest\""))
  shutdown

abbrev pub view_json_serves_signature_etag_and_304 : Test (Unit {0})
view_json_serves_signature_etag_and_304 = do
  spawn_origin
  store_dir ← write_fixture
  set_clock (pos 0)
  spawn_gateway_with_store 1024 store_dir
  request ←
      build_request (codes "GET") (public_uri (codes "/article?x=1"))
        ((accept, codes "application/ajar+json") ∷ []) []
  response ← request_public request
  assert (header_is response content_type (codes "application/ajar+json"))
  assert (header_is response etag_header (codes "\"view-article-001\""))
  assert (header_is response ajar_content_signature (codes "viewSignature001"))
  assert (header_is response vary (codes "Accept"))
  assert (body_is response view_fixture)
  again ←
      build_request (codes "GET") (public_uri (codes "/article?x=1"))
        ((accept, codes "application/ajar+json")
          ∷ (if_none_match, codes "\"view-article-001\"")
          ∷ [])
        []
  not_modified ← request_public again
  assert (not_modified.status == 304)
  shutdown

abbrev pub markdown_rendering_matches_golden : Test (Unit {0})
markdown_rendering_matches_golden = do
  spawn_origin
  store_dir ← write_fixture
  set_clock (pos 0)
  spawn_gateway_with_store 1024 store_dir
  request ←
      build_request (codes "GET") (public_uri (codes "/article?x=1"))
        ((accept, codes "text/markdown") ∷ []) []
  response ← request_public request
  assert (header_is response content_type (codes "text/markdown; charset=utf-8"))
  assert (
      body_is response
        (codes "## Example Notes\n\nSigned notes for readers and agents.\n\n- First\n- Second"))
  shutdown

abbrev pub expired_manifest_returns_404_problem_after_startup : Test (Unit {0})
expired_manifest_returns_404_problem_after_startup = do
  spawn_origin
  store_dir ← write_fixture
  set_clock (pos 0)
  spawn_gateway_with_store 1024 store_dir
  set_clock (pos 2_000_000_000)
  request ← build_request (codes "GET") (public_uri (codes "/.well-known/ajar.json")) [] []
  response ← request_public request
  assert (response.status == 404)
  assert (header_is response ajar_error_code (codes "AJAR-VERIFY-EXPIRED"))
  assert (body_contains response (codes "\"ajar_error_code\":\"AJAR-VERIFY-EXPIRED\""))
  shutdown
