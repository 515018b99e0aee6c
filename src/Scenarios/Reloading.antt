-- ===== src/Scenarios/Reloading.antt =====
-- The tests of crates/serving/src/lib.rs of the reload.
use ajar_gateway.Common.{[], ◌==◌}
use ajar_gateway.Common.Int.{pos}
use ajar_gateway.Text.{Text, codes, utf8}
use ajar_gateway.Store.FilePath.{join_path}
use ajar_gateway.Serving.Headers.{content_type}
use ajar_gateway.Scenarios.Gateway.{
  Test, ◌>>=◌, ◌>>◌, assert, spawn_origin, shutdown, set_clock, spawn_gateway_with_store,
  write_fixture, rewrite_fixture, write_file_at,
}
use ajar_gateway.Scenarios.Client.{
  build_request, request_admin, admin_uri, header_is, body_is, body_contains, contains,
  get_markdown_body, post_reload,
}

-- A text in the body of the markdown that is served.
abbrev markdown_has : Text → Test (Unit {0})
markdown_has part = do body ← get_markdown_body; assert (contains body (utf8 part))

abbrev pub reload_swaps_content_store : Test (Unit {0})
reload_swaps_content_store = do
  spawn_origin
  store_dir ← write_fixture
  set_clock (pos 0)
  spawn_gateway_with_store 1024 store_dir
  markdown_has (codes "Signed notes for readers and agents.")
  rewrite_fixture store_dir 2 (codes "Reloaded Notes") (codes "Fresh signed content after reload.")
      (codes "view-article-002")
  reload_response ← post_reload
  assert (reload_response.status == 200)
  assert (
      body_is reload_response
        (codes "{\"status\":\"reloaded\",\"views\":1,\"manifest_sequence\":2}"))
  markdown_has (codes "Fresh signed content after reload.")
  shutdown

abbrev pub reload_invalid_store_keeps_current_content : Test (Unit {0})
reload_invalid_store_keeps_current_content = do
  spawn_origin
  store_dir ← write_fixture
  set_clock (pos 0)
  spawn_gateway_with_store 1024 store_dir
  write_file_at (join_path store_dir (codes "manifest.json")) (codes "{}")
  reload_response ← post_reload
  assert (reload_response.status == 409)
  assert (header_is reload_response content_type (codes "application/problem+json"))
  assert (body_contains reload_response (codes "prepared manifest required field missing"))
  markdown_has (codes "Signed notes for readers and agents.")
  shutdown

abbrev pub reload_rejects_lower_manifest_sequence : Test (Unit {0})
reload_rejects_lower_manifest_sequence = do
  spawn_origin
  store_dir ← write_fixture
  rewrite_fixture store_dir 2 (codes "Reloaded Notes") (codes "Sequence two content.")
      (codes "view-article-002")
  set_clock (pos 0)
  spawn_gateway_with_store 1024 store_dir
  rewrite_fixture store_dir 1 (codes "Rollback Notes") (codes "Rollback content must not serve.")
      (codes "view-article-001")
  reload_response ← post_reload
  assert (reload_response.status == 409)
  assert (
      body_contains reload_response
        (codes "prepared manifest sequence is lower than the currently served sequence"))
  markdown_has (codes "Sequence two content.")
  shutdown

abbrev pub reload_metrics_counters_increment : Test (Unit {0})
reload_metrics_counters_increment = do
  spawn_origin
  store_dir ← write_fixture
  set_clock (pos 0)
  spawn_gateway_with_store 1024 store_dir
  rewrite_fixture store_dir 2 (codes "Reloaded Notes") (codes "Metrics success content.")
      (codes "view-article-002")
  success ← post_reload
  assert (success.status == 200)
  write_file_at (join_path store_dir (codes "manifest.json")) (codes "{}")
  failure ← post_reload
  assert (failure.status == 409)
  metrics_request ← build_request (codes "GET") (admin_uri (codes "/metrics")) [] []
  metrics_response ← request_admin metrics_request
  assert (body_contains metrics_response (codes "store_reloads_total 1"))
  assert (body_contains metrics_response (codes "store_reload_failures_total 1"))
  shutdown
