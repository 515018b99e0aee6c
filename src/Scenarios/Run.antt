-- ===== src/Scenarios/Run.antt =====
-- Running a test of crates/serving/src/lib.rs: all that the gateway and the client do computes.
use ajar_gateway.Common.{Bool, none, []}
use ajar_gateway.Common.Int.{pos}
use ajar_gateway.Serving.Proxy.{is_some}
use ajar_gateway.Scenarios.Gateway.{World, Test}
use ajar_gateway.Common.Map.{lookup, insert}
use ajar_gateway.Scenarios.Client.{request_public, request_admin, contains, escaped}
use ajar_gateway.Scenarios.Disk.{plain, file_at, put_file, names_in}
use ajar_gateway.Scenarios.Fixture.{replace_from}
use ajar_gateway.Scenarios.Gateway.{spawn}
use ajar_gateway.Scenarios.Json.{parse_json, lex, parse_value}
use ajar_gateway.Scenarios.Origin.{origin}
use ajar_gateway.Scenarios.Wire.{parse_uri}
use ajar_gateway.Serving.Config.{validate}
use ajar_gateway.Serving.Headers.{
  texts, combined_accept_header, if_none_match_matches, is_html_content_type, token_names,
  connection_names, hop_by_hop_names, proxy_names, remove_all, strip_hop_by_hop_headers,
}
use ajar_gateway.Serving.Negotiate.{negotiate}
use ajar_gateway.Serving.Problem.{problem_response, error_response}
use ajar_gateway.Serving.Proxy.{current_store, returned, forward, from_store, proxy_request}
use ajar_gateway.Serving.Reload.{
  reload_failed, try_swap, commit, reload_store, metrics_endpoint, healthz,
}
use ajar_gateway.Serving.Serve.{
  render_markdown, serve_manifest, serve_view_index, serve_view_json, serve_view_markdown,
}
use ajar_gateway.Serving.Start.Routers.{proxy_router}
use ajar_gateway.Serving.State.{render, log_manifest_expired_once}
use ajar_gateway.Serving.Upstream.{request_target, declared_content_length, build_upstream_request}
use ajar_gateway.Store.Backend.{path_for, read_file}
use ajar_gateway.Store.Etag.{strong_etag}
use ajar_gateway.Store.FilePath.{join_path, components, file_name, parent, extension, sort_paths}
use ajar_gateway.Store.Load.{
  view_for_request_target, read_artifact, json_entries, json_files, add_view, load_view, load_views,
  load_from_dir,
}
use ajar_gateway.Store.Target.{request_target_from_view_url}
use ajar_gateway.Store.Time.{parse_rfc3339_utc}
use ajar_gateway.Store.Validate.{
  validate_manifest_required_fields, validate_view_required_fields, require_fields,
  validate_manifest_lifecycle,
}
use ajar_gateway.Text.{
  text_eq, utf8, split, split_once, trim, trim_matches, to_ascii_lowercase, eq_ignore_ascii_case,
  strip_prefix, starts_with, from_first, join,
}
use ajar_gateway.Text.Decode.{to_str}
use ajar_gateway.Text.Number.{parse_u64, decimal}

abbrev new_world : World
new_world = record {
  disk = [];
  temp_counter = 0;
  clock = pos 0;
  origin_server = none;
  gateway = none;
}

-- The test ends without a failed assertion or an error.
unfoldable pub passes : Test (Unit {0}) → Bool
unfolding negotiate validate render_markdown serve_manifest serve_view_index serve_view_json
    serve_view_markdown texts combined_accept_header if_none_match_matches is_html_content_type
    token_names connection_names hop_by_hop_names proxy_names remove_all strip_hop_by_hop_headers
    render log_manifest_expired_once request_target declared_content_length build_upstream_request
    reload_failed try_swap commit reload_store metrics_endpoint healthz problem_response
    error_response current_store returned forward from_store proxy_request proxy_router strong_etag
    request_target_from_view_url validate_manifest_required_fields validate_view_required_fields
    require_fields validate_manifest_lifecycle path_for read_file view_for_request_target
    read_artifact json_entries json_files add_view load_view load_views load_from_dir
    parse_rfc3339_utc join_path components file_name parent extension sort_paths to_str parse_u64
    decimal text_eq utf8 split split_once trim trim_matches to_ascii_lowercase eq_ignore_ascii_case
    strip_prefix starts_with from_first join lookup insert parse_json lex plain file_at put_file
    names_in parse_uri origin spawn request_public request_admin contains escaped replace_from
    parse_value
passes test = is_some (test new_world)
