-- ===== src/Scenarios/Tests.antt =====
-- The tests of crates/serving/src/lib.rs pass on the model.
use ajar_gateway.Common.{◌≡◌, refl, true}
use ajar_gateway.Scenarios.Run.{passes}
use ajar_gateway.Scenarios.Passing.{
  negotiation_matrix, get_request_passes_through_status_headers_and_body, post_body_streams_through,
  hop_by_hop_headers_are_stripped, admin_healthz_and_metrics_respond,
  storeless_manifest_path_passes_through_to_origin,
  reload_without_store_config_returns_409_and_get_is_405, oversized_body_is_rejected,
}
use ajar_gateway.Scenarios.Prepared.{
  manifest_serves_200_304_and_html_proxy_link, view_json_serves_signature_etag_and_304,
  markdown_rendering_matches_golden, expired_manifest_returns_404_problem_after_startup,
}
use ajar_gateway.Scenarios.Reloading.{
  reload_swaps_content_store, reload_invalid_store_keeps_current_content,
  reload_rejects_lower_manifest_sequence, reload_metrics_counters_increment,
}

negotiation_matrix-passes : negotiation_matrix ≡ true
unfolding negotiation_matrix
negotiation_matrix-passes = refl

get_request_passes_through_status_headers_and_body-passes :
    passes get_request_passes_through_status_headers_and_body ≡ true
unfolding passes
get_request_passes_through_status_headers_and_body-passes = refl

post_body_streams_through-passes : passes post_body_streams_through ≡ true
unfolding passes
post_body_streams_through-passes = refl

hop_by_hop_headers_are_stripped-passes : passes hop_by_hop_headers_are_stripped ≡ true
unfolding passes
hop_by_hop_headers_are_stripped-passes = refl

admin_healthz_and_metrics_respond-passes : passes admin_healthz_and_metrics_respond ≡ true
unfolding passes
admin_healthz_and_metrics_respond-passes = refl

storeless_manifest_path_passes_through_to_origin-passes :
    passes storeless_manifest_path_passes_through_to_origin ≡ true
unfolding passes
storeless_manifest_path_passes_through_to_origin-passes = refl

reload_without_store_config_returns_409_and_get_is_405-passes :
    passes reload_without_store_config_returns_409_and_get_is_405 ≡ true
unfolding passes
reload_without_store_config_returns_409_and_get_is_405-passes = refl

oversized_body_is_rejected-passes : passes oversized_body_is_rejected ≡ true
unfolding passes
oversized_body_is_rejected-passes = refl

manifest_serves_200_304_and_html_proxy_link-passes :
    passes manifest_serves_200_304_and_html_proxy_link ≡ true
unfolding passes
manifest_serves_200_304_and_html_proxy_link-passes = refl

view_json_serves_signature_etag_and_304-passes :
    passes view_json_serves_signature_etag_and_304 ≡ true
unfolding passes
view_json_serves_signature_etag_and_304-passes = refl

markdown_rendering_matches_golden-passes : passes markdown_rendering_matches_golden ≡ true
unfolding passes
markdown_rendering_matches_golden-passes = refl

expired_manifest_returns_404_problem_after_startup-passes :
    passes expired_manifest_returns_404_problem_after_startup ≡ true
unfolding passes
expired_manifest_returns_404_problem_after_startup-passes = refl

reload_swaps_content_store-passes : passes reload_swaps_content_store ≡ true
unfolding passes
reload_swaps_content_store-passes = refl

reload_invalid_store_keeps_current_content-passes :
    passes reload_invalid_store_keeps_current_content ≡ true
unfolding passes
reload_invalid_store_keeps_current_content-passes = refl

reload_rejects_lower_manifest_sequence-passes : passes reload_rejects_lower_manifest_sequence ≡ true
unfolding passes
reload_rejects_lower_manifest_sequence-passes = refl

reload_metrics_counters_increment-passes : passes reload_metrics_counters_increment ≡ true
unfolding passes
reload_metrics_counters_increment-passes = refl
