-- ===== src/Examples/Revalidation.antt =====
-- A client of the gateway of `Serving` that has seen the manifest of the site of `Site`.
use ajar_gateway.Common.{◌≡◌, ◌≢◌, ◌↔◌, refl, Some, none, [], ◌∷◌, length, arith, true}
use ajar_gateway.Text.{Text, codes, text_eq}
use ajar_gateway.Store.Model.{Bytes}
use ajar_gateway.Store.Etag.{strong_etag}
use ajar_gateway.Store.Load.Prepared.{load_from_dir-IsPrepared}
use ajar_gateway.Serving.Headers.{if_none_match, if_none_match_matches, texts}
use ajar_gateway.Serving.Headers.Matching.{HasCandidate, if_none_match_matches_iff}
use ajar_gateway.Serving.Problem.{empty_response}
use ajar_gateway.Serving.Serve.{serve_manifest}
use ajar_gateway.Serving.Serve.Revalidation.{IsResent, serve_manifest_revalidated}
use ajar_gateway.Examples.Headers.{Headers, map_http}
use ajar_gateway.Examples.Site.{dir, site_fs, site_serde, site_store, today, site_loads}
use ajar_gateway.Examples.Serving.{state}

abbrev seen : Bytes
seen = 3 ∷ []

abbrev tag : Text
tag = strong_etag (codes "manifest") seen none

abbrev tagged : Headers
tagged = (codes "if-none-match", tag) ∷ []

tag_is_sent : map_http.get_all tagged if_none_match ≡ tag ∷ []
unfolding text_eq
tag_is_sent = refl

serve_manifest_revalidated_example :
    (seen ≡ seen
      → serve_manifest map_http state (site_store 3) tagged today
        ≡ (empty_response map_http 304, state))
    × (length seen ≢ length seen
        → IsResent map_http
            (site_store 3)
            state
            (serve_manifest map_http state (site_store 3) tagged today))
serve_manifest_revalidated_example =
    serve_manifest_revalidated map_http site_serde site_fs 3 dir today today state (site_store 3)
      tagged tag seen
      (load_from_dir-IsPrepared site_serde site_fs 3 dir today (site_store 3) site_loads)
      tag_is_sent refl (omega arith)

if_none_match_matches_iff_example :
    (if_none_match_matches map_http tagged tag ≡ true)
    ↔ Some (HasCandidate tag) (texts map_http (map_http.get_all tagged if_none_match))
if_none_match_matches_iff_example = if_none_match_matches_iff map_http tagged tag
