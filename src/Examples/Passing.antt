-- ===== src/Examples/Passing.antt =====
-- A page that the gateway of `Serving` leaves to the origin.
use ajar_gateway.Common.{◌≡◌, refl, some, ok}
use ajar_gateway.Common.Map.{lookup}
use ajar_gateway.Text.{text_eq}
use ajar_gateway.Store.Load.{view_for_request_target}
use ajar_gateway.Serving.Upstream.{request_target}
use ajar_gateway.Serving.Upstream.Laws.{build_upstream_request_iff}
use ajar_gateway.Serving.Proxy.{current_store, proxy_request}
use ajar_gateway.Serving.Proxy.Passed.{IsLeft, no_view}
use ajar_gateway.Serving.Proxy.Relayed.{IsRelayed, proxy_request-IsRelayed}
use ajar_gateway.Examples.Headers.{map_http, map_http_laws}
use ajar_gateway.Examples.Site.{site_store, today}
use ajar_gateway.Examples.Serving.{
  state, valid, headers, get_page, origin, upstream_page, page_is_sent,
}

has_store : current_store state ≡ ok (some (site_store 3))
unfolding current_store
has_store = refl

get_page-IsLeft : IsLeft map_http (some (site_store 3)) get_page
unfolding view_for_request_target request_target text_eq lookup
get_page-IsLeft =
    no_view (site_store 3) refl
      (record { no_manifest = λ h. absurd (cc); no_index = λ h. absurd (cc) }) refl

proxy_request-IsRelayed_example :
    IsRelayed map_http map_http_laws origin
      (some (site_store 3))
      200
      headers
      5
      state
      (proxy_request map_http origin state get_page today)
proxy_request-IsRelayed_example =
    proxy_request-IsRelayed map_http map_http_laws origin (some (site_store 3)) get_page
      upstream_page 200 headers 5 state today has_store get_page-IsLeft
      ((build_upstream_request_iff map_http valid get_page upstream_page).0 page_is_sent) refl
