-- ===== src/Serving/Proxy/Relayed.antt =====
-- The answer of the origin, from crates/serving/src/lib.rs, to a request that the store does not
-- answer.
use ajar_gateway.Common.{ℕ, ◌≡◌, ◌≢◌, refl, ap, ◌∙◌, ◌&&◌, Option, [], ◌++◌, if◌then◌else◌, ok}
use ajar_gateway.Common.Int.{ℤ}
use ajar_gateway.Text.{Text}
use ajar_gateway.Store.Load.{PreparedContentStore}
use ajar_gateway.Serving.Http.{Http, HeaderLaws, Request, Response, upstream}
use ajar_gateway.Serving.Headers.{link, is_html_content_type, strip_hop_by_hop_headers}
use ajar_gateway.Serving.Headers.Laws.{is_hop_by_hop}
use ajar_gateway.Serving.State.{ProxyState, increment_requests_total}
use ajar_gateway.Serving.Upstream.{build_upstream_request}
use ajar_gateway.Serving.Upstream.Laws.{IsForwarded, build_upstream_request_iff}
use ajar_gateway.Serving.Proxy.{
  Exchange, answered, Handled, is_some, current_store, returned, forward, proxy_request,
}
use ajar_gateway.Serving.Proxy.Passed.{IsLeft, IsNoted, IsNoted-config, with_store-IsTurned}
use ajar_gateway.Serving.Proxy.Returned.{added, returned-get_all}

module _ {H V U B : Type 0} (http : Http H V U B) (laws : HeaderLaws http) {Value : Type 0} where
  -- `response` is the answer of the origin, with its status, its body and its end-to-end headers;
  -- only a link to the manifest is added.
  pub record IsPassedOn (store : Option (PreparedContentStore Value)) (status : ℕ) (headers : H)
      (body : B) (response : Response H B) : Type 0 where
    pub status_kept : response.status ≡ status
    pub body_kept : response.body ≡ upstream body
    pub headers_kept :
        (m : Text)
        → link ≢ m
        → http.get_all response.headers m
          ≡ (if is_hop_by_hop http headers m then [] else http.get_all headers m)
    pub links :
        http.get_all response.headers link
        ≡ (if is_hop_by_hop http headers link then [] else http.get_all headers link)
          ++ added http laws
              (is_some store && is_html_content_type http (strip_hop_by_hop_headers http headers))

  returned-IsPassedOn :
      (store : Option (PreparedContentStore Value)) (status : ℕ) (headers : H) (body : B)
      → IsPassedOn store status headers body (returned http store status headers body)
  unfolding returned
  returned-IsPassedOn store status headers body =
      let given = returned-get_all http laws store status headers body in
      record { status_kept = refl; body_kept = refl; headers_kept = given.1; links = given.0 }

module _ {H V U B : Type 0} (http : Http H V U B) (laws : HeaderLaws http) {Addr Value : Type 0}
    (exchange : Request H U B → Exchange H B) where
  -- The answer and the state behind it.
  pub record IsRelayed (store : Option (PreparedContentStore Value)) (status : ℕ) (headers : H)
      (body : B) (before : ProxyState Addr Value) (answer : Handled H B Addr Value) : Type 0 where
    pub response : Response H B
    pub is_ok : answer.0 ≡ ok response
    pub passed_on : IsPassedOn http laws store status headers body response
    pub noted_only : IsNoted (increment_requests_total before) answer.1

  forward-IsRelayed :
      (store : Option (PreparedContentStore Value)) (request sent_on : Request H U B) (status : ℕ)
      (headers : H) (body : B) (state after : ProxyState Addr Value)
      → build_upstream_request http after.config request ≡ ok sent_on
      → exchange sent_on ≡ answered status headers body
      → IsNoted (increment_requests_total state) after
      → IsRelayed store status headers body state (forward http exchange store after request)
  unfolding forward
  forward-IsRelayed store request sent_on status headers body state after built answer noted_only =
      rw (built, answer)
        (record {
          response = returned http store status headers body;
          is_ok = refl;
          passed_on = returned-IsPassedOn http laws store status headers body;
          noted_only = noted_only;
        })

  -- What the store does not answer, the origin does: a request that is no GET, or to which the
  -- store has no View, or that asks for no representation of its View, or that meets no store, is
  -- sent on within the limits of `build_upstream_request`, and where the origin answers in time the
  -- client gets its status, its body and its end-to-end headers, with a link to the manifest behind
  -- its links if there is a store and the answer is HTML. The state keeps all but the counters of
  -- requests and of passed negotiations.
  pub proxy_request-IsRelayed :
      (store : Option (PreparedContentStore Value)) (request sent_on : Request H U B) (status : ℕ)
      (headers : H) (body : B) (state : ProxyState Addr Value) (now : ℤ)
      → current_store state ≡ ok store
      → IsLeft http store request
      → IsForwarded http state.config request sent_on
      → exchange sent_on ≡ answered status headers body
      → IsRelayed store status headers body state (proxy_request http exchange state request now)
  unfolding proxy_request current_store
  proxy_request-IsRelayed store request sent_on status headers body state now read left within
        answer =
      let counted = increment_requests_total state in
      let turned = with_store-IsTurned http exchange store request counted now left in
      let built =
        ap (λ config. build_upstream_request http config request)
          (IsNoted-config counted turned.after turned.after_noted)
        ∙ (build_upstream_request_iff http state.config request sent_on).1 within in
      rw (read, turned.answer_is)
        (forward-IsRelayed store request sent_on status headers body state turned.after built answer
          turned.after_noted)
