-- ===== src/Serving/Proxy.antt =====
-- `proxy_request` of crates/serving/src/lib.rs. `exchange` is the client with its timeout: what
-- comes of a request to the origin.
pub mod Kept
pub mod Laws
pub mod Returned
pub mod Routes
pub mod Account
pub mod Answers
pub mod Offer
pub mod Contents
pub mod Published
pub mod Passed
pub mod Relayed
use ajar_gateway.Common.{
  ℕ, Bool, true, false, ◌&&◌, Option, none, some, if◌then◌else◌, Result, ok, err,
}
use ajar_gateway.Common.Int.{ℤ}
use ajar_gateway.Text.{Text, codes, text_eq}
use ajar_gateway.Store.Model.{StoredView}
use ajar_gateway.Store.Load.{PreparedContentStore, view_for_request_target}
use ajar_gateway.Serving.Http.{Http, Request, Response, Content, upstream}
use ajar_gateway.Serving.Headers.{
  link, combined_accept_header, is_html_content_type, strip_hop_by_hop_headers,
}
use ajar_gateway.Serving.Negotiate.{Representation, ajar_json, markdown, passthrough, negotiate}
use ajar_gateway.Serving.State.{
  Shared, ProxyState, increment_requests_total, increment_upstream_errors_total,
  increment_negotiation_passthrough_total,
}
use ajar_gateway.Serving.Problem.{
  ProxyHttpError, upstream_timeout, upstream_failed, store_state_unavailable,
}
use ajar_gateway.Serving.Serve.{
  serve_manifest, serve_view_index, serve_view_json, serve_view_markdown,
}
use ajar_gateway.Serving.Upstream.{request_target, build_upstream_request}

abbrev pub manifest_path : Text
manifest_path = codes "/.well-known/ajar.json"

abbrev pub ajar_manifest_link : Text
ajar_manifest_link = codes "</.well-known/ajar.json>; rel=\"ajar-manifest\""

pub data Exchange (H B : Type 0) : Type 0 where
  answered : (status : ℕ) → H → B → Exchange H B
  failed timed_out : Exchange H B

-- What a handler returns, with the state behind it.
abbrev pub Handled : Type 0 → Type 0 → Type 0 → Type 0 → Type 0
Handled H B Addr Value = Result ProxyHttpError (Response H B) × ProxyState Addr Value

abbrev pub is_some : {A : Type 0} → Option A → Bool
is_some none = false
is_some (some _) = true

module _ {Value : Type 0} where
  abbrev readable :
      Option (Shared Value) → Result ProxyHttpError (Option (PreparedContentStore Value))
  readable none = ok none
  readable (some shared) =
      if shared.poisoned then err store_state_unavailable else ok (some shared.current)

module _ {Addr Value : Type 0} where
  unfoldable pub current_store :
      ProxyState Addr Value → Result ProxyHttpError (Option (PreparedContentStore Value))
  current_store state = readable state.store

abbrev pub succeed :
    {H B Addr Value : Type 0} → Response H B × ProxyState Addr Value → Handled H B Addr Value
succeed (response, state) = (ok response, state)

module _ {H V U B : Type 0} (http : Http H V U B) {Value : Type 0} where
  -- The answer of the origin, on its way back.
  unfoldable pub returned : Option (PreparedContentStore Value) → ℕ → H → B → Response H B
  returned store status headers body =
      let stripped = strip_hop_by_hop_headers http headers in
      record {
        status = status;
        headers =
            (if is_some store && is_html_content_type http stripped
              then http.append stripped link (http.static_value ajar_manifest_link)
              else stripped);
        body = upstream body;
      }

module _ {H V U B : Type 0} (http : Http H V U B) {Addr Value : Type 0} where
  abbrev pub received :
      Option (PreparedContentStore Value)
      → ProxyState Addr Value
      → Exchange H B
      → Handled H B Addr Value
  received store state (answered status headers body) =
      (ok (returned http store status headers body), state)
  received store state failed = (err upstream_failed, increment_upstream_errors_total state)
  received store state timed_out = (err upstream_timeout, increment_upstream_errors_total state)

  abbrev pub sent :
      (Request H U B → Exchange H B)
      → Option (PreparedContentStore Value)
      → ProxyState Addr Value
      → Result ProxyHttpError (Request H U B)
      → Handled H B Addr Value
  sent exchange store state (err e) = (err e, state)
  sent exchange store state (ok upstream_request) = received store state (exchange upstream_request)

  -- The part of `proxy_request` that turns to the origin.
  unfoldable pub forward :
      (Request H U B → Exchange H B)
      → Option (PreparedContentStore Value)
      → ProxyState Addr Value
      → Request H U B
      → Handled H B Addr Value
  forward exchange store state request =
      sent exchange store state (build_upstream_request http state.config request)

  abbrev pub view_answer :
      (Request H U B → Exchange H B)
      → PreparedContentStore Value
      → StoredView
      → ProxyState Addr Value
      → Request H U B
      → ℤ
      → Representation
      → Handled H B Addr Value
  view_answer exchange store view state request now ajar_json =
      succeed (serve_view_json http state store view request.headers now)
  view_answer exchange store view state request now markdown =
      succeed (serve_view_markdown http state store view request.headers now)
  view_answer exchange store view state request now passthrough =
      forward exchange (some store) (increment_negotiation_passthrough_total state) request

  abbrev pub target_answer :
      (Request H U B → Exchange H B)
      → PreparedContentStore Value
      → ProxyState Addr Value
      → Request H U B
      → ℤ
      → Option StoredView
      → Handled H B Addr Value
  target_answer exchange store state request now none = forward exchange (some store) state request
  target_answer exchange store state request now (some view) =
      view_answer exchange store view state request now
        (negotiate (combined_accept_header http request.headers) true)

  -- The part of `proxy_request` that answers a GET from the store.
  unfoldable pub from_store :
      (Request H U B → Exchange H B)
      → PreparedContentStore Value
      → ProxyState Addr Value
      → Request H U B
      → ℤ
      → Handled H B Addr Value
  from_store exchange store state request now =
      if text_eq (http.path request.uri) manifest_path
      then succeed (serve_manifest http state store request.headers now)
      else if text_eq (http.path request.uri) store.manifest.views_index
      then succeed (serve_view_index http state store request.headers now)
      else target_answer exchange store state request now
          (view_for_request_target store (request_target http request.uri))

  abbrev pub with_store :
      (Request H U B → Exchange H B)
      → ProxyState Addr Value
      → Request H U B
      → ℤ
      → Result ProxyHttpError (Option (PreparedContentStore Value))
      → Handled H B Addr Value
  with_store exchange state request now (err e) = (err e, state)
  with_store exchange state request now (ok none) = forward exchange none state request
  with_store exchange state request now (ok (some store)) =
      if text_eq request.method (codes "GET")
      then from_store exchange store state request now
      else forward exchange (some store) state request

  unfoldable pub proxy_request :
      (Request H U B → Exchange H B)
      → ProxyState Addr Value
      → Request H U B
      → ℤ
      → Handled H B Addr Value
  proxy_request exchange state request now =
      let counted = increment_requests_total state in
      with_store exchange counted request now (current_store counted)
