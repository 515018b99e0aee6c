-- ===== src/Serving/Proxy/Laws.antt =====
-- What a request leaves behind in the state of crates/serving/src/lib.rs: every path through
-- `proxy_request` keeps the store and the configuration, counts the request, and logs at most that
-- the manifest has expired.
use ajar_gateway.Common.{refl, Option, none, some, Result, ok, err, if_lem}
use ajar_gateway.Common.Int.{ℤ}
use ajar_gateway.Text.{codes, text_eq}
use ajar_gateway.Store.Model.{StoredView}
use ajar_gateway.Store.Load.{PreparedContentStore}
use ajar_gateway.Serving.Http.{Http, Request}
use ajar_gateway.Serving.Negotiate.{Representation, ajar_json, markdown, passthrough}
use ajar_gateway.Serving.State.{
  ProxyState, increment_requests_total, increment_negotiation_passthrough_total,
}
use ajar_gateway.Serving.Problem.{ProxyHttpError}
use ajar_gateway.Serving.Proxy.{
  Exchange, Handled, sent, manifest_path, forward, view_answer, target_answer, from_store,
  with_store, current_store, proxy_request,
}
use ajar_gateway.Serving.Proxy.Kept.{
  SameLog, IsKept, IsCounted, same, metered, serve_manifest-IsKept, serve_view_index-IsKept,
  serve_view_json-IsKept, serve_view_markdown-IsKept, received-IsKept,
}

module _ {H V U B : Type 0} (http : Http H V U B) {Addr Value : Type 0}
    (exchange : Request H U B → Exchange H B) where
  sent-IsKept :
      (before state : ProxyState Addr Value) (store : Option (PreparedContentStore Value))
      (r : Result ProxyHttpError (Request H U B))
      → IsKept before state
      → IsKept before (sent http exchange store state r).1
  sent-IsKept before state store (err e) kept = kept
  sent-IsKept before state store (ok upstream_request) kept =
      received-IsKept http before state store (exchange upstream_request) kept

  forward-IsKept :
      (before state : ProxyState Addr Value) (store : Option (PreparedContentStore Value))
      (request : Request H U B)
      → IsKept before state
      → IsKept before (forward http exchange store state request).1
  unfolding forward
  forward-IsKept before state store request kept = sent-IsKept before state store _ kept

  view_answer-IsKept :
      (store : PreparedContentStore Value) (view : StoredView) (state : ProxyState Addr Value)
      (request : Request H U B) (now : ℤ) (chosen : Representation)
      → IsKept state (view_answer http exchange store view state request now chosen).1
  view_answer-IsKept store view state request now ajar_json =
      serve_view_json-IsKept http state store view request.headers now
  view_answer-IsKept store view state request now markdown =
      serve_view_markdown-IsKept http state store view request.headers now
  view_answer-IsKept store view state request now passthrough =
      forward-IsKept state (increment_negotiation_passthrough_total state) (some store) request
        (metered state state _ (same state) refl refl)

  target_answer-IsKept :
      (store : PreparedContentStore Value) (state : ProxyState Addr Value) (request : Request H U B)
      (now : ℤ) (view : Option StoredView)
      → IsKept state (target_answer http exchange store state request now view).1
  target_answer-IsKept store state request now none =
      forward-IsKept state state (some store) request (same state)
  target_answer-IsKept store state request now (some view) =
      view_answer-IsKept store view state request now _

  from_store-IsKept :
      (store : PreparedContentStore Value) (state : ProxyState Addr Value) (request : Request H U B)
      (now : ℤ)
      → IsKept state (from_store http exchange store state request now).1
  unfolding from_store
  from_store-IsKept store state request now =
      if_lem (λ (a : Handled H B Addr Value). IsKept state a.1)
        (text_eq (http.path request.uri) manifest_path) _ _
        (λ _. serve_manifest-IsKept http state store request.headers now)
        (λ _.
          if_lem (λ (a : Handled H B Addr Value). IsKept state a.1)
            (text_eq (http.path request.uri) store.manifest.views_index) _ _
            (λ _. serve_view_index-IsKept http state store request.headers now)
            (λ _. target_answer-IsKept store state request now _))

  pub with_store-IsKept :
      (state : ProxyState Addr Value) (request : Request H U B) (now : ℤ)
      (r : Result ProxyHttpError (Option (PreparedContentStore Value)))
      → IsKept state (with_store http exchange state request now r).1
  with_store-IsKept state request now (err e) = same state
  with_store-IsKept state request now (ok none) =
      forward-IsKept state state none request (same state)
  with_store-IsKept state request now (ok (some store)) =
      if_lem (λ (a : Handled H B Addr Value). IsKept state a.1)
        (text_eq request.method (codes "GET")) _ _ (λ _. from_store-IsKept store state request now)
        (λ _. forward-IsKept state state (some store) request (same state))

  -- Every request, whatever its answer or its error, raises `requests_total` by one and keeps the
  -- store, the configuration and the count of reloads. It logs nothing, or it logs the expiry of the
  -- manifest where the flag was clear, and sets the flag.
  pub proxy_request-IsCounted :
      (state : ProxyState Addr Value) (request : Request H U B) (now : ℤ)
      → IsCounted state (proxy_request http exchange state request now).1
  unfolding proxy_request SameLog
  proxy_request-IsCounted state request now =
      let counted = increment_requests_total state in
      let kept = with_store-IsKept counted request now (current_store counted) in
      record {
        store_kept = kept.store_kept;
        config_kept = kept.config_kept;
        counted = kept.requests_kept;
        reloads_kept = kept.reloads_kept;
        log_kept = kept.log_kept;
      }
