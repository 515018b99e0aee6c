-- ===== src/Serving/Proxy/Answers.antt =====
-- The metrics against the answers of `proxy_request` in crates/serving/src/lib.rs: what is counted
-- is what is answered.
use ajar_gateway.Common.{
  ◌≡◌, refl, sym, subst, Bool, true, false, Option, none, some, Result, ok, err, if◌then◌else◌,
  if_lem,
}
use ajar_gateway.Common.Int.{ℤ}
use ajar_gateway.Text.{utf8}
use ajar_gateway.Store.Model.{Bytes}
use ajar_gateway.Store.Load.{PreparedContentStore}
use ajar_gateway.Serving.Http.{Http, Request, Response, bytes}
use ajar_gateway.Serving.State.{
  Shared, ProxyState, log_manifest_expired_once, increment_requests_total,
  increment_views_served_total, increment_manifest_served_total,
  increment_negotiation_passthrough_total,
}
use ajar_gateway.Serving.Problem.{
  ProxyHttpError, store_state_unavailable, problem_response, empty_response,
}
use ajar_gateway.Serving.Upstream.{build_upstream_request}
use ajar_gateway.Serving.Upstream.Errors.{IsLocal, build_upstream_request-IsLocal}
use ajar_gateway.Serving.Serve.{expired_response, render_markdown}
use ajar_gateway.Serving.Serve.Cases.{
  Stored, expired, cached, fresh, serve_manifest-Stored, serve_view_index-Stored,
  serve_view_json-Stored, serve_view_markdown-Stored,
}
use ajar_gateway.Serving.Proxy.{
  Exchange, answered, failed, timed_out, Handled, succeed, received, sent, forward, returned,
  readable, current_store, proxy_request,
}
use ajar_gateway.Serving.Proxy.Routes.{
  Routed, unreadable, to_origin, passed_on, manifest, index, json_view, markdown_view,
  with_store-Routed,
}
use ajar_gateway.Serving.Proxy.Account.{
  nothing_served, manifest_served, view_served, IsAccounted, kept, IsAccounted-passed,
  IsAccounted-requested,
}

module _ {H V U B : Type 0} (http : Http H V U B) {Addr Value : Type 0} where
  abbrev Accounted : ProxyState Addr Value → Handled H B Addr Value → Type 0
  Accounted state (answer, after) = IsAccounted state.metrics after.metrics answer

  received-Accounted :
      (state : ProxyState Addr Value) (store : Option (PreparedContentStore Value))
      (reply : Exchange H B)
      → Accounted state (received http store state reply)
  unfolding returned
  received-Accounted state store (answered status headers body) =
      kept state.metrics state.metrics _ refl refl refl refl refl refl refl
  received-Accounted state store failed = record {
    served = nothing_served refl refl refl;
    upstream_errors = refl;
    reloads_kept = refl;
    failures_kept = refl;
  }
  received-Accounted state store timed_out = record {
    served = nothing_served refl refl refl;
    upstream_errors = refl;
    reloads_kept = refl;
    failures_kept = refl;
  }

  sent-Accounted :
      (exchange : Request H U B → Exchange H B) (state : ProxyState Addr Value)
      (store : Option (PreparedContentStore Value)) (r : Result ProxyHttpError (Request H U B))
      → IsLocal r
      → Accounted state (sent http exchange store state r)
  sent-Accounted exchange state store (err e) h =
      kept state.metrics state.metrics (err e) refl h refl refl refl refl refl
  sent-Accounted exchange state store (ok request) h =
      received-Accounted state store (exchange request)

  forward-Accounted :
      (exchange : Request H U B → Exchange H B) (state : ProxyState Addr Value)
      (store : Option (PreparedContentStore Value)) (request : Request H U B)
      → Accounted state (forward http exchange store state request)
  unfolding forward
  forward-Accounted exchange state store request =
      sent-Accounted exchange state store (build_upstream_request http state.config request)
        (build_upstream_request-IsLocal http state.config request)

  log_once-metrics :
      (state : ProxyState Addr Value) → (log_manifest_expired_once state).metrics ≡ state.metrics
  unfolding log_manifest_expired_once
  log_once-metrics state =
      if_lem (λ (after : ProxyState Addr Value). after.metrics ≡ state.metrics)
        state.manifest_expiry_logged _ _ (λ _. refl) (λ _. refl)

  expired-Accounted :
      (state : ProxyState Addr Value)
      → Accounted state (ok (expired_response http), log_manifest_expired_once state)
  unfolding problem_response
  expired-Accounted state = rw (log_once-metrics state) (
      kept state.metrics state.metrics (ok (expired_response http)) refl refl refl refl refl refl
        refl)

  Stored-Accounted :
      (store : PreparedContentStore Value) (now : ℤ) (state counted : ProxyState Addr Value)
      (content : Bytes) (matched : Bool) (answer : Response H B × ProxyState Addr Value)
      → ((response : Response H B)
          → response.body ≡ bytes content
          → IsAccounted state.metrics counted.metrics (ok response))
      → Stored http store now state counted content matched answer
      → Accounted state (succeed answer)
  Stored-Accounted store now state counted content matched answer sent (expired late e) =
      subst (λ (a : Response H B × ProxyState Addr Value). Accounted state (succeed a)) (sym e)
        (expired-Accounted state)
  Stored-Accounted store now state counted content matched answer sent (cached _ _ e) =
      subst (λ (a : Response H B × ProxyState Addr Value). Accounted state (succeed a)) (sym e)
        (kept state.metrics state.metrics (ok (empty_response http 304)) refl refl refl refl refl
          refl refl)
  Stored-Accounted store now state counted content matched answer sent (fresh _ _ _ body after) =
      subst (λ (s : ProxyState Addr Value). IsAccounted state.metrics s.metrics (ok answer.0))
        (sym after) (sent answer.0 body)

  manifest_sent :
      (state : ProxyState Addr Value) (content : Bytes) (response : Response H B)
      → response.body ≡ bytes content
      → IsAccounted state.metrics (increment_manifest_served_total state).metrics (ok response)
  manifest_sent state content response body = record {
    served = manifest_served (rw body) refl refl;
    upstream_errors = refl;
    reloads_kept = refl;
    failures_kept = refl;
  }

  view_sent :
      (state : ProxyState Addr Value) (content : Bytes) (response : Response H B)
      → response.body ≡ bytes content
      → IsAccounted state.metrics (increment_views_served_total state).metrics (ok response)
  view_sent state content response body = record {
    served = view_served (rw body) refl refl;
    upstream_errors = refl;
    reloads_kept = refl;
    failures_kept = refl;
  }

module _ {H V U B : Type 0} (http : Http H V U B) {Addr Value : Type 0}
    (exchange : Request H U B → Exchange H B) where
  Routed-Accounted :
      (state : ProxyState Addr Value) (request : Request H U B) (now : ℤ)
      (snapshot : Result ProxyHttpError (Option (PreparedContentStore Value)))
      (answer : Handled H B Addr Value)
      → IsLocal snapshot
      → Routed http exchange state request now snapshot answer
      → Accounted http state answer
  Routed-Accounted state request now snapshot answer readable (unreadable e is_err e_answer) =
      subst (Accounted http state) (sym e_answer) (
        kept state.metrics state.metrics (err e) refl (subst IsLocal is_err readable) refl refl refl
          refl refl)
  Routed-Accounted state request now snapshot answer _ (to_origin store _ e) =
      subst (Accounted http state) (sym e) (forward-Accounted http exchange state store request)
  Routed-Accounted state request now snapshot answer _ (passed_on store view _ _ _ e) =
      subst (Accounted http state) (sym e) (
        IsAccounted-passed state.metrics _ _ _ (
          forward-Accounted http exchange (increment_negotiation_passthrough_total state)
            (some store) request))
  Routed-Accounted state request now snapshot answer _ (manifest store _ _ _ e) =
      subst (Accounted http state) (sym e) (
        Stored-Accounted http store now state _ store.manifest.bytes _ _
          (manifest_sent http state store.manifest.bytes)
          (serve_manifest-Stored http state store request.headers now))
  Routed-Accounted state request now snapshot answer _ (index store _ _ _ e) =
      subst (Accounted http state) (sym e) (
        Stored-Accounted http store now state _ store.view_index.bytes _ _
          (view_sent http state store.view_index.bytes)
          (serve_view_index-Stored http state store request.headers now))
  Routed-Accounted state request now snapshot answer _ (json_view store view _ _ _ e) =
      subst (Accounted http state) (sym e) (
        Stored-Accounted http store now state _ view.bytes _ _ (view_sent http state view.bytes)
          (serve_view_json-Stored http state store view request.headers now))
  Routed-Accounted state request now snapshot answer _ (markdown_view store view _ _ _ e) =
      subst (Accounted http state) (sym e) (
        Stored-Accounted http store now state _ (utf8 (render_markdown view)) _ _
          (view_sent http state (utf8 (render_markdown view)))
          (serve_view_markdown-Stored http state store view request.headers now))

  current_store-IsLocal : (state : ProxyState Addr Value) → IsLocal (current_store state)
  unfolding current_store
  current_store-IsLocal state = readable-IsLocal state.store
    where
      by_lock :
          (b : Bool) (shared : Shared Value)
          → IsLocal (if b then err store_state_unavailable else ok (some shared.current))
      by_lock true shared = refl
      by_lock false shared = tt

      readable-IsLocal : (o : Option (Shared Value)) → IsLocal (readable o)
      readable-IsLocal none = tt
      readable-IsLocal (some shared) = by_lock shared.poisoned shared

  -- The metrics tell what was answered. Content of the store is counted once, as the manifest or as
  -- a View, and nothing else is; an error of the exchange with the origin is counted once, and
  -- nothing else is; the counts of reloads are kept.
  pub proxy_request-IsAccounted :
      (state : ProxyState Addr Value) (request : Request H U B) (now : ℤ)
      → IsAccounted state.metrics
          (proxy_request http exchange state request now).1.metrics
          (proxy_request http exchange state request now).0
  unfolding proxy_request
  proxy_request-IsAccounted state request now =
      let counted = increment_requests_total state in
      IsAccounted-requested state.metrics _ _ _ (
        Routed-Accounted counted request now (current_store counted) _
          (current_store-IsLocal counted)
          (with_store-Routed http exchange counted request now (current_store counted)))
