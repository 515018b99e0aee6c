-- ===== src/Serving/Proxy/Contents.antt =====
-- Where the content of an answer comes from, and that a View of a file is served, in
-- crates/serving/src/lib.rs.
use ajar_gateway.Common.{◌≡◌, ◌∙◌, sym, ap, subst, false, Option, some, Result, ok}
use ajar_gateway.Common.Int.{ℤ}
use ajar_gateway.Text.{utf8}
use ajar_gateway.Store.Model.{Bytes}
use ajar_gateway.Store.Load.{PreparedContentStore}
use ajar_gateway.Serving.Http.{Http, Request, Response, bytes}
use ajar_gateway.Serving.State.{
  Shared, ProxyState, increment_requests_total, increment_negotiation_passthrough_total,
}
use ajar_gateway.Serving.Problem.{ProxyHttpError}
use ajar_gateway.Serving.Serve.{render_markdown}
use ajar_gateway.Serving.Serve.Cases.{
  serve_manifest-Stored, serve_view_index-Stored, serve_view_json-Stored,
  serve_view_markdown-Stored,
}
use ajar_gateway.Serving.Proxy.{Exchange, Handled, forward, current_store, proxy_request}
use ajar_gateway.Serving.Proxy.Routes.{
  Routed, unreadable, to_origin, passed_on, manifest, index, json_view, markdown_view,
  with_store-Routed,
}
use ajar_gateway.Serving.Proxy.Offer.{
  for_manifest, for_index, for_view, for_markdown, IsOffered, current-IsUsable, forward-IsBare,
  given-IsOffered,
}

module _ {H V U B : Type 0} (http : Http H V U B) {Addr Value : Type 0}
    (exchange : Request H U B → Exchange H B) where
  bare :
      (state : ProxyState Addr Value) (store : Option (PreparedContentStore Value))
      (request : Request H U B) (answer : Handled H B Addr Value) (response : Response H B)
      (content : Bytes)
      → answer ≡ forward http exchange store state request
      → answer.0 ≡ ok response
      → response.body ≡ bytes content
      → ⊥
  bare state store request answer response content e h k =
      forward-IsBare http exchange state store request response content
        (ap (λ (a : Handled H B Addr Value). a.0) (sym e) ∙ h) k

  pub Routed-IsOffered :
      (state : ProxyState Addr Value) (request : Request H U B) (now : ℤ)
      (snapshot : Result ProxyHttpError (Option (PreparedContentStore Value)))
      (answer : Handled H B Addr Value) (response : Response H B) (content : Bytes)
      → Routed http exchange state request now snapshot answer
      → answer.0 ≡ ok response
      → response.body ≡ bytes content
      → (store : PreparedContentStore Value) × (snapshot ≡ ok (some store))
        × IsOffered http store request now content
  Routed-IsOffered state request now snapshot answer response content (unreadable e _ is_err) h k =
      absurd (cc (ap (λ (a : Handled H B Addr Value). a.0) is_err))
  Routed-IsOffered state request now snapshot answer response content (to_origin store _ e) h k =
      absurd (bare state store request answer response content e h k)
  Routed-IsOffered state request now snapshot answer response content (passed_on store view _ _ _ e)
        h k =
      absurd (
        bare (increment_negotiation_passthrough_total state) (some store) request answer response
          content e h k)
  Routed-IsOffered state request now snapshot answer response content
        (manifest store is_ok get path e) h k =
      (
        store,
        is_ok,
        given-IsOffered http state request now store _ store.manifest.bytes content _ _ answer
            response get e (serve_manifest-Stored http state store request.headers now)
            (for_manifest path) h k,
      )
  Routed-IsOffered state request now snapshot answer response content (index store is_ok get path e)
        h k =
      (
        store,
        is_ok,
        given-IsOffered http state request now store _ store.view_index.bytes content _ _ answer
            response get e (serve_view_index-Stored http state store request.headers now)
            (for_index path) h k,
      )
  Routed-IsOffered state request now snapshot answer response content
        (json_view store view is_ok get has e) h k =
      (
        store,
        is_ok,
        given-IsOffered http state request now store _ view.bytes content _ _ answer response get e
            (serve_view_json-Stored http state store view request.headers now) (for_view view has) h
            k,
      )
  Routed-IsOffered state request now snapshot answer response content
        (markdown_view store view is_ok get has e) h k =
      (
        store,
        is_ok,
        given-IsOffered http state request now store _ (utf8 (render_markdown view)) content _ _
            answer response get e
            (serve_view_markdown-Stored http state store view request.headers now)
            (for_markdown view has) h k,
      )

  -- Nothing but prepared content leaves the store, and nothing late: an answer with content answers
  -- a GET, before the manifest of the store that is served expires, and its bytes are those of the
  -- manifest, of the index, of the View that the request names, or of its markdown, as the path and
  -- the Accept header ask.
  pub proxy_request-IsOffered :
      (state : ProxyState Addr Value) (request : Request H U B) (now : ℤ) (response : Response H B)
      (content : Bytes)
      → (proxy_request http exchange state request now).0 ≡ ok response
      → response.body ≡ bytes content
      → (shared : Shared Value) × (state.store ≡ some shared)
        × (shared.poisoned ≡ false)
        × IsOffered http shared.current request now content
  unfolding proxy_request
  proxy_request-IsOffered state request now response content h k =
      let counted = increment_requests_total state in
      let (store, is_current, offered) =
        Routed-IsOffered counted request now (current_store counted) _ response content
          (with_store-Routed http exchange counted request now (current_store counted)) h k in
      let (shared, store_is, usable, current) = current-IsUsable counted store is_current in
      (
        shared,
        store_is,
        usable,
        subst (λ (s : PreparedContentStore Value). IsOffered http s request now content)
            (sym current) offered,
      )
