-- ===== src/Serving/Proxy/Routes.antt =====
-- Which handler answers a request, in crates/serving/src/lib.rs: the ways through `proxy_request`
-- once the store is read.
use ajar_gateway.Common.{◌≡◌, refl, true, Option, none, some, Result, ok, err, Bool-cases, inl, inr}
use ajar_gateway.Common.Int.{ℤ}
use ajar_gateway.Text.{codes, text_eq}
use ajar_gateway.Text.Laws.{text_eq_iff}
use ajar_gateway.Store.Model.{StoredView}
use ajar_gateway.Store.Load.{PreparedContentStore, view_for_request_target}
use ajar_gateway.Serving.Http.{Http, Request}
use ajar_gateway.Serving.Headers.{combined_accept_header}
use ajar_gateway.Serving.Negotiate.{Representation, ajar_json, markdown, passthrough, negotiate}
use ajar_gateway.Serving.State.{ProxyState, increment_negotiation_passthrough_total}
use ajar_gateway.Serving.Problem.{ProxyHttpError}
use ajar_gateway.Serving.Serve.{
  serve_manifest, serve_view_index, serve_view_json, serve_view_markdown,
}
use ajar_gateway.Serving.Upstream.{request_target}
use ajar_gateway.Serving.Proxy.{
  Exchange, Handled, manifest_path, succeed, forward, view_answer, target_answer, from_store,
  with_store,
}

module _ {H V U B : Type 0} (http : Http H V U B) {Value : Type 0} where
  -- The View of the request, with the representation that it asks for.
  pub record HasView (store : PreparedContentStore Value) (request : Request H U B)
      (view : StoredView) (chosen : Representation) : Type 0 where
    pub found : view_for_request_target store (request_target http request.uri) ≡ some view
    pub negotiated : negotiate (combined_accept_header http request.headers) true ≡ chosen

module _ {H V U B : Type 0} (http : Http H V U B) {Addr Value : Type 0}
    (exchange : Request H U B → Exchange H B) where
  -- `answer` is what a way through the handler gives, with `snapshot` as the store that was read.
  pub data Routed (state : ProxyState Addr Value) (request : Request H U B) (now : ℤ)
      (snapshot : Result ProxyHttpError (Option (PreparedContentStore Value)))
      (answer : Handled H B Addr Value) : Type 0 where
    unreadable :
        (e : ProxyHttpError)
        → snapshot ≡ err e
        → answer ≡ (err e, state)
        → Routed state request now snapshot answer
    to_origin :
        (store : Option (PreparedContentStore Value))
        → snapshot ≡ ok store
        → answer ≡ forward http exchange store state request
        → Routed state request now snapshot answer
    passed_on :
        (store : PreparedContentStore Value) (view : StoredView)
        → snapshot ≡ ok (some store)
        → request.method ≡ codes "GET"
        → HasView http store request view passthrough
        → answer
          ≡ forward http exchange
              (some store)
              (increment_negotiation_passthrough_total state)
              request
        → Routed state request now snapshot answer
    manifest :
        (store : PreparedContentStore Value)
        → snapshot ≡ ok (some store)
        → request.method ≡ codes "GET"
        → http.path request.uri ≡ manifest_path
        → answer ≡ succeed (serve_manifest http state store request.headers now)
        → Routed state request now snapshot answer
    index :
        (store : PreparedContentStore Value)
        → snapshot ≡ ok (some store)
        → request.method ≡ codes "GET"
        → http.path request.uri ≡ store.manifest.views_index
        → answer ≡ succeed (serve_view_index http state store request.headers now)
        → Routed state request now snapshot answer
    json_view :
        (store : PreparedContentStore Value) (view : StoredView)
        → snapshot ≡ ok (some store)
        → request.method ≡ codes "GET"
        → HasView http store request view ajar_json
        → answer ≡ succeed (serve_view_json http state store view request.headers now)
        → Routed state request now snapshot answer
    markdown_view :
        (store : PreparedContentStore Value) (view : StoredView)
        → snapshot ≡ ok (some store)
        → request.method ≡ codes "GET"
        → HasView http store request view markdown
        → answer ≡ succeed (serve_view_markdown http state store view request.headers now)
        → Routed state request now snapshot answer

  view_answer-Routed :
      (state : ProxyState Addr Value) (request : Request H U B) (now : ℤ)
      (store : PreparedContentStore Value) (view : StoredView) (chosen : Representation)
      → request.method ≡ codes "GET"
      → HasView http store request view chosen
      → Routed state request now
          (ok (some store))
          (view_answer http exchange store view state request now chosen)
  view_answer-Routed state request now store view ajar_json get has =
      json_view store view refl get has refl
  view_answer-Routed state request now store view markdown get has =
      markdown_view store view refl get has refl
  view_answer-Routed state request now store view passthrough get has =
      passed_on store view refl get has refl

  target_answer-Routed :
      (state : ProxyState Addr Value) (request : Request H U B) (now : ℤ)
      (store : PreparedContentStore Value) (found : Option StoredView)
      → request.method ≡ codes "GET"
      → view_for_request_target store (request_target http request.uri) ≡ found
      → Routed state request now
          (ok (some store))
          (target_answer http exchange store state request now found)
  target_answer-Routed state request now store none get h = to_origin (some store) refl refl
  target_answer-Routed state request now store (some view) get h =
      view_answer-Routed state request now store view
        (negotiate (combined_accept_header http request.headers) true) get
        (record { found = h; negotiated = refl })

  from_store-Routed :
      (state : ProxyState Addr Value) (request : Request H U B) (now : ℤ)
      (store : PreparedContentStore Value)
      → request.method ≡ codes "GET"
      → Routed state request now
          (ok (some store))
          (from_store http exchange store state request now)
  unfolding from_store
  from_store-Routed state request now store get =
      elim (Bool-cases (text_eq (http.path request.uri) manifest_path)) [
        | inl same ↦ rw same (
            manifest store refl get ((text_eq_iff (http.path request.uri) manifest_path).0 same)
              refl)
        | inr other ↦
            elim (Bool-cases (text_eq (http.path request.uri) store.manifest.views_index)) [
              | inl same ↦
                  rw (other, same)
                    (index store refl get
                      ((text_eq_iff (http.path request.uri) store.manifest.views_index).0 same)
                      refl)
              | inr neither ↦
                  rw (other, neither)
                    (target_answer-Routed state request now store
                      (view_for_request_target store (request_target http request.uri)) get refl)
            ]
      ]

  -- Every answer is that of one of the ways.
  pub with_store-Routed :
      (state : ProxyState Addr Value) (request : Request H U B) (now : ℤ)
      (snapshot : Result ProxyHttpError (Option (PreparedContentStore Value)))
      → Routed state request now snapshot (with_store http exchange state request now snapshot)
  with_store-Routed state request now (err e) = unreadable e refl refl
  with_store-Routed state request now (ok none) = to_origin none refl refl
  with_store-Routed state request now (ok (some store)) =
      elim (Bool-cases (text_eq request.method (codes "GET"))) [
        | inl get ↦ rw get (
            from_store-Routed state request now store
              ((text_eq_iff request.method (codes "GET")).0 get))
        | inr other ↦ rw other (to_origin (some store) refl refl)
      ]
