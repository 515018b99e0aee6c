-- ===== src/Serving/Proxy/Passed.antt =====
-- The requests that crates/serving/src/lib.rs leaves to the origin, and what becomes of them.
use ajar_gateway.Common.{◌≡◌, ◌≢◌, refl, true, false, Option, none, some, ok, arith, if_lem}
use ajar_gateway.Common.Int.{ℤ}
use ajar_gateway.Text.{codes, text_eq}
use ajar_gateway.Text.Laws.{text_eq_iff}
use ajar_gateway.Store.Model.{StoredView}
use ajar_gateway.Store.Load.{PreparedContentStore, view_for_request_target}
use ajar_gateway.Serving.Http.{Http, Request}
use ajar_gateway.Serving.Headers.{combined_accept_header}
use ajar_gateway.Serving.Negotiate.{passthrough, negotiate}
use ajar_gateway.Serving.State.{ProxyState, increment_negotiation_passthrough_total}
use ajar_gateway.Serving.Upstream.{request_target}
use ajar_gateway.Serving.Proxy.{
  Exchange, Handled, manifest_path, forward, target_answer, from_store, with_store,
}

module _ {H V U B : Type 0} (http : Http H V U B) {Value : Type 0} where
  -- A path that is neither that of the manifest nor that of the index.
  pub record IsPlain (store : PreparedContentStore Value) (uri : U) : Type 0 where
    pub no_manifest : http.path uri ≢ manifest_path
    pub no_index : http.path uri ≢ store.manifest.views_index

  -- A request that the store, if there is one, has no answer for.
  pub data IsLeft (store : Option (PreparedContentStore Value)) (request : Request H U B)
      : Type 0 where
    storeless : store ≡ none → IsLeft store request
    other_method : request.method ≢ codes "GET" → IsLeft store request
    no_view :
        (served : PreparedContentStore Value)
        → store ≡ some served
        → IsPlain served request.uri
        → view_for_request_target served (request_target http request.uri) ≡ none
        → IsLeft store request
    not_asked :
        (served : PreparedContentStore Value) (view : StoredView)
        → store ≡ some served
        → IsPlain served request.uri
        → view_for_request_target served (request_target http request.uri) ≡ some view
        → negotiate (combined_accept_header http request.headers) true ≡ passthrough
        → IsLeft store request

module _ {Addr Value : Type 0} where
  -- The counter of requests that are passed on although there is a View goes up, or nothing does.
  pub data IsNoted (before : ProxyState Addr Value) : ProxyState Addr Value → Type 0 where
    plain : IsNoted before before
    noted : IsNoted before (increment_negotiation_passthrough_total before)

  pub IsNoted-config :
      (before after : ProxyState Addr Value) → IsNoted before after → after.config ≡ before.config
  IsNoted-config before _ plain = refl
  IsNoted-config before _ noted = refl

module _ {H V U B : Type 0} (http : Http H V U B) {Addr Value : Type 0}
    (exchange : Request H U B → Exchange H B) where
  -- The request goes to the origin.
  pub record IsTurned (store : Option (PreparedContentStore Value)) (request : Request H U B)
      (state : ProxyState Addr Value) (answer : Handled H B Addr Value) : Type 0 where
    pub after : ProxyState Addr Value
    pub after_noted : IsNoted state after
    pub answer_is : answer ≡ forward http exchange store after request

  unchanged :
      (store : Option (PreparedContentStore Value)) (request : Request H U B)
      (state : ProxyState Addr Value)
      → IsTurned store request state (forward http exchange store state request)
  unchanged store request state = record { after = state; after_noted = plain; answer_is = refl }

  from_store-target :
      (served : PreparedContentStore Value) (request : Request H U B)
      (state : ProxyState Addr Value) (now : ℤ)
      → IsPlain http served request.uri
      → from_store http exchange served state request now
        ≡ target_answer http exchange served state request now
            (view_for_request_target served (request_target http request.uri))
  unfolding from_store
  from_store-target served request state now path =
      let differs : text_eq (http.path request.uri) manifest_path ≡ false =
        ground (arith, path.no_manifest, text_eq_iff (http.path request.uri) manifest_path) in
      let differs_too : text_eq (http.path request.uri) served.manifest.views_index ≡ false =
        ground
          (arith, path.no_index, text_eq_iff (http.path request.uri) served.manifest.views_index) in
      rw (differs, differs_too)

  from_store-IsTurned :
      (served : PreparedContentStore Value) (request : Request H U B)
      (state : ProxyState Addr Value) (now : ℤ)
      → IsTurned (some served) request state (from_store http exchange served state request now)
      → IsTurned
          (some served)
          request
          state
          (with_store http exchange state request now (ok (some served)))
  from_store-IsTurned served request state now turned =
      if_lem (IsTurned (some served) request state) (text_eq request.method (codes "GET")) _ _
        (λ _. turned) (λ _. unchanged (some served) request state)

  pub with_store-IsTurned :
      (store : Option (PreparedContentStore Value)) (request : Request H U B)
      (state : ProxyState Addr Value) (now : ℤ)
      → IsLeft http store request
      → IsTurned store request state (with_store http exchange state request now (ok store))
  with_store-IsTurned store request state now (storeless e) = rw e (unchanged none request state)
  with_store-IsTurned none request state now (other_method no_get) = unchanged none request state
  with_store-IsTurned (some served) request state now (other_method no_get) =
      let differs : text_eq request.method (codes "GET") ≡ false =
        ground (arith, text_eq_iff request.method (codes "GET")) in
      rw differs (unchanged (some served) request state)
  with_store-IsTurned store request state now (no_view served e path missing) = rw e (
      from_store-IsTurned served request state now (
        rw (from_store-target served request state now path, missing)
          (unchanged (some served) request state)))
  with_store-IsTurned store request state now (not_asked served view e path found declined) = rw e (
      from_store-IsTurned served request state now (
        rw (from_store-target served request state now path, found, declined)
          (record {
            after = increment_negotiation_passthrough_total state;
            after_noted = noted;
            answer_is = refl;
          })))
