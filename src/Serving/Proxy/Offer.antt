-- ===== src/Serving/Proxy/Offer.antt =====
-- What content a request of crates/serving/src/lib.rs may be given.
use ajar_gateway.Common.{
  ◌≡◌, refl, ◌∙◌, sym, ap, Bool, true, false, Option, none, some, Result, ok, err, if◌then◌else◌,
  ok-injective, some-injective,
}
use ajar_gateway.Common.Int.{ℤ, ◌<ℤ◌}
use ajar_gateway.Text.{codes, utf8}
use ajar_gateway.Store.Model.{Bytes, StoredView}
use ajar_gateway.Store.Load.{PreparedContentStore}
use ajar_gateway.Serving.Http.{Http, Request, Response, Content, bytes}
use ajar_gateway.Serving.Negotiate.{ajar_json, markdown}
use ajar_gateway.Serving.State.{Shared, ProxyState}
use ajar_gateway.Serving.Problem.{ProxyHttpError, store_state_unavailable, problem_response}
use ajar_gateway.Serving.Upstream.{build_upstream_request}
use ajar_gateway.Serving.Serve.{render_markdown}
use ajar_gateway.Serving.Serve.Cases.{Stored, expired, cached, fresh}
use ajar_gateway.Serving.Proxy.{
  Exchange, answered, failed, timed_out, Handled, succeed, received, sent, forward, returned,
  readable, current_store, manifest_path,
}
use ajar_gateway.Serving.Proxy.Routes.{HasView}

module _ {H V U B : Type 0} (http : Http H V U B) {Value : Type 0} where
  -- What a request asks for, and the bytes of it in the store.
  pub data Asks (store : PreparedContentStore Value) (request : Request H U B) (content : Bytes)
      : Type 0 where
    for_manifest :
        http.path request.uri ≡ manifest_path
        → content ≡ store.manifest.bytes
        → Asks store request content
    for_index :
        http.path request.uri ≡ store.manifest.views_index
        → content ≡ store.view_index.bytes
        → Asks store request content
    for_view :
        (view : StoredView)
        → HasView http store request view ajar_json
        → content ≡ view.bytes
        → Asks store request content
    for_markdown :
        (view : StoredView)
        → HasView http store request view markdown
        → content ≡ utf8 (render_markdown view)
        → Asks store request content

  -- `content` may be given to `request` out of `store`.
  pub record IsOffered (store : PreparedContentStore Value) (request : Request H U B) (now : ℤ)
      (content : Bytes) : Type 0 where
    pub get : request.method ≡ codes "GET"
    pub in_time : now <ℤ store.manifest.expires_at_unix
    pub asked : Asks store request content

bytes-injective : {B : Type 0} {x y : Bytes} → ◌≡◌ {A = Content B} (bytes x) (bytes y) → x ≡ y
bytes-injective h = cc

module _ {Addr Value : Type 0} where
  -- The store that is read is the one behind the lock.
  pub current-IsUsable :
      (state : ProxyState Addr Value) (store : PreparedContentStore Value)
      → current_store state ≡ ok (some store)
      → (shared : Shared Value) × (state.store ≡ some shared)
        × (shared.poisoned ≡ false)
        × (shared.current ≡ store)
  unfolding current_store
  current-IsUsable state store h = by_store state.store refl h
    where
      by_lock :
          (shared : Shared Value) (b : Bool)
          → shared.poisoned ≡ b
          → ◌≡◌ {A = Result ProxyHttpError (Option (PreparedContentStore Value))}
              (if b then err store_state_unavailable else ok (some shared.current))
              (ok (some store))
          → (shared.poisoned ≡ false) × (shared.current ≡ store)
      by_lock shared true e k = absurd (cc)
      by_lock shared false e k = (e, some-injective _ _ (ok-injective k))

      by_store :
          (o : Option (Shared Value))
          → state.store ≡ o
          → readable o ≡ ok (some store)
          → (shared : Shared Value) × (state.store ≡ some shared)
            × (shared.poisoned ≡ false)
            × (shared.current ≡ store)
      by_store none e k = absurd (cc)
      by_store (some shared) e k =
          let (usable, current) = by_lock shared shared.poisoned refl k in
          (shared, e, usable, current)

module _ {H V U B : Type 0} (http : Http H V U B) {Addr Value : Type 0} where
  -- The answer has no content of a store.
  abbrev pub IsBare : Handled H B Addr Value → Type 0
  IsBare answer =
      (response : Response H B) (content : Bytes)
      → answer.0 ≡ ok response
      → response.body ≡ bytes content
      → ⊥

  received-IsBare :
      (state : ProxyState Addr Value) (store : Option (PreparedContentStore Value))
      (reply : Exchange H B)
      → IsBare (received http store state reply)
  unfolding returned
  received-IsBare state store (answered status headers body) response content h k =
      cc (ap (λ (r : Response H B). r.body) (ok-injective h))
  received-IsBare state store failed response content h k = cc
  received-IsBare state store timed_out response content h k = cc

  pub forward-IsBare :
      (exchange : Request H U B → Exchange H B) (state : ProxyState Addr Value)
      (store : Option (PreparedContentStore Value)) (request : Request H U B)
      → IsBare (forward http exchange store state request)
  unfolding forward
  forward-IsBare exchange state store request =
      sent-IsBare (build_upstream_request http state.config request)
    where
      sent-IsBare :
          (r : Result ProxyHttpError (Request H U B)) → IsBare (sent http exchange store state r)
      sent-IsBare (err e) response content h k = cc
      sent-IsBare (ok r) response content h k =
          received-IsBare state store (exchange r) response content h k

  -- The content of an answer from the store.
  Stored-content :
      (store : PreparedContentStore Value) (now : ℤ) (state counted : ProxyState Addr Value)
      (content found : Bytes) (matched : Bool) (answer : Response H B × ProxyState Addr Value)
      → answer.0.body ≡ bytes found
      → Stored http store now state counted content matched answer
      → (now <ℤ store.manifest.expires_at_unix) × (found ≡ content)
  unfolding problem_response
  Stored-content store now state counted content found matched answer h (expired late e) =
      absurd (cc (ap (λ (a : Response H B × ProxyState Addr Value). a.0.body) e))
  Stored-content store now state counted content found matched answer h (cached _ _ e) =
      absurd (cc (ap (λ (a : Response H B × ProxyState Addr Value). a.0.body) e))
  Stored-content store now state counted content found matched answer h (fresh in_time _ _ body _) =
      (in_time, bytes-injective (sym h ∙ body))

  pub given-IsOffered :
      (state : ProxyState Addr Value) (request : Request H U B) (now : ℤ)
      (store : PreparedContentStore Value) (counted : ProxyState Addr Value) (content found : Bytes)
      (matched : Bool) (given : Response H B × ProxyState Addr Value)
      (answer : Handled H B Addr Value) (response : Response H B)
      → request.method ≡ codes "GET"
      → answer ≡ succeed given
      → Stored http store now state counted content matched given
      → (found ≡ content → Asks http store request found)
      → answer.0 ≡ ok response
      → response.body ≡ bytes found
      → IsOffered http store request now found
  given-IsOffered state request now store counted content found matched given answer response get e
        stored asks h k =
      let same : given.0 ≡ response =
        ok-injective (ap (λ (a : Handled H B Addr Value). a.0) (sym e) ∙ h) in
      let (in_time, is_content) =
        Stored-content store now state counted content found matched given
          (ap (λ (r : Response H B). r.body) same ∙ k) stored in
      record { get = get; in_time = in_time; asked = asks is_content }
