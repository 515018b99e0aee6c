-- ===== src/Serving/Atomic/Rows.antt =====
-- A handler of crates/serving/src/lib.rs as a row of atomic operations, and how rows are put together.
use ajar_gateway.Common.{◌≡◌, refl, ◌∙◌, Bool, true, false, if◌then◌else◌, List, [], ◌∷◌, Result}
use ajar_gateway.Serving.Http.{Response}
use ajar_gateway.Serving.Config.{ValidatedConfig}
use ajar_gateway.Serving.State.{ProxyState, log_manifest_expired_once}
use ajar_gateway.Serving.Problem.{ProxyHttpError}
use ajar_gateway.Serving.Proxy.{Handled, succeed}
use ajar_gateway.Serving.Atomic.{
  Counter, requests, store_reloads, store_reload_failures, Effect, add, note_expiry, views_served,
  manifest_served, upstream_errors, negotiation_passthrough, increment, perform,
}

module _ {Addr Value : Type 0} where
  pub increment-config :
      (c : Counter) (state : ProxyState Addr Value) → (increment c state).config ≡ state.config
  increment-config requests state = refl
  increment-config upstream_errors state = refl
  increment-config views_served state = refl
  increment-config manifest_served state = refl
  increment-config negotiation_passthrough state = refl
  increment-config store_reloads state = refl
  increment-config store_reload_failures state = refl

module _ {H B Addr Value : Type 0} where
  -- A handler whose answer, and the operations that it performs, are the same in every state with
  -- the configuration `config`.
  pub record IsAtomic (config : ValidatedConfig Addr)
      (handler : ProxyState Addr Value → Handled H B Addr Value) : Type 0 where
    pub answer : Result ProxyHttpError (Response H B)
    pub effects : List (Effect Value)
    pub acts :
        (state : ProxyState Addr Value)
        → state.config ≡ config
        → handler state ≡ (answer, perform effects state)

  pub pure :
      (config : ValidatedConfig Addr) (given : Result ProxyHttpError (Response H B))
      → IsAtomic config (λ state. (given, state))
  unfolding perform
  pure config given = record { answer = given; effects = []; acts = λ state same. refl }

  pub counted :
      (config : ValidatedConfig Addr) (given : Result ProxyHttpError (Response H B)) (c : Counter)
      → IsAtomic config (λ state. (given, increment c state))
  unfolding perform
  counted config given c = record {
    answer = given;
    effects = add c ∷ [];
    acts = λ state same. refl;
  }

  pub noted :
      (config : ValidatedConfig Addr) (given : Result ProxyHttpError (Response H B))
      → IsAtomic config (λ state. (given, log_manifest_expired_once state))
  unfolding perform
  noted config given = record {
    answer = given;
    effects = note_expiry ∷ [];
    acts = λ state same. refl;
  }

  pub branched :
      (config : ValidatedConfig Addr) (b : Bool)
      (f g : ProxyState Addr Value → Handled H B Addr Value)
      → IsAtomic config f
      → IsAtomic config g
      → IsAtomic config (λ state. if b then f state else g state)
  branched config true f g p q = p
  branched config false f g p q = q

  -- A counter goes up in front of a handler.
  pub preceded :
      (config : ValidatedConfig Addr) (c : Counter)
      (f : ProxyState Addr Value → Handled H B Addr Value)
      → IsAtomic config f
      → IsAtomic config (λ state. f (increment c state))
  unfolding perform
  preceded config c f p = record {
    answer = p.answer;
    effects = add c ∷ p.effects;
    acts = λ state same. p.acts (increment c state) (increment-config c state ∙ same);
  }

  -- The same for an answer that is no error.
  pub chosen :
      (config : ValidatedConfig Addr) (b : Bool)
      (f g : ProxyState Addr Value → Response H B × ProxyState Addr Value)
      → IsAtomic config (λ state. succeed (f state))
      → IsAtomic config (λ state. succeed (g state))
      → IsAtomic config (λ state. succeed (if b then f state else g state))
  chosen config true f g p q = p
  chosen config false f g p q = q
