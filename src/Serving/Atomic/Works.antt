-- ===== src/Serving/Atomic/Works.antt =====
-- What comes of requests and reloads of crates/serving/src/lib.rs that are under way at once: the same
-- as of the requests one after the other and then the reloads, in the order in which these get the
-- lock.
use mathlib.Core.List.{Permᴰ}
use ajar_gateway.Common.{◌≡◌, Option, none, some, List, [], ◌∷◌, Result}
use ajar_gateway.Common.Int.{ℤ}
use ajar_gateway.Store.Load.{PreparedContentStore}
use ajar_gateway.Serving.Http.{Http, Request}
use ajar_gateway.Serving.Config.{ValidatedConfig}
use ajar_gateway.Serving.State.{Shared, ProxyState, increment_requests_total}
use ajar_gateway.Serving.Problem.{ProxyHttpError}
use ajar_gateway.Serving.Proxy.{Exchange, Handled, with_store}
use ajar_gateway.Serving.Reload.{commit}
use ajar_gateway.Serving.Atomic.{requests}
use ajar_gateway.Serving.Atomic.Handlers.{with_store-IsAtomic}
use ajar_gateway.Serving.Atomic.Rows.{IsAtomic, preceded}
use ajar_gateway.Serving.Atomic.Locks.{Thread, row, at_lock}

-- A request that has read `snapshot`, with what the origin answers and the time.
pub record Asked (H U B Value : Type 0) : Type 0 where
  pub exchange : Request H U B → Exchange H B
  pub request : Request H U B
  pub now : ℤ
  pub snapshot : Result ProxyHttpError (Option (PreparedContentStore Value))

module _ {Value : Type 0} where
  -- The threads of the reloads.
  abbrev pub at_locks : List (PreparedContentStore Value) → List (Thread Value)
  at_locks [] = []
  at_locks (loaded ∷ reloads) = at_lock loaded ∷ at_locks reloads

module _ {H V U B : Type 0} (http : Http H V U B) {Addr Value : Type 0} where
  abbrev pub handle : Asked H U B Value → ProxyState Addr Value → Handled H B Addr Value
  handle a state =
      with_store http a.exchange (increment_requests_total state) a.request a.now a.snapshot

  pub handle-IsAtomic :
      (config : ValidatedConfig Addr) (a : Asked H U B Value) → IsAtomic config (handle a)
  handle-IsAtomic config a =
      preceded config requests _
        (with_store-IsAtomic http config a.exchange a.request a.now a.snapshot)

  -- The threads of the requests and of the reloads.
  unfoldable pub threads :
      ValidatedConfig Addr
      → List (Asked H U B Value)
      → List (PreparedContentStore Value)
      → List (Thread Value)
  threads config [] reloads = at_locks reloads
  threads config (a ∷ asked) reloads =
      row (handle-IsAtomic config a).effects ∷ threads config asked reloads

  -- The requests one after the other, as the handlers of the other modules run.
  abbrev pub answer_all : List (Asked H U B Value) → ProxyState Addr Value → ProxyState Addr Value
  answer_all [] state = state
  answer_all (a ∷ asked) state = answer_all asked (handle a state).1

  -- A reload with the store that is served when it gets the lock.
  abbrev commit_to :
      PreparedContentStore Value
      → ProxyState Addr Value
      → Option (Shared Value)
      → ProxyState Addr Value
  commit_to loaded state none = state
  commit_to loaded state (some shared) = (commit http state shared loaded).1

  -- The reloads one after the other, each on the state that the one before has left.
  abbrev pub reload_all :
      List (PreparedContentStore Value) → ProxyState Addr Value → ProxyState Addr Value
  reload_all [] state = state
  reload_all (loaded ∷ reloads) state = reload_all reloads (commit_to loaded state state.store)

  -- The end of requests and reloads that got the lock in the order of the list.
  pub record IsSerial (asked : List (Asked H U B Value))
      (reloads order : List (PreparedContentStore Value)) (before after : ProxyState Addr Value)
      : Type 0 where
    pub each_once : Permᴰ order reloads
    pub metrics_same : after.metrics ≡ (reload_all order (answer_all asked before)).metrics
    pub store_same : after.store ≡ (reload_all order (answer_all asked before)).store
    pub config_kept : after.config ≡ before.config
