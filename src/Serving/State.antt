-- ===== src/Serving/State.antt =====
-- The shared state of the serving layer in crates/serving/src/lib.rs: the metrics, the store behind
-- its lock, and what has been written to standard error. A handler reads the clock at most once;
-- its answer is the argument `now` of the handlers.
pub mod Rendered
use ajar_gateway.Common.{ℕ, ◌+◌, ◌%◌, ◌^◌, Bool, true, Option, List, ◌∷◌, ◌++◌, if◌then◌else◌}
use ajar_gateway.Common.Int.{ℤ}
use ajar_gateway.Text.{Text, codes}
use ajar_gateway.Text.Number.{decimal}
use ajar_gateway.Store.Load.{PreparedContentStore}
use ajar_gateway.Serving.Config.{ValidatedConfig}

-- The counters are `AtomicU64`.
pub record Metrics : Type 0 where
  pub requests_total : ℕ
  pub upstream_errors_total : ℕ
  pub views_served_total : ℕ
  pub manifest_served_total : ℕ
  pub negotiation_passthrough_total : ℕ
  pub store_reloads_total : ℕ
  pub store_reload_failures_total : ℕ

-- `fetch_add(1)`
abbrev pub bump : ℕ → ℕ
bump n = (n + 1) % 2 ^ 64

abbrev pub line : Text → ℕ → Text
line name value = name ++ (codes " " ++ (decimal value ++ codes "\n"))

unfoldable pub render : Metrics → Text
render m =
    line (codes "requests_total") m.requests_total
    ++ (line (codes "upstream_errors_total") m.upstream_errors_total
        ++ (line (codes "views_served_total") m.views_served_total
            ++ (line (codes "manifest_served_total") m.manifest_served_total
                ++ (line (codes "negotiation_passthrough_total") m.negotiation_passthrough_total
                    ++ (line (codes "store_reloads_total") m.store_reloads_total
                        ++ line (codes "store_reload_failures_total")
                            m.store_reload_failures_total)))))

-- The lines written to standard error, without their JSON form.
pub data LogEvent : Type 0 where
  manifest_expired : LogEvent
  store_reloaded : (views : ℕ) (manifest_sequence : ℤ) → LogEvent
  store_reload_failed : (reason detail : Text) → LogEvent

-- `RwLock<Arc<PreparedContentStore>>`; a poisoned lock gives no guard.
pub record Shared (Value : Type 0) : Type 0 where
  pub poisoned : Bool
  pub current : PreparedContentStore Value

pub record ProxyState (Addr Value : Type 0) : Type 0 where
  pub config : ValidatedConfig Addr
  pub metrics : Metrics
  pub store : Option (Shared Value)
  pub manifest_expiry_logged : Bool
  pub log : List LogEvent

module _ {Addr Value : Type 0} where
  abbrev pub increment_requests_total : ProxyState Addr Value → ProxyState Addr Value
  increment_requests_total state = record state {
    metrics = record (state.metrics) { requests_total = bump state.metrics.requests_total };
  }

  abbrev pub increment_upstream_errors_total : ProxyState Addr Value → ProxyState Addr Value
  increment_upstream_errors_total state = record state {
    metrics = record (state.metrics) {
      upstream_errors_total = bump state.metrics.upstream_errors_total;
    };
  }

  abbrev pub increment_views_served_total : ProxyState Addr Value → ProxyState Addr Value
  increment_views_served_total state = record state {
    metrics = record (state.metrics) { views_served_total = bump state.metrics.views_served_total };
  }

  abbrev pub increment_manifest_served_total : ProxyState Addr Value → ProxyState Addr Value
  increment_manifest_served_total state = record state {
    metrics = record (state.metrics) {
      manifest_served_total = bump state.metrics.manifest_served_total;
    };
  }

  abbrev pub increment_negotiation_passthrough_total : ProxyState Addr Value → ProxyState Addr Value
  increment_negotiation_passthrough_total state = record state {
    metrics = record (state.metrics) {
      negotiation_passthrough_total = bump state.metrics.negotiation_passthrough_total;
    };
  }

  abbrev pub increment_store_reloads_total : ProxyState Addr Value → ProxyState Addr Value
  increment_store_reloads_total state = record state {
    metrics = record (state.metrics) {
      store_reloads_total = bump state.metrics.store_reloads_total;
    };
  }

  abbrev pub increment_store_reload_failures_total : ProxyState Addr Value → ProxyState Addr Value
  increment_store_reload_failures_total state = record state {
    metrics = record (state.metrics) {
      store_reload_failures_total = bump state.metrics.store_reload_failures_total;
    };
  }

  abbrev pub log_event : ProxyState Addr Value → LogEvent → ProxyState Addr Value
  log_event state event = record state { log = event ∷ state.log }

  -- The flag goes from false to true once, and only then is the line written.
  unfoldable pub log_manifest_expired_once : ProxyState Addr Value → ProxyState Addr Value
  log_manifest_expired_once state =
      if state.manifest_expiry_logged
      then state
      else record state { manifest_expiry_logged = true; log = manifest_expired ∷ state.log }
