-- ===== src/Serving/Start.antt =====
-- `serve_until_shutdown_with_clock` of crates/serving/src/lib.rs: the start of the gateway up to the
-- point where it serves, and how its end comes about. `binds` tells whether a listener can be bound
-- to an address, given those that the gateway has bound before.
pub mod Laws
pub mod Shutdown
pub mod Routers
use ajar_gateway.Common.{
  Bool, true, false, not, Option, none, some, List, [], ◌∷◌, Result, ok, err, ◌>>=◌, ◌>>◌, fail_if,
}
use ajar_gateway.Common.Int.{ℤ}
use ajar_gateway.Store.Error.{StoreLoadError}
use ajar_gateway.Store.FilePath.{FilePath}
use ajar_gateway.Store.Backend.{FileSystem}
use ajar_gateway.Store.Validate.{Serde}
use ajar_gateway.Store.Load.{PreparedContentStore, load_from_dir}
use ajar_gateway.Serving.Http.{Http}
use ajar_gateway.Serving.Config.{
  GatewayConfig, ValidatedConfig, ServingError, validate, bind_failed, store_load_failed,
}
use ajar_gateway.Serving.State.{Metrics, Shared, ProxyState}

-- `Metrics::default()`
abbrev pub no_metrics : Metrics
no_metrics = record {
  requests_total = 0;
  upstream_errors_total = 0;
  views_served_total = 0;
  manifest_served_total = 0;
  negotiation_passthrough_total = 0;
  store_reloads_total = 0;
  store_reload_failures_total = 0;
}

-- The loaded store behind its lock, or the error of loading as one of serving.
abbrev pub shared_store :
    {Value : Type 0}
    → Result StoreLoadError (PreparedContentStore Value)
    → Result ServingError (Option (Shared Value))
shared_store (err e) = err (store_load_failed e)
shared_store (ok store) = ok (some (record { poisoned = false; current = store }))

module _ {Value S : Type 0} (serde : Serde Value) (fs : FileSystem S) (s : S) where
  abbrev pub initial_store : Option FilePath → ℤ → Result ServingError (Option (Shared Value))
  initial_store none now = ok none
  initial_store (some path) now = shared_store (load_from_dir serde fs s path now)

module _ {H V U B Addr Value S : Type 0} (http : Http H V U B) (serde : Serde Value)
    (fs : FileSystem S) (s : S) where
  unfoldable pub start :
      (List Addr → Addr → Bool)
      → GatewayConfig Addr
      → ℤ
      → Result ServingError (ProxyState Addr Value)
  start binds config now = do
    valid ← validate http config
    store ← initial_store serde fs s valid.store_dir now
    fail_if (not (binds [] valid.listen_addr)) bind_failed
    fail_if (not (binds (valid.listen_addr ∷ []) valid.admin_addr)) bind_failed
    ok (record {
      config = valid;
      metrics = no_metrics;
      store = store;
      manifest_expiry_logged = false;
      log = [];
    })
