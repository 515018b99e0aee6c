-- ===== src/Serving/Reload.antt =====
-- The admin routes of crates/serving/src/lib.rs: `reload_store`, `healthz` and `metrics_endpoint`.
-- `reload_store` reads the directory before it takes the write lock, `try_swap` is what it does under
-- the lock, and `advance` what it does behind it; other requests and reloads may stand between these.
-- `commit` is all of it from the lock on.
pub mod Swap
pub mod Laws
pub mod Steps
pub mod Quiet
pub mod Invariants
pub mod Offers
pub mod Publication
pub mod Published
use ajar_gateway.Common.{
  ℕ, Bool, true, false, Option, none, some, List, [], ◌∷◌, if◌then◌else◌, Result, ok, err,
}
use ajar_gateway.Common.Int.{ℤ, ltb_ℤ}
use ajar_gateway.Text.{Text, codes, utf8}
use ajar_gateway.Store.Error.{
  StoreLoadError, read_failed, backend_read_failed, json_malformed, manifest_field_missing,
  view_field_missing, manifest_time_invalid, manifest_lifetime_too_long, manifest_expired,
  manifest_sequence_invalid, duplicate_view_url, invalid_view_url,
}
use ajar_gateway.Store.FilePath.{FilePath}
use ajar_gateway.Store.Backend.{FileSystem}
use ajar_gateway.Store.Validate.{Serde}
use ajar_gateway.Store.Load.{PreparedContentStore, load_from_dir, manifest_sequence, view_count}
use ajar_gateway.Serving.Http.{Http, Response, Content, health, reload_success, bytes}
use ajar_gateway.Serving.Headers.{content_type}
use ajar_gateway.Serving.State.{
  Shared, ProxyState, LogEvent, store_reloaded, store_reload_failed, log_event, render,
  increment_store_reloads_total, increment_store_reload_failures_total,
}
use ajar_gateway.Serving.Problem.{problem_response}

-- `to_string` of an error of loading.
abbrev pub error_text : StoreLoadError → Text
error_text (read_failed _) = codes "prepared content store read failed"
error_text (backend_read_failed _) = codes "prepared content store read failed"
error_text json_malformed = codes "prepared content store JSON malformed"
error_text manifest_field_missing = codes "prepared manifest required field missing"
error_text view_field_missing = codes "prepared view required field missing"
error_text manifest_time_invalid = codes "prepared manifest time window invalid"
error_text manifest_lifetime_too_long = codes "prepared manifest lifetime exceeds 180 days"
error_text manifest_expired = codes "prepared manifest expired"
error_text manifest_sequence_invalid = codes "prepared manifest sequence invalid"
error_text duplicate_view_url = codes "prepared view URL duplicated"
error_text invalid_view_url = codes "prepared view URL invalid"

-- Why a reload leaves the store as it is.
pub record Refusal : Type 0 where
  pub detail : Text
  pub reason : Text

module _ {Value : Type 0} where
  -- What is done under the write lock: `*guard = loaded_store`, unless the lock is poisoned or the
  -- manifest is older than that of the store behind the guard.
  unfoldable pub try_swap :
      Shared Value → PreparedContentStore Value → Result Refusal (Shared Value)
  try_swap shared loaded =
      if shared.poisoned
      then err (record {
        detail = codes "content store state unavailable";
        reason = codes "store_state_unavailable";
      })
      else if ltb_ℤ (manifest_sequence loaded) (manifest_sequence shared.current)
      then err (record {
        detail = codes "prepared manifest sequence is lower than the currently served sequence";
        reason = codes "sequence_rollback";
      })
      else ok (record shared { current = loaded })

-- What a reload has still to do once it has let go of the lock: all of it, from the flag on, or the
-- line in the log only.
pub data Rest (Value : Type 0) : Type 0 where
  counting clearing announcing : (loaded : PreparedContentStore Value) → Rest Value

module _ {Addr Value : Type 0} where
  -- The next operation of it on the shared state: the reload is counted, the flag of the logged
  -- expiry is cleared, the line is written.
  abbrev pub advance : Rest Value → ProxyState Addr Value → ProxyState Addr Value
  advance (counting loaded) state = increment_store_reloads_total state
  advance (clearing loaded) state = record state { manifest_expiry_logged = false }
  advance (announcing loaded) state =
      log_event state (store_reloaded (view_count loaded) (manifest_sequence loaded))

  -- The three of them with nothing between.
  abbrev pub reloaded_state :
      ProxyState Addr Value → PreparedContentStore Value → ProxyState Addr Value
  reloaded_state state loaded =
      advance (announcing loaded) (advance (clearing loaded) (advance (counting loaded) state))

-- What is left after it.
abbrev pub remaining : {Value : Type 0} → Rest Value → List (Rest Value)
remaining (counting loaded) = clearing loaded ∷ []
remaining (clearing loaded) = announcing loaded ∷ []
remaining (announcing loaded) = []

module _ {H V U B : Type 0} (http : Http H V U B) {Addr Value : Type 0} where
  unfoldable pub reload_failed :
      ProxyState Addr Value → Text → Text → Response H B × ProxyState Addr Value
  reload_failed state detail reason = (
    problem_response http 409 (codes "AJAR_GATEWAY_STORE_RELOAD_FAILED")
        (codes "Store reload failed") detail,
    log_event (increment_store_reload_failures_total state) (store_reload_failed reason detail),
  )

  abbrev pub commit_answer :
      ProxyState Addr Value
      → PreparedContentStore Value
      → Result Refusal (Shared Value)
      → Response H B × ProxyState Addr Value
  commit_answer state loaded (err refusal) = reload_failed state refusal.detail refusal.reason
  commit_answer state loaded (ok swapped) = (
    record {
      status = 200;
      headers = http.json_headers;
      body = reload_success (codes "reloaded") (view_count loaded) (manifest_sequence loaded);
    },
    reloaded_state (record state { store = some swapped }) loaded,
  )

  unfoldable pub commit :
      ProxyState Addr Value
      → Shared Value
      → PreparedContentStore Value
      → Response H B × ProxyState Addr Value
  unfolding try_swap
  commit state shared loaded = commit_answer state loaded (try_swap shared loaded)

  abbrev not_configured : ProxyState Addr Value → Response H B × ProxyState Addr Value
  not_configured state =
      reload_failed state (codes "no content store configured")
        (codes "no_content_store_configured")

  abbrev pub loaded_answer :
      ProxyState Addr Value
      → Shared Value
      → Result StoreLoadError (PreparedContentStore Value)
      → Response H B × ProxyState Addr Value
  loaded_answer state shared (err error) =
      reload_failed state (error_text error) (codes "validation_failed")
  loaded_answer state shared (ok loaded) = commit state shared loaded

module _ {H V U B : Type 0} (http : Http H V U B) {Addr Value : Type 0} where
  abbrev pub reload_from :
      (FilePath → Result StoreLoadError (PreparedContentStore Value))
      → ProxyState Addr Value
      → Option FilePath
      → Option (Shared Value)
      → Response H B × ProxyState Addr Value
  reload_from load state none _ = not_configured http state
  reload_from load state (some _) none = not_configured http state
  reload_from load state (some store_dir) (some shared) =
      loaded_answer http state shared (load store_dir)

module _ {H V U B : Type 0} (http : Http H V U B) {Addr Value S : Type 0} where
  -- A reload that no other reload meets.
  unfoldable pub reload_store :
      Serde Value
      → FileSystem S
      → S
      → ProxyState Addr Value
      → ℤ
      → Response H B × ProxyState Addr Value
  reload_store serde fs s state now =
      reload_from http (λ store_dir. load_from_dir serde fs s store_dir now) state
        state.config.store_dir state.store

module _ {H V U B : Type 0} (http : Http H V U B) {Addr Value : Type 0} where
  unfoldable pub metrics_endpoint : ProxyState Addr Value → Response H B
  metrics_endpoint state = record {
    status = 200;
    headers =
        http.insert http.empty content_type (http.static_value (codes "text/plain; charset=utf-8"));
    body = bytes (utf8 (render state.metrics));
  }

module _ {H V U B : Type 0} (http : Http H V U B) where
  unfoldable pub healthz : Response H B
  healthz = record { status = 200; headers = http.json_headers; body = health (codes "ok") }
