-- ===== src/Serving/Atomic.antt =====
-- The atomic operations on the shared state of crates/serving/src/lib.rs: a `fetch_add` on a counter,
-- the `compare_exchange` of the flag of the logged expiry with the line behind it, the `store` that
-- clears the flag, and the two lines of a reload on standard error. What is done under the write
-- lock is one more (`Locks`).
pub mod Rows
pub mod Handlers
pub mod Schedules
pub mod Locks
pub mod Works
use ajar_gateway.Common.{ℕ, zero, ◌+◌, Bool, false, Option, some, List, [], ◌∷◌}
use ajar_gateway.Common.Int.{ℤ}
use ajar_gateway.Text.{Text}
use ajar_gateway.Serving.State.{
  Metrics, Shared, ProxyState, LogEvent, store_reloaded, store_reload_failed, bump,
  increment_requests_total, increment_upstream_errors_total, increment_views_served_total,
  increment_manifest_served_total, increment_negotiation_passthrough_total,
  increment_store_reloads_total, increment_store_reload_failures_total, log_event,
  log_manifest_expired_once,
}

pub data Counter : Type 0 where
  requests upstream_errors views_served manifest_served : Counter
  negotiation_passthrough store_reloads store_reload_failures : Counter

pub data Effect (Value : Type 0) : Type 0 where
  add : Counter → Effect Value
  note_expiry clear_expiry : Effect Value
  announce : (views : ℕ) (manifest_sequence : ℤ) → Effect Value
  complain : (reason detail : Text) → Effect Value

module _ {Addr Value : Type 0} where
  abbrev pub increment : Counter → ProxyState Addr Value → ProxyState Addr Value
  increment requests state = increment_requests_total state
  increment upstream_errors state = increment_upstream_errors_total state
  increment views_served state = increment_views_served_total state
  increment manifest_served state = increment_manifest_served_total state
  increment negotiation_passthrough state = increment_negotiation_passthrough_total state
  increment store_reloads state = increment_store_reloads_total state
  increment store_reload_failures state = increment_store_reload_failures_total state

  abbrev pub apply : Effect Value → ProxyState Addr Value → ProxyState Addr Value
  apply (add c) state = increment c state
  apply note_expiry state = log_manifest_expired_once state
  apply clear_expiry state = record state { manifest_expiry_logged = false }
  apply (announce views sequence) state = log_event state (store_reloaded views sequence)
  apply (complain reason detail) state = log_event state (store_reload_failed reason detail)

  -- One operation after the other.
  unfoldable pub perform : List (Effect Value) → ProxyState Addr Value → ProxyState Addr Value
  perform [] state = state
  perform (e ∷ es) state = perform es (apply e state)

module _ {Value : Type 0} where
  -- The sum of a number that each operation has.
  unfoldable pub count : (Effect Value → ℕ) → List (Effect Value) → ℕ
  count w [] = 0
  count w (e ∷ es) = w e + count w es
