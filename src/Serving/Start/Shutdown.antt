-- ===== src/Serving/Start/Shutdown.antt =====
-- The end of the two servers of crates/serving/src/lib.rs: the shutdown signal and the join.
use ajar_gateway.Common.{
  ℕ, Option, ◌≡◌, refl, ◌↔◌, ◌⊎◌, inl, inr, Bool, true, false, List, [], ◌∷◌, ◌++◌, Result, ok, err,
  ◌>>=◌, >>=-eq-ok, if◌then◌else◌, Some,
}
use ajar_gateway.Common.Int.{ℤ}
use ajar_gateway.Store.Clock.{clamped_seconds}
use ajar_gateway.Store.Backend.{FileSystem}
use ajar_gateway.Store.Validate.{Serde}
use ajar_gateway.Serving.Http.{Http}
use ajar_gateway.Serving.Config.{
  GatewayConfig, ServingError, proxy_server_failed, admin_server_failed,
}
use ajar_gateway.Serving.State.{ProxyState}
use ajar_gateway.Serving.Start.{start}

-- What `changed` of a `watch` receiver tells: a new value, or that the sender is gone.
pub data Change : Type 0 where
  changed_to : Bool → Change
  closed : Change

-- Whether `shutdown_signal` has returned, from the value of the channel and the changes that it is
-- woken for.
unfoldable pub shutdown_signal : Bool → List Change → Bool
shutdown_signal true changes = true
shutdown_signal false [] = false
shutdown_signal false (changed_to value ∷ changes) = shutdown_signal value changes
shutdown_signal false (closed ∷ changes) = true

-- The task of the `shutdown` future: once it is done, it sends `true`, and its sender goes.
abbrev pub shutdown_task : Bool → List Change
shutdown_task done = if done then changed_to true ∷ closed ∷ [] else []

-- A change that ends the wait.
abbrev pub IsEnd : Change → Type 0
IsEnd change = (change ≡ changed_to true) ⊎ (change ≡ closed)

shutdown_signal_waiting_iff :
    (changes : List Change) → (shutdown_signal false changes ≡ true) ↔ Some IsEnd changes
unfolding shutdown_signal
shutdown_signal_waiting_iff [] = (λ h. absurd (cc), λ h. absurd h)
shutdown_signal_waiting_iff (closed ∷ changes) = (λ h. inl (inr refl), λ h. refl)
shutdown_signal_waiting_iff (changed_to true ∷ changes) = (λ h. inl (inl refl), λ h. refl)
shutdown_signal_waiting_iff (changed_to false ∷ changes) = (
  λ h. inr ((shutdown_signal_waiting_iff changes).0 h),
  λ h. elim h [
    | inl (inl e) ↦ absurd (cc)
    | inl (inr e) ↦ absurd (cc)
    | inr later ↦ (shutdown_signal_waiting_iff changes).1 later
  ],
)

-- The wait for the shutdown ends, however often the receiver is woken before: on a channel that
-- starts at `false`, `shutdown_signal` has returned exactly if one of the changes sent `true` or the
-- sender is gone, and so behind any changes once the task of the shutdown is done.
pub shutdown_signal_iff :
    (changes : List Change)
    → ((shutdown_signal false changes ≡ true) ↔ Some IsEnd changes)
      × (shutdown_signal false (changes ++ shutdown_task true) ≡ true)
shutdown_signal_iff changes = (
  shutdown_signal_waiting_iff changes,
  (shutdown_signal_waiting_iff (changes ++ shutdown_task true)).1 (later changes),
)
  where
    later : (cs : List Change) → Some IsEnd (cs ++ shutdown_task true)
    later [] = inl (inl refl)
    later (c ∷ cs) = inr (later cs)

-- How a server ends: as its signal asks, or by an error.
pub data End : Type 0 where
  graceful failed : End

-- `try_join!` of the two servers; the error that comes first is the one returned.
abbrev pub join_servers : End → End → (proxy_first : Bool) → Result ServingError (Unit {0})
join_servers graceful graceful proxy_first = ok tt
join_servers graceful failed proxy_first = err admin_server_failed
join_servers failed graceful proxy_first = err proxy_server_failed
join_servers failed failed proxy_first =
    if proxy_first then err proxy_server_failed else err admin_server_failed

-- What becomes of the servers of a state, and whether the proxy ends first.
pub record Run : Type 0 where
  pub proxy_end : End
  pub admin_end : End
  pub proxy_first : Bool

module _ {H V U B Addr Value S : Type 0} (http : Http H V U B) (serde : Serde Value)
    (fs : FileSystem S) (s : S) where
  unfoldable pub serve_until_shutdown_with_clock :
      (List Addr → Addr → Bool)
      → (ProxyState Addr Value → Run)
      → GatewayConfig Addr
      → ℤ
      → Result ServingError (Unit {0})
  serve_until_shutdown_with_clock binds runs config now = do
    state ← start http serde fs s binds config now
    let run = runs state
    join_servers run.proxy_end run.admin_end run.proxy_first

  -- With the wall clock, as it stands when the store is loaded.
  abbrev pub serve_until_shutdown :
      (List Addr → Addr → Bool)
      → (ProxyState Addr Value → Run)
      → GatewayConfig Addr
      → Option ℕ
      → Result ServingError (Unit {0})
  serve_until_shutdown binds runs config elapsed =
      serve_until_shutdown_with_clock binds runs config (clamped_seconds elapsed)

  -- The run of a gateway that ended well.
  pub record IsServed (binds : List Addr → Addr → Bool) (runs : ProxyState Addr Value → Run)
      (config : GatewayConfig Addr) (now : ℤ) : Type 0 where
    pub state : ProxyState Addr Value
    pub started : start http serde fs s binds config now ≡ ok state
    pub proxy_graceful : (runs state).proxy_end ≡ graceful
    pub admin_graceful : (runs state).admin_end ≡ graceful

join_servers_ok :
    (p a : End) (first : Bool) → join_servers p a first ≡ ok tt → (p ≡ graceful) × (a ≡ graceful)
join_servers_ok graceful graceful first h = (refl, refl)
join_servers_ok graceful failed first h = absurd (cc)
join_servers_ok failed graceful first h = absurd (cc)
join_servers_ok failed failed true h = absurd (cc)
join_servers_ok failed failed false h = absurd (cc)

module _ {H V U B Addr Value S : Type 0} (http : Http H V U B) (serde : Serde Value)
    (fs : FileSystem S) (s : S) where
  -- Serving ends without an error exactly if the gateway starts and both servers end as the shutdown
  -- signal asks.
  pub serve_until_shutdown_with_clock_iff :
      (binds : List Addr → Addr → Bool) (runs : ProxyState Addr Value → Run)
      (config : GatewayConfig Addr) (now : ℤ)
      → (serve_until_shutdown_with_clock http serde fs s binds runs config now ≡ ok tt)
        ↔ IsServed http serde fs s binds runs config now
  unfolding serve_until_shutdown_with_clock
  serve_until_shutdown_with_clock_iff binds runs config now = (
    λ h.
        let (state, started, joined) = >>=-eq-ok (start http serde fs s binds config now) _ h in
        let (p, a) = join_servers_ok _ _ (runs state).proxy_first joined in
        record { state = state; started = started; proxy_graceful = p; admin_graceful = a },
    λ r. rw (r.started, r.proxy_graceful, r.admin_graceful) refl,
  )
