-- ===== src/Serving/Atomic/Schedules.antt =====
-- What the atomic operations of the handlers of crates/serving/src/lib.rs do to each counter.
use ajar_gateway.Common.{
  ℕ, zero, suc, ◌+◌, ◌≡◌, refl, sym, ap, ◌∙◌, if◌then◌else◌, List, [], ◌∷◌, arith, ◌==◌, if_lem,
}
use ajar_gateway.Serving.State.{Metrics, ProxyState, bump, log_manifest_expired_once}
use ajar_gateway.Serving.Atomic.{
  Counter, requests, upstream_errors, views_served, manifest_served, negotiation_passthrough,
  store_reloads, store_reload_failures, Effect, add, note_expiry, clear_expiry, announce, complain,
  count, increment, apply, perform,
}
use ajar_gateway.Serving.Atomic.Rows.{increment-config}

abbrev number_of : Counter → ℕ
number_of requests = 0
number_of upstream_errors = 1
number_of views_served = 2
number_of manifest_served = 3
number_of negotiation_passthrough = 4
number_of store_reloads = 5
number_of store_reload_failures = 6

abbrev pub read : Counter → Metrics → ℕ
read requests m = m.requests_total
read upstream_errors m = m.upstream_errors_total
read views_served m = m.views_served_total
read manifest_served m = m.manifest_served_total
read negotiation_passthrough m = m.negotiation_passthrough_total
read store_reloads m = m.store_reloads_total
read store_reload_failures m = m.store_reload_failures_total

pub metrics_ext : (m n : Metrics) → ((c : Counter) → read c m ≡ read c n) → m ≡ n
metrics_ext m n h = λ i. record {
  requests_total = h requests i;
  upstream_errors_total = h upstream_errors i;
  views_served_total = h views_served i;
  manifest_served_total = h manifest_served i;
  negotiation_passthrough_total = h negotiation_passthrough i;
  store_reloads_total = h store_reloads i;
  store_reload_failures_total = h store_reload_failures i;
}

-- A counter that has gone up a number of times.
unfoldable pub bumped : ℕ → ℕ → ℕ
bumped zero n = n
bumped (suc k) n = bumped k (bump n)

pub bumped_add : (a b n : ℕ) → bumped (a + b) n ≡ bumped b (bumped a n)
unfolding bumped
bumped_add zero b n = let same : zero + b ≡ b = omega arith in rw same refl
bumped_add (suc a) b n =
    let same : suc a + b ≡ suc (a + b) = omega arith in rw (same, bumped) (bumped_add a b (bump n))

module _ {Value : Type 0} where
  unfoldable pub weight : Counter → Effect Value → ℕ
  weight c (add d) = if number_of c == number_of d then 1 else 0
  weight c _ = 0

module _ {Addr Value : Type 0} where
  read-increment :
      (c d : Counter) (state : ProxyState Addr Value)
      → read c (increment d state).metrics
        ≡ bumped (weight {Value = Value} c (add d)) (read c state.metrics)
  unfolding bumped weight
  read-increment c d state = ground arith

  log_expiry-metrics :
      (state : ProxyState Addr Value) → (log_manifest_expired_once state).metrics ≡ state.metrics
  unfolding log_manifest_expired_once
  log_expiry-metrics state =
      if_lem (λ (s : ProxyState Addr Value). s.metrics ≡ state.metrics) state.manifest_expiry_logged
        _ _ (λ _. refl) (λ _. refl)

  pub read-apply :
      (c : Counter) (e : Effect Value) (state : ProxyState Addr Value)
      → read c (apply e state).metrics ≡ bumped (weight c e) (read c state.metrics)
  unfolding bumped weight
  read-apply c (add d) state = read-increment c d state
  read-apply c note_expiry state = ap (read c) (log_expiry-metrics state)
  read-apply c clear_expiry state = refl
  read-apply c (announce views sequence) state = refl
  read-apply c (complain reason detail) state = refl

  pub read-perform :
      (c : Counter) (es : List (Effect Value)) (state : ProxyState Addr Value)
      → read c (perform es state).metrics ≡ bumped (count (weight c) es) (read c state.metrics)
  unfolding perform count bumped
  read-perform c [] state = refl
  read-perform c (e ∷ es) state =
      read-perform c es (apply e state)
      ∙ ap (bumped (count (weight c) es)) (read-apply c e state)
      ∙ sym (bumped_add (weight c e) (count (weight c) es) (read c state.metrics))

  pub config-apply :
      (e : Effect Value) (state : ProxyState Addr Value) → (apply e state).config ≡ state.config
  unfolding log_manifest_expired_once
  config-apply (add d) state = increment-config d state
  config-apply note_expiry state =
      if_lem (λ (s : ProxyState Addr Value). s.config ≡ state.config) state.manifest_expiry_logged _
        _ (λ _. refl) (λ _. refl)
  config-apply clear_expiry state = refl
  config-apply (announce views sequence) state = refl
  config-apply (complain reason detail) state = refl

  pub perform-config :
      (es : List (Effect Value)) (state : ProxyState Addr Value)
      → (perform es state).config ≡ state.config
  unfolding perform
  perform-config [] state = refl
  perform-config (e ∷ es) state = perform-config es (apply e state) ∙ config-apply e state

  increment-store :
      (c : Counter) (state : ProxyState Addr Value) → (increment c state).store ≡ state.store
  increment-store requests state = refl
  increment-store upstream_errors state = refl
  increment-store views_served state = refl
  increment-store manifest_served state = refl
  increment-store negotiation_passthrough state = refl
  increment-store store_reloads state = refl
  increment-store store_reload_failures state = refl

  pub store-apply :
      (e : Effect Value) (state : ProxyState Addr Value) → (apply e state).store ≡ state.store
  unfolding log_manifest_expired_once
  store-apply (add d) state = increment-store d state
  store-apply note_expiry state =
      if_lem (λ (s : ProxyState Addr Value). s.store ≡ state.store) state.manifest_expiry_logged _ _
        (λ _. refl) (λ _. refl)
  store-apply clear_expiry state = refl
  store-apply (announce views sequence) state = refl
  store-apply (complain reason detail) state = refl

  pub perform-store :
      (es : List (Effect Value)) (state : ProxyState Addr Value)
      → (perform es state).store ≡ state.store
  unfolding perform
  perform-store [] state = refl
  perform-store (e ∷ es) state = perform-store es (apply e state) ∙ store-apply e state
