-- ===== src/Serving/Proxy/Kept.antt =====
-- What the answers from the store and from the origin leave behind in the state of
-- crates/serving/src/lib.rs.
use ajar_gateway.Common.{
  ◌≡◌, refl, ◌∙◌, ◌⊎◌, inl, inr, Bool, true, false, Option, ◌∷◌, if◌then◌else◌, if_lem,
}
use ajar_gateway.Common.Int.{ℤ, leb_ℤ, ltb_ℤ}
use ajar_gateway.Store.Model.{StoredView}
use ajar_gateway.Store.Load.{PreparedContentStore}
use ajar_gateway.Serving.Http.{Http, Response}
use ajar_gateway.Serving.Headers.{if_none_match_matches}
use ajar_gateway.Serving.State.{
  Metrics, ProxyState, manifest_expired, bump, log_manifest_expired_once,
  increment_views_served_total,
}
use ajar_gateway.Serving.Serve.{
  serve_manifest, serve_view_index, serve_view_json, serve_view_markdown,
}
use ajar_gateway.Serving.Proxy.{Exchange, answered, failed, timed_out, received}

module _ {Addr Value : Type 0} where
  -- The log is the same, or the expiry of the manifest is logged for the first time.
  unfoldable pub SameLog : ProxyState Addr Value → ProxyState Addr Value → Type 0
  SameLog before after =
      ((after.log ≡ before.log) × (after.manifest_expiry_logged ≡ before.manifest_expiry_logged))
      ⊎ ((after.log ≡ manifest_expired ∷ before.log)
          × (before.manifest_expiry_logged ≡ false)
          × (after.manifest_expiry_logged ≡ true))

  -- The parts of the state that a request leaves as they are, from the point where it is counted.
  pub record IsKept (before after : ProxyState Addr Value) : Type 0 where
    pub store_kept : after.store ≡ before.store
    pub config_kept : after.config ≡ before.config
    pub requests_kept : after.metrics.requests_total ≡ before.metrics.requests_total
    pub reloads_kept : after.metrics.store_reloads_total ≡ before.metrics.store_reloads_total
    pub log_kept : SameLog before after

  -- A request that is counted once, and keeps the rest.
  pub record IsCounted (before after : ProxyState Addr Value) : Type 0 where
    pub store_kept : after.store ≡ before.store
    pub config_kept : after.config ≡ before.config
    pub counted : after.metrics.requests_total ≡ bump before.metrics.requests_total
    pub reloads_kept : after.metrics.store_reloads_total ≡ before.metrics.store_reloads_total
    pub log_kept : SameLog before after

  pub same : (state : ProxyState Addr Value) → IsKept state state
  unfolding SameLog
  same state = record {
    store_kept = refl;
    config_kept = refl;
    requests_kept = refl;
    reloads_kept = refl;
    log_kept = inl (refl, refl);
  }

  pub metered :
      (before state : ProxyState Addr Value) (metrics : Metrics)
      → IsKept before state
      → metrics.requests_total ≡ state.metrics.requests_total
      → metrics.store_reloads_total ≡ state.metrics.store_reloads_total
      → IsKept before (record state { metrics = metrics })
  unfolding SameLog
  metered before state metrics kept requests reloads = record {
    store_kept = kept.store_kept;
    config_kept = kept.config_kept;
    requests_kept = requests ∙ kept.requests_kept;
    reloads_kept = reloads ∙ kept.reloads_kept;
    log_kept = kept.log_kept;
  }

  log_once-IsKept : (state : ProxyState Addr Value) → IsKept state (log_manifest_expired_once state)
  unfolding SameLog log_manifest_expired_once
  log_once-IsKept state =
      if_lem (IsKept state) state.manifest_expiry_logged _ _ (λ _. same state)
        (λ fresh. record {
          store_kept = refl;
          config_kept = refl;
          requests_kept = refl;
          reloads_kept = refl;
          log_kept = inr (refl, fresh, refl);
        })

module _ {H V U B : Type 0} (http : Http H V U B) {Addr Value : Type 0} where
  abbrev Kept : ProxyState Addr Value → Response H B × ProxyState Addr Value → Type 0
  Kept state answer = IsKept state answer.1

  pub serve_manifest-IsKept :
      (state : ProxyState Addr Value) (store : PreparedContentStore Value) (headers : H) (now : ℤ)
      → Kept state (serve_manifest http state store headers now)
  unfolding serve_manifest
  serve_manifest-IsKept state store headers now =
      if_lem (Kept state) (leb_ℤ store.manifest.expires_at_unix now) _ _
        (λ _. log_once-IsKept state)
        (λ _.
          if_lem (Kept state) (if_none_match_matches http headers store.manifest.etag) _ _
            (λ _. same state) (λ _. metered state state _ (same state) refl refl))

  -- The answers that look at the expiry first.
  guarded :
      (state : ProxyState Addr Value) (b : Bool) (x y : Response H B × ProxyState Addr Value)
      → y.1 ≡ log_manifest_expired_once state
      → IsKept state x.1
      → Kept state (if b then x else y)
  guarded state b x y late kept =
      if_lem (Kept state) b x y (λ _. kept) (λ _. rw late (log_once-IsKept state))

  fresh_or_cached :
      (state : ProxyState Addr Value) (b : Bool) (x y : Response H B × ProxyState Addr Value)
      → x.1 ≡ state
      → y.1 ≡ increment_views_served_total state
      → Kept state (if b then x else y)
  fresh_or_cached state b x y cached fresh =
      if_lem (Kept state) b x y (λ _. rw cached (same state))
        (λ _. rw fresh (metered state state _ (same state) refl refl))

  pub serve_view_index-IsKept :
      (state : ProxyState Addr Value) (store : PreparedContentStore Value) (headers : H) (now : ℤ)
      → Kept state (serve_view_index http state store headers now)
  unfolding serve_view_index
  serve_view_index-IsKept state store headers now =
      guarded state (ltb_ℤ now store.manifest.expires_at_unix) _ _ refl (
        fresh_or_cached state (if_none_match_matches http headers store.view_index.etag) _ _ refl
          refl)

  pub serve_view_json-IsKept :
      (state : ProxyState Addr Value) (store : PreparedContentStore Value) (view : StoredView)
      (headers : H) (now : ℤ)
      → Kept state (serve_view_json http state store view headers now)
  unfolding serve_view_json
  serve_view_json-IsKept state store view headers now =
      guarded state (ltb_ℤ now store.manifest.expires_at_unix) _ _ refl
        (fresh_or_cached state (if_none_match_matches http headers view.view.etag) _ _ refl refl)

  pub serve_view_markdown-IsKept :
      (state : ProxyState Addr Value) (store : PreparedContentStore Value) (view : StoredView)
      (headers : H) (now : ℤ)
      → Kept state (serve_view_markdown http state store view headers now)
  unfolding serve_view_markdown
  serve_view_markdown-IsKept state store view headers now =
      guarded state (ltb_ℤ now store.manifest.expires_at_unix) _ _ refl
        (fresh_or_cached state (if_none_match_matches http headers view.view.etag) _ _ refl refl)

  pub received-IsKept :
      (before state : ProxyState Addr Value) (store : Option (PreparedContentStore Value))
      (reply : Exchange H B)
      → IsKept before state
      → IsKept before (received http store state reply).1
  received-IsKept before state store (answered status headers body) kept = kept
  received-IsKept before state store failed kept = metered before state _ kept refl refl
  received-IsKept before state store timed_out kept = metered before state _ kept refl refl
