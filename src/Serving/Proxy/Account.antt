-- ===== src/Serving/Proxy/Account.antt =====
-- What an answer of `proxy_request` in crates/serving/src/lib.rs should do to the metrics.
use ajar_gateway.Common.{ℕ, ◌≡◌, refl, ◌∙◌, ap, Bool, true, false, Result, ok, err, if◌then◌else◌}
use ajar_gateway.Serving.Http.{
  Response, Content, nothing, bytes, problem, health, reload_success, upstream,
}
use ajar_gateway.Serving.State.{Metrics, bump}
use ajar_gateway.Serving.Problem.{ProxyHttpError}
use ajar_gateway.Serving.Upstream.Errors.{is_upstream_error}

abbrev pub is_content : {B : Type 0} → Content B → Bool
is_content nothing = false
is_content (bytes _) = true
is_content (problem _) = false
is_content (health _) = false
is_content (reload_success _ _ _) = false
is_content (upstream _) = false

module _ {H B : Type 0} where
  -- The answer is an error of the exchange with the origin.
  abbrev pub failed_upstream : Result ProxyHttpError (Response H B) → Bool
  failed_upstream (ok _) = false
  failed_upstream (err e) = is_upstream_error e

  -- The answer has content of the store.
  abbrev pub has_content : Result ProxyHttpError (Response H B) → Bool
  has_content (ok response) = is_content response.body
  has_content (err _) = false

  -- Content is counted once, as the manifest or as a View.
  pub data IsServed (before after : Metrics) (answer : Result ProxyHttpError (Response H B))
      : Type 0 where
    nothing_served :
        has_content answer ≡ false
        → after.manifest_served_total ≡ before.manifest_served_total
        → after.views_served_total ≡ before.views_served_total
        → IsServed before after answer
    manifest_served :
        has_content answer ≡ true
        → after.manifest_served_total ≡ bump before.manifest_served_total
        → after.views_served_total ≡ before.views_served_total
        → IsServed before after answer
    view_served :
        has_content answer ≡ true
        → after.manifest_served_total ≡ before.manifest_served_total
        → after.views_served_total ≡ bump before.views_served_total
        → IsServed before after answer

  pub record IsAccounted (before after : Metrics) (answer : Result ProxyHttpError (Response H B))
      : Type 0 where
    pub served : IsServed before after answer
    pub upstream_errors : after.upstream_errors_total ≡ (
        if failed_upstream answer
        then bump before.upstream_errors_total
        else before.upstream_errors_total)
    pub reloads_kept : after.store_reloads_total ≡ before.store_reloads_total
    pub failures_kept : after.store_reload_failures_total ≡ before.store_reload_failures_total

  pub kept :
      (before after : Metrics) (answer : Result ProxyHttpError (Response H B))
      → has_content answer ≡ false
      → failed_upstream answer ≡ false
      → after.manifest_served_total ≡ before.manifest_served_total
      → after.views_served_total ≡ before.views_served_total
      → after.upstream_errors_total ≡ before.upstream_errors_total
      → after.store_reloads_total ≡ before.store_reloads_total
      → after.store_reload_failures_total ≡ before.store_reload_failures_total
      → IsAccounted before after answer
  kept before after answer empty fine manifests views errors reloads failures = record {
    served = nothing_served empty manifests views;
    upstream_errors = rw fine errors;
    reloads_kept = reloads;
    failures_kept = failures;
  }

module _ {H B : Type 0} where
  -- The same account from another start, where the counters in it are the same.
  IsServed-rebase :
      (before other after : Metrics) (answer : Result ProxyHttpError (Response H B))
      → other.manifest_served_total ≡ before.manifest_served_total
      → other.views_served_total ≡ before.views_served_total
      → IsServed other after answer
      → IsServed before after answer
  IsServed-rebase before other after answer p q (nothing_served c m v) =
      nothing_served c (m ∙ p) (v ∙ q)
  IsServed-rebase before other after answer p q (manifest_served c m v) =
      manifest_served c (m ∙ ap bump p) (v ∙ q)
  IsServed-rebase before other after answer p q (view_served c m v) =
      view_served c (m ∙ p) (v ∙ ap bump q)

  pub IsAccounted-passed :
      (before after : Metrics) (n : ℕ) (answer : Result ProxyHttpError (Response H B))
      → IsAccounted (record before { negotiation_passthrough_total = n }) after answer
      → IsAccounted before after answer
  IsAccounted-passed before after n answer h = record {
    served = IsServed-rebase before _ after answer refl refl h.served;
    upstream_errors = h.upstream_errors;
    reloads_kept = h.reloads_kept;
    failures_kept = h.failures_kept;
  }

  pub IsAccounted-requested :
      (before after : Metrics) (n : ℕ) (answer : Result ProxyHttpError (Response H B))
      → IsAccounted (record before { requests_total = n }) after answer
      → IsAccounted before after answer
  IsAccounted-requested before after n answer h = record {
    served = IsServed-rebase before _ after answer refl refl h.served;
    upstream_errors = h.upstream_errors;
    reloads_kept = h.reloads_kept;
    failures_kept = h.failures_kept;
  }
