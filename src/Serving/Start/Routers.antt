-- ===== src/Serving/Start/Routers.antt =====
-- The routes of the two listeners, `proxy_router` and `admin_router` of crates/serving/src/lib.rs.
use ajar_gateway.Common.{List, [], ◌∷◌}
use ajar_gateway.Common.Int.{ℤ}
use ajar_gateway.Text.{Text, codes}
use ajar_gateway.Store.Backend.{FileSystem}
use ajar_gateway.Store.Validate.{Serde}
use ajar_gateway.Serving.Http.{Http, Request, Response}
use ajar_gateway.Serving.State.{ProxyState}
use ajar_gateway.Serving.Proxy.{Exchange, Handled, proxy_request}
use ajar_gateway.Serving.Reload.{healthz, metrics_endpoint, reload_store}

-- The functions `get` and `post` of axum's routing.
pub data MethodRouter (Handler : Type 0) : Type 0 where
  get post : Handler → MethodRouter Handler

pub record Route (Handler : Type 0) : Type 0 where
  pub path : Text
  pub method : MethodRouter Handler

-- A handler of the admin listener.
abbrev pub AdminHandler : Type 0 → Type 0 → Type 0 → Type 0 → Type 0
AdminHandler H B Addr Value = ProxyState Addr Value → ℤ → Response H B × ProxyState Addr Value

module _ {H V U B Addr Value S : Type 0} (http : Http H V U B) (serde : Serde Value)
    (fs : FileSystem S) (s : S) where
  unfoldable pub admin_router : List (Route (AdminHandler H B Addr Value))
  admin_router =
      record { path = codes "/healthz"; method = get (λ state now. (healthz http, state)) }
      ∷ record {
        path = codes "/metrics";
        method = get (λ state now. (metrics_endpoint http state, state));
      }
      ∷ record {
        path = codes "/reload";
        method = post (λ state now. reload_store http serde fs s state now);
      }
      ∷ []

module _ {H V U B Addr Value : Type 0} (http : Http H V U B) where
  -- The router has no route, and every request goes to its fallback.
  unfoldable pub proxy_router :
      (Request H U B → Exchange H B)
      → ProxyState Addr Value
      → Request H U B
      → ℤ
      → Handled H B Addr Value
  proxy_router exchange state request now = proxy_request http exchange state request now
