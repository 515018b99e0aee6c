-- ===== src/Examples/Interleaving.antt =====
-- A request for the manifest and two reloads at once: the reload that has loaded the sequence 6 gets
-- the lock first, and that with the sequence 5 gets it while the first has still to count itself.
use ajar_gateway.Common.{ℕ, ◌≡◌, refl, some, List, [], ◌∷◌, ok}
use ajar_gateway.Text.{Text}
use ajar_gateway.Store.Load.{PreparedContentStore}
use ajar_gateway.Serving.State.{Shared, ProxyState}
use ajar_gateway.Serving.Reload.{try_swap, commit, reload_failed}
use ajar_gateway.Serving.Atomic.{Effect, apply}
use ajar_gateway.Serving.Atomic.Locks.{
  Thread, row, what_follows, behind, Runs, finished, passed, takes,
}
use ajar_gateway.Serving.Atomic.Works.{Asked, handle-IsAtomic, reload_all}
use ajar_gateway.Examples.Headers.{Headers, map_http}
use ajar_gateway.Examples.Site.{site_store, today}
use ajar_gateway.Examples.Serving.{state, shared, origin}
use ajar_gateway.Examples.Proxy.{get_manifest}

abbrev rows : List (List (Effect ℕ)) → List (Thread ℕ)
rows [] = []
rows (es ∷ pool) = row es ∷ rows pool

abbrev Ends : List (List (Effect ℕ)) → ProxyState ℕ ℕ → Type 0
Ends pool s = (last : ProxyState ℕ ℕ) × Runs (rows pool) [] s last

drain_row :
    (es : List (Effect ℕ)) (pool : List (List (Effect ℕ)))
    → ((s : ProxyState ℕ ℕ) → Ends pool s)
    → (s : ProxyState ℕ ℕ) → Ends (es ∷ pool) s
drain_row [] pool others s = let (last, run) = others s in (last, passed (rows pool) [] s last run)
drain_row (e ∷ es) pool others s =
    let (last, run) = drain_row es pool others (apply e s) in
    (last, takes [] (rows pool) [] e es s last run)

-- Rows alone can always be done.
drain : (pool : List (List (Effect ℕ))) (s : ProxyState ℕ ℕ) → Ends pool s
drain [] s = (s, finished s)
drain (es ∷ pool) s = drain_row es pool (drain pool) s

abbrev asked : Asked Headers Text ℕ ℕ
asked = record {
  exchange = origin;
  request = get_manifest;
  now = today;
  snapshot = ok (some (site_store 3));
}

abbrev reloads : List (PreparedContentStore ℕ)
reloads = site_store 6 ∷ site_store 5 ∷ []

-- The store behind the lock after the first reload, and after both.
abbrev after_first : Shared ℕ
after_first = behind (try_swap shared (site_store 6)) shared

abbrev after_both : Shared ℕ
after_both = behind (try_swap after_first (site_store 5)) after_first

-- What is left to do once both had the lock.
abbrev left : List (List (Effect ℕ))
left =
    (handle-IsAtomic map_http state.config asked).effects
    ∷ what_follows (try_swap shared (site_store 6)) (site_store 6)
    ∷ what_follows (try_swap after_first (site_store 5)) (site_store 5)
    ∷ []

abbrev rest : Ends left (record state { store = some after_both })
rest = drain left (record state { store = some after_both })

-- One of the two reloads is a rollback.
rollback_is_refused :
    ((reload_all map_http reloads state).metrics.store_reloads_total ≡ 1)
    × ((reload_all map_http reloads state).metrics.store_reload_failures_total ≡ 1)
unfolding commit try_swap reload_failed
rollback_is_refused = (refl, refl)
