-- ===== src/Serving/Reload/Swap.antt =====
-- What a reload of crates/serving/src/lib.rs leaves behind, and what it does under the write lock.
use ajar_gateway.Common.{
  ◌≡◌, refl, sym, ◌∙◌, inl, inr, false, some, ◌∷◌, ok, arith, Bool-cases, ok-injective, subst,
}
use ajar_gateway.Common.Int.{◌≤ℤ◌, ltb_ℤ}
use ajar_gateway.Text.{Text}
use ajar_gateway.Store.Load.{PreparedContentStore, manifest_sequence, view_count}
use ajar_gateway.Serving.State.{Shared, ProxyState, store_reloaded, store_reload_failed, bump}
use ajar_gateway.Serving.Reload.{try_swap, reloaded_state}

module _ {Addr Value : Type 0} where
  -- A reload that changes nothing but the count of failures and the log.
  pub record IsRefused (before after : ProxyState Addr Value) : Type 0 where
    pub store_kept : after.store ≡ before.store
    pub config_kept : after.config ≡ before.config
    pub expiry_kept : after.manifest_expiry_logged ≡ before.manifest_expiry_logged
    pub counted :
        after.metrics.store_reload_failures_total ≡ bump before.metrics.store_reload_failures_total
    pub reason : Text
    pub detail : Text
    pub logged : after.log ≡ store_reload_failed reason detail ∷ before.log

  -- A reload that swaps the store for `loaded`, which is not older.
  pub record IsSwapped (before : ProxyState Addr Value) (loaded : PreparedContentStore Value)
      (after : ProxyState Addr Value) : Type 0 where
    pub shared : Shared Value
    pub store_was : before.store ≡ some shared
    pub usable : shared.poisoned ≡ false
    pub not_older : manifest_sequence shared.current ≤ℤ manifest_sequence loaded
    pub store_now : after.store ≡ some (record shared { current = loaded })
    pub config_kept : after.config ≡ before.config
    pub counted :
        after.metrics
        ≡ record (before.metrics) { store_reloads_total = bump before.metrics.store_reloads_total }
    pub expiry_cleared : after.manifest_expiry_logged ≡ false
    pub logged :
        after.log ≡ store_reloaded (view_count loaded) (manifest_sequence loaded) ∷ before.log

module _ {Addr Value : Type 0} where
  -- The state with another store behind the lock.
  abbrev pub with_current :
      ProxyState Addr Value → Shared Value → PreparedContentStore Value → ProxyState Addr Value
  with_current state shared loaded = record state {
    store = some (record shared { current = loaded });
  }

module _ {Value : Type 0} where
  -- The lock was not poisoned, the manifest is not older, and the store is another.
  pub record IsWritten (shared : Shared Value) (loaded : PreparedContentStore Value)
      (after : Shared Value) : Type 0 where
    pub usable : shared.poisoned ≡ false
    pub not_older : manifest_sequence shared.current ≤ℤ manifest_sequence loaded
    pub written : record shared { current = loaded } ≡ after

  pub try_swap-ok :
      (shared : Shared Value) (loaded : PreparedContentStore Value)
      → shared.poisoned ≡ false
      → ltb_ℤ (manifest_sequence loaded) (manifest_sequence shared.current) ≡ false
      → try_swap shared loaded ≡ ok (record shared { current = loaded })
  unfolding try_swap
  try_swap-ok shared loaded p newer = rw (p, newer) refl

  pub try_swap-IsWritten :
      (shared : Shared Value) (loaded : PreparedContentStore Value) (after : Shared Value)
      → try_swap shared loaded ≡ ok after
      → IsWritten shared loaded after
  unfolding try_swap
  try_swap-IsWritten shared loaded after h = elim (Bool-cases shared.poisoned) [
    | inl p ↦ absurd (ground (arith, h, p))
    | inr p ↦
        elim (Bool-cases (ltb_ℤ (manifest_sequence loaded) (manifest_sequence shared.current))) [
          | inl older ↦ absurd (ground (arith, h, p, older))
          | inr newer ↦ record {
            usable = p;
            not_older = ground arith;
            written = ok-injective (sym (try_swap-ok shared loaded p newer) ∙ h);
          }
        ]
  ]

module _ {Addr Value : Type 0} where
  pub written-IsSwapped :
      (state : ProxyState Addr Value) (shared after : Shared Value)
      (loaded : PreparedContentStore Value)
      → state.store ≡ some shared
      → IsWritten shared loaded after
      → IsSwapped state loaded (reloaded_state (record state { store = some after }) loaded)
  written-IsSwapped state shared after loaded h w =
      subst (λ a. IsSwapped state loaded (reloaded_state (record state { store = some a }) loaded))
        w.written
        (record {
          shared = shared;
          store_was = h;
          usable = w.usable;
          not_older = w.not_older;
          store_now = refl;
          config_kept = refl;
          counted = refl;
          expiry_cleared = refl;
          logged = refl;
        })
