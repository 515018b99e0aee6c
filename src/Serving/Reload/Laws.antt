-- ===== src/Serving/Reload/Laws.antt =====
-- `reload_store` of crates/serving/src/lib.rs, on each of its branches.
use ajar_gateway.Common.{
  ◌≡◌, refl, ap, ◌∙◌, ◌⊎◌, inl, inr, false, Option, none, some, Result, ok, err, arith,
}
use ajar_gateway.Common.Int.{ℤ, ◌≤ℤ◌, ltb_ℤ}
use ajar_gateway.Text.{Text}
use ajar_gateway.Store.Error.{StoreLoadError}
use ajar_gateway.Store.FilePath.{FilePath}
use ajar_gateway.Store.Backend.{FileSystem}
use ajar_gateway.Store.Validate.{Serde}
use ajar_gateway.Store.Load.{PreparedContentStore, load_from_dir, manifest_sequence}
use ajar_gateway.Serving.Http.{Http, Response}
use ajar_gateway.Serving.State.{Shared, ProxyState}
use ajar_gateway.Serving.Problem.{problem_response}
use ajar_gateway.Serving.Reload.{
  Refusal, try_swap, reload_failed, reload_from, loaded_answer, reloaded_state, commit_answer,
  commit, reload_store,
}
use ajar_gateway.Serving.Reload.Swap.{
  IsRefused, IsSwapped, with_current, try_swap-ok, try_swap-IsWritten, written-IsSwapped,
}

module _ {H V U B : Type 0} (http : Http H V U B) {Addr Value : Type 0} where
  pub reload_failed-IsRefused :
      (state : ProxyState Addr Value) (detail reason : Text)
      → IsRefused state (reload_failed http state detail reason).1
        × ((reload_failed http state detail reason).0.status ≡ 409)
  unfolding reload_failed problem_response
  reload_failed-IsRefused state detail reason = (
    record {
      store_kept = refl;
      config_kept = refl;
      expiry_kept = refl;
      counted = refl;
      reason = reason;
      detail = detail;
      logged = refl;
    },
    refl,
  )

  -- The two ways a commit or a reload may end, by its answer and the state behind it.
  abbrev pub Ended :
      ProxyState Addr Value
      → PreparedContentStore Value
      → Response H B × ProxyState Addr Value
      → Type 0
  Ended before loaded (response, after) =
      ((response.status ≡ 200) × IsSwapped before loaded after)
      ⊎ ((response.status ≡ 409) × IsRefused before after)

  refused :
      (state : ProxyState Addr Value) (loaded : PreparedContentStore Value) (detail reason : Text)
      → Ended state loaded (reload_failed http state detail reason)
  refused state loaded detail reason =
      let (kept, status) = reload_failed-IsRefused state detail reason in inr (status, kept)

  commit_answer-Ended :
      (state : ProxyState Addr Value) (shared : Shared Value) (loaded : PreparedContentStore Value)
      → state.store ≡ some shared
      → (r : Result Refusal (Shared Value)) → try_swap shared loaded ≡ r
      → Ended state loaded (commit_answer http state loaded r)
  commit_answer-Ended state shared loaded h (err refusal) e =
      refused state loaded refusal.detail refusal.reason
  commit_answer-Ended state shared loaded h (ok after) e = inl (
    refl,
    written-IsSwapped state shared after loaded h (try_swap-IsWritten shared loaded after e),
  )

  commit-Ended :
      (state : ProxyState Addr Value) (shared : Shared Value) (loaded : PreparedContentStore Value)
      → state.store ≡ some shared
      → Ended state loaded (commit http state shared loaded)
  unfolding commit
  commit-Ended state shared loaded h =
      commit_answer-Ended state shared loaded h (try_swap shared loaded) refl

  commit_swap :
      (state : ProxyState Addr Value) (shared : Shared Value) (loaded : PreparedContentStore Value)
      → shared.poisoned ≡ false
      → ltb_ℤ (manifest_sequence loaded) (manifest_sequence shared.current) ≡ false
      → ((commit http state shared loaded).0.status ≡ 200)
        × ((commit http state shared loaded).1
            ≡ reloaded_state (with_current state shared loaded) loaded)
  unfolding commit
  commit_swap state shared loaded p newer = rw (try_swap-ok shared loaded p newer) (refl, refl)

module _ {Addr Value S : Type 0} (serde : Serde Value) (fs : FileSystem S) (s : S) where
  -- A reload that loads the directory of the configuration and swaps the store for it.
  pub record IsReloaded (now : ℤ) (before after : ProxyState Addr Value) : Type 0 where
    pub store_dir : FilePath
    pub store_dir_is : before.config.store_dir ≡ some store_dir
    pub loaded : PreparedContentStore Value
    pub loaded_is : load_from_dir serde fs s store_dir now ≡ ok loaded
    pub swapped : IsSwapped before loaded after

module _ {H V U B : Type 0} (http : Http H V U B) {Addr Value S : Type 0} (serde : Serde Value)
    (fs : FileSystem S) (s : S) where
  -- The ways a reload may be answered, with the state behind it.
  pub data Answered (now : ℤ) (before : ProxyState Addr Value)
      (answer : Response H B × ProxyState Addr Value) : Type 0 where
    reloaded :
        answer.0.status ≡ 200
        → IsReloaded serde fs s now before answer.1
        → Answered now before answer
    unchanged : answer.0.status ≡ 409 → IsRefused before answer.1 → Answered now before answer

  from_refused :
      (state : ProxyState Addr Value) (now : ℤ) (detail reason : Text)
      → Answered now state (reload_failed http state detail reason)
  from_refused state now detail reason =
      let (kept, status) = reload_failed-IsRefused http state detail reason in unchanged status kept

  loaded-Answered :
      (state : ProxyState Addr Value) (now : ℤ) (dir : FilePath) (shared : Shared Value)
      → state.config.store_dir ≡ some dir
      → state.store ≡ some shared
      → (r : Result StoreLoadError (PreparedContentStore Value))
      → load_from_dir serde fs s dir now ≡ r
      → Answered now state (loaded_answer http state shared r)
  loaded-Answered state now dir shared dir_is shared_is (err e) h = from_refused state now _ _
  loaded-Answered state now dir shared dir_is shared_is (ok loaded) h =
      elim (commit-Ended http state shared loaded shared_is) [
        | inl (status, swapped) ↦ reloaded status (record {
          store_dir = dir;
          store_dir_is = dir_is;
          loaded = loaded;
          loaded_is = h;
          swapped = swapped;
        })
        | inr (status, refusal) ↦ unchanged status refusal
      ]

  from-Answered :
      (state : ProxyState Addr Value) (now : ℤ) (d : Option FilePath) (st : Option (Shared Value))
      → state.config.store_dir ≡ d
      → state.store ≡ st
      → Answered now state
          (reload_from http (λ store_dir. load_from_dir serde fs s store_dir now) state d st)
  from-Answered state now none st d_is st_is = from_refused state now _ _
  from-Answered state now (some dir) none d_is st_is = from_refused state now _ _
  from-Answered state now (some dir) (some shared) d_is st_is =
      loaded-Answered state now dir shared d_is st_is (load_from_dir serde fs s dir now) refl

  -- A reload answers 200 or 409. With 200 the directory was loaded, the lock was not poisoned, the
  -- manifest is not older than that of the store that was served, the loaded store is behind the
  -- lock, the configuration is kept, of the metrics only the count of reloads is another, by one,
  -- the flag of the logged expiry is cleared, and the log has one line more, on this reload. With 409
  -- the store, the configuration and the flag are kept, and the failure is counted and logged.
  pub reload_store-Answered :
      (state : ProxyState Addr Value) (now : ℤ)
      → Answered now state (reload_store http serde fs s state now)
  unfolding reload_store
  reload_store-Answered state now =
      from-Answered state now state.config.store_dir state.store refl refl

  -- A reload with a directory that loads, a lock that is not poisoned and a manifest that is not
  -- older than the one served is answered with 200, and the loaded store is the one served.
  pub reload_store-swap :
      (state : ProxyState Addr Value) (now : ℤ) (dir : FilePath) (shared : Shared Value)
      (loaded : PreparedContentStore Value)
      → state.config.store_dir ≡ some dir
      → state.store ≡ some shared
      → load_from_dir serde fs s dir now ≡ ok loaded
      → shared.poisoned ≡ false
      → manifest_sequence shared.current ≤ℤ manifest_sequence loaded
      → ((reload_store http serde fs s state now).0.status ≡ 200)
        × ((reload_store http serde fs s state now).1
            ≡ reloaded_state (with_current state shared loaded) loaded)
  unfolding reload_store
  reload_store-swap state now dir shared loaded dir_is shared_is loaded_is usable newer =
      let run =
        ap
          (λ d.
            reload_from http (λ store_dir. load_from_dir serde fs s store_dir now) state d
              state.store)
          dir_is
        ∙ (ap
              (λ st.
                reload_from http (λ store_dir. load_from_dir serde fs s store_dir now) state
                  (some dir) st)
              shared_is
            ∙ ap (λ r. loaded_answer http state shared r) loaded_is) in
      let (status, after) = commit_swap http state shared loaded usable (ground arith) in
      (
        ap (λ (a : Response H B × ProxyState Addr Value). a.0.status) run ∙ status,
        ap (λ (a : Response H B × ProxyState Addr Value). a.1) run ∙ after,
      )
