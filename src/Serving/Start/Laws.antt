-- ===== src/Serving/Start/Laws.antt =====
-- From the start of the gateway to every state that its listeners reach, in
-- crates/serving/src/lib.rs.
use ajar_gateway.Common.{
  ◌≡◌, refl, ap, ◌∙◌, Bool, not, Option, none, some, List, [], ◌∷◌, Result, ok, err, fail_if,
  >>=-eq-ok, ok-injective, some-injective, subst, arith,
}
use ajar_gateway.Common.Int.{ℤ}
use ajar_gateway.Store.Error.{StoreLoadError}
use ajar_gateway.Store.FilePath.{FilePath}
use ajar_gateway.Store.Backend.{FileSystem}
use ajar_gateway.Store.Validate.{Serde}
use ajar_gateway.Store.Load.{PreparedContentStore, load_from_dir}
use ajar_gateway.Store.Load.Prepared.{load_from_dir-IsPrepared}
use ajar_gateway.Serving.Http.{Http, Request}
use ajar_gateway.Serving.Config.{GatewayConfig, validate, validate_iff, bind_failed}
use ajar_gateway.Serving.State.{Shared, ProxyState}
use ajar_gateway.Serving.Reload.Steps.{System, Reach, NotOlder, Reach-NotOlder}
use ajar_gateway.Serving.Reload.Quiet.{IsQuietState, cleared}
use ajar_gateway.Serving.Reload.Invariants.{Reach-IsQuiet, IsSourced, IsSound, Reach-IsSound}
use ajar_gateway.Serving.Reload.Publication.{served_store, IsHistory, Reach-IsHistory}
use ajar_gateway.Serving.Start.{shared_store, initial_store, start}

-- The system before the first step.
abbrev pub started : {R Addr Value : Type 0} → ProxyState Addr Value → System R Addr Value
started state = record { state = state; pending = []; settling = []; in_flight = [] }

module _ {Value S : Type 0} (serde : Serde Value) (fs : FileSystem S) (s : S) where
  shared-IsSourced :
      (path : FilePath) (now : ℤ) (r : Result StoreLoadError (PreparedContentStore Value))
      → load_from_dir serde fs s path now ≡ r
      → (shared : Shared Value) → shared_store r ≡ ok (some shared)
      → IsSourced serde fs shared.current
  shared-IsSourced path now (err e) loaded shared h = absurd (ground (arith, h))
  shared-IsSourced path now (ok store) loaded shared h =
      subst (IsSourced serde fs)
        (ap (λ (x : Shared Value). x.current) (some-injective _ _ (ok-injective h)))
        (record {
          files = s;
          dir = path;
          loaded_at = now;
          prepared = load_from_dir-IsPrepared serde fs s path now store loaded;
        })

  initial-IsSourced :
      (dir : Option FilePath) (now : ℤ) (shared : Shared Value)
      → initial_store serde fs s dir now ≡ ok (some shared)
      → IsSourced serde fs shared.current
  initial-IsSourced none now shared h = absurd (ground (arith, h))
  initial-IsSourced (some path) now shared h =
      shared-IsSourced path now (load_from_dir serde fs s path now) refl shared h

module _ {Value S : Type 0} (serde : Serde Value) (fs : FileSystem S) (s : S) where
  -- The store at the start: that of the directory, if one is configured.
  pub data IsLoaded (now : ℤ) : Option FilePath → Option (PreparedContentStore Value) → Type 0 where
    no_directory : IsLoaded now none none
    from_directory :
        (path : FilePath) (loaded : PreparedContentStore Value)
        → load_from_dir serde fs s path now ≡ ok loaded
        → IsLoaded now (some path) (some loaded)

  shared-IsLoaded :
      (path : FilePath) (now : ℤ) (r : Result StoreLoadError (PreparedContentStore Value))
      (store : Option (Shared Value))
      → load_from_dir serde fs s path now ≡ r
      → shared_store r ≡ ok store
      → IsLoaded now (some path) (served_store store)
  shared-IsLoaded path now (err e) store loads h = absurd (ground (arith, h))
  shared-IsLoaded path now (ok loaded) store loads h =
      subst (λ o. IsLoaded now (some path) (served_store o)) (ok-injective h)
        (from_directory path loaded loads)

  initial-IsLoaded :
      (dir : Option FilePath) (now : ℤ) (store : Option (Shared Value))
      → initial_store serde fs s dir now ≡ ok store
      → IsLoaded now dir (served_store store)
  initial-IsLoaded none now store h =
      subst (λ o. IsLoaded now none (served_store o)) (ok-injective h) no_directory
  initial-IsLoaded (some path) now store h =
      shared-IsLoaded path now (load_from_dir serde fs s path now) store refl h

module _ {H V U B Addr Value S : Type 0} (http : Http H V U B) (serde : Serde Value)
    (fs : FileSystem S) (s : S) where
  -- A state that the gateway starts in.
  record IsInitial (config : GatewayConfig Addr) (now : ℤ) (state : ProxyState Addr Value)
      : Type 0 where
    loaded : IsLoaded serde fs s now config.store_dir (served_store state.store)
    sound : IsSound {R = Request H U B} serde fs (started state)
    quiet : IsQuietState 0 state

  start-IsInitial :
      (binds : List Addr → Addr → Bool) (config : GatewayConfig Addr) (now : ℤ)
      (state : ProxyState Addr Value)
      → start http serde fs s binds config now ≡ ok state
      → IsInitial config now state
  unfolding start
  start-IsInitial binds config now state h =
      let (valid, is_valid, h1) = >>=-eq-ok (validate http config) _ h in
      let (store, store_is, h2) = >>=-eq-ok (initial_store serde fs s valid.store_dir now) _ h1 in
      let (_, _, h3) = >>=-eq-ok (fail_if (not (binds [] valid.listen_addr)) bind_failed) _ h2 in
      let (_, _, h4) =
        >>=-eq-ok (fail_if (not (binds (valid.listen_addr ∷ []) valid.admin_addr)) bind_failed) _
          h3 in
      let same_dir = ((validate_iff http config valid).0 is_valid).store_kept in
      subst (IsInitial config now) (ok-injective h4) (record {
        loaded =
            subst (λ d. IsLoaded serde fs s now d (served_store store)) same_dir
              (initial-IsLoaded serde fs s valid.store_dir now store store_is);
        sound = record {
          served = λ shared k.
              initial-IsSourced serde fs s valid.store_dir now shared (store_is ∙ ap ok k);
          waiting = tt;
          reading = tt;
        };
        quiet = omega arith;
      })

  -- What holds of a system that came from a start.
  pub record IsServing (config : GatewayConfig Addr) (now : ℤ) (state : ProxyState Addr Value)
      (b : System (Request H U B) Addr Value) : Type 0 where
    pub loaded : IsLoaded serde fs s now config.store_dir (served_store state.store)
    pub history : IsHistory serde fs (started state) b
    pub sound : IsSound serde fs b
    pub not_older : NotOlder state.store b.state.store
    pub quiet : IsQuietState (cleared b.settling) b.state

  -- From a successful start, and through any order of the operations of requests and reloads: the
  -- gateway starts with the store that was loaded from the configured directory, and with none
  -- where none is configured; what it serves later is that store after a number of publications,
  -- each of a prepared store whose manifest is not older than the one before, and so never older
  -- than the first; every store that a request or a reload under way holds is prepared; there is a
  -- line on a reload for each publication whose reload has written it; and the lines on the expiry
  -- are at most as many as those lines, the reloads that have cleared the flag and not yet written
  -- theirs, and one more where the flag is set.
  pub start-Reach :
      (binds : List Addr → Addr → Bool) (config : GatewayConfig Addr) (now : ℤ)
      (state : ProxyState Addr Value) (b : System (Request H U B) Addr Value)
      → start http serde fs s binds config now ≡ ok state
      → Reach http serde fs (started state) b
      → IsServing config now state b
  start-Reach binds config now state b h path =
      let initial = start-IsInitial binds config now state h in
      record {
        loaded = initial.loaded;
        history = Reach-IsHistory http serde fs (started state) b initial.sound path;
        sound = Reach-IsSound http serde fs (started state) b path initial.sound;
        not_older = Reach-NotOlder http serde fs (started state) b path;
        quiet = Reach-IsQuiet http serde fs (started state) b path initial.quiet;
      }
