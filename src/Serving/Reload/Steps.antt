-- ===== src/Serving/Reload/Steps.antt =====
-- The two listeners of crates/serving/src/lib.rs as a system of steps. A request is counted and reads
-- the store in one step and is answered in a later one; a reload loads its directory in one step and
-- takes the write lock in a later one, which writes the store and no more: each operation that
-- `reload_store` has behind the lock is a step of its own. Any number of both are under way at once.
-- What a request does to the counters, the flag and the log is done in the step of its answer.
use ajar_gateway.Common.{
  ◌≡◌, refl, sym, ap, Option, none, some, List, ◌∷◌, ◌++◌, Result, ok, err, arith, subst,
}
use ajar_gateway.Common.Int.{ℤ, ◌≤ℤ◌}
use ajar_gateway.Text.{Text}
use ajar_gateway.Store.FilePath.{FilePath}
use ajar_gateway.Store.Backend.{FileSystem}
use ajar_gateway.Store.Validate.{Serde}
use ajar_gateway.Store.Load.{PreparedContentStore, load_from_dir, manifest_sequence}
use ajar_gateway.Serving.Http.{Http, Request}
use ajar_gateway.Serving.State.{Shared, ProxyState, increment_requests_total}
use ajar_gateway.Serving.Problem.{ProxyHttpError}
use ajar_gateway.Serving.Proxy.{Exchange, current_store, with_store}
use ajar_gateway.Serving.Proxy.Laws.{with_store-IsKept}
use ajar_gateway.Serving.Reload.{
  Refusal, Rest, counting, clearing, announcing, try_swap, reload_failed, advance, remaining,
}
use ajar_gateway.Serving.Reload.Swap.{IsWritten, try_swap-IsWritten}
use ajar_gateway.Serving.Reload.Laws.{reload_failed-IsRefused}

-- A request of type `R` that is under way, with the store that it has read.
pub record Flight (R Value : Type 0) : Type 0 where
  pub asked : R
  pub snapshot : Result ProxyHttpError (Option (PreparedContentStore Value))

-- The shared state, the stores that reloads have loaded and not yet written, what the reloads that
-- have written have still to do, and the requests that are not yet answered.
pub record System (R Addr Value : Type 0) : Type 0 where
  pub state : ProxyState Addr Value
  pub pending : List (PreparedContentStore Value)
  pub settling : List (Rest Value)
  pub in_flight : List (Flight R Value)

module _ {H V U B : Type 0} (http : Http H V U B) {Addr Value S : Type 0} (serde : Serde Value)
    (fs : FileSystem S) where
  pub data Step
      : System (Request H U B) Addr Value → System (Request H U B) Addr Value → Type 0 where
    -- A request comes in on the public listener: it is counted and reads the store.
    arrive :
        (state : ProxyState Addr Value) (pending : List (PreparedContentStore Value))
        (settling : List (Rest Value)) (in_flight : List (Flight (Request H U B) Value))
        (r : Request H U B)
        → Step
            (record {
              state = state;
              pending = pending;
              settling = settling;
              in_flight = in_flight;
            })
            (record {
              state = increment_requests_total state;
              pending = pending;
              settling = settling;
              in_flight =
                  record { asked = r; snapshot = current_store (increment_requests_total state) }
                  ∷ in_flight;
            })
    -- A request is answered; the origin and the clock may answer anything.
    finish :
        (state : ProxyState Addr Value) (pending : List (PreparedContentStore Value))
        (settling : List (Rest Value)) (before after : List (Flight (Request H U B) Value))
        (flight : Flight (Request H U B) Value) (exchange : Request H U B → Exchange H B) (now : ℤ)
        → Step
            (record {
              state = state;
              pending = pending;
              settling = settling;
              in_flight = before ++ flight ∷ after;
            })
            (record {
              state = (with_store http exchange state flight.asked now flight.snapshot).1;
              pending = pending;
              settling = settling;
              in_flight = before ++ after;
            })
    -- A reload that has loaded its directory, as the file system is at the time.
    load :
        (state : ProxyState Addr Value) (pending : List (PreparedContentStore Value))
        (settling : List (Rest Value)) (in_flight : List (Flight (Request H U B) Value)) (s : S)
        (now : ℤ) (dir : FilePath) (loaded : PreparedContentStore Value)
        → state.config.store_dir ≡ some dir
        → load_from_dir serde fs s dir now ≡ ok loaded
        → Step
            (record {
              state = state;
              pending = pending;
              settling = settling;
              in_flight = in_flight;
            })
            (record {
              state = state;
              pending = loaded ∷ pending;
              settling = settling;
              in_flight = in_flight;
            })
    -- A reload that could not load.
    refuse :
        (state : ProxyState Addr Value) (pending : List (PreparedContentStore Value))
        (settling : List (Rest Value)) (in_flight : List (Flight (Request H U B) Value))
        (detail reason : Text)
        → Step
            (record {
              state = state;
              pending = pending;
              settling = settling;
              in_flight = in_flight;
            })
            (record {
              state = (reload_failed http state detail reason).1;
              pending = pending;
              settling = settling;
              in_flight = in_flight;
            })
    -- A reload that takes the write lock and writes its store.
    swap :
        (state : ProxyState Addr Value) (before after : List (PreparedContentStore Value))
        (settling : List (Rest Value)) (in_flight : List (Flight (Request H U B) Value))
        (shared swapped : Shared Value) (loaded : PreparedContentStore Value)
        → state.store ≡ some shared
        → try_swap shared loaded ≡ ok swapped
        → Step
            (record {
              state = state;
              pending = before ++ loaded ∷ after;
              settling = settling;
              in_flight = in_flight;
            })
            (record {
              state = record state { store = some swapped };
              pending = before ++ after;
              settling = counting loaded ∷ settling;
              in_flight = in_flight;
            })
    -- A reload that takes the write lock and may not write.
    give_up :
        (state : ProxyState Addr Value) (before after : List (PreparedContentStore Value))
        (settling : List (Rest Value)) (in_flight : List (Flight (Request H U B) Value))
        (shared : Shared Value) (loaded : PreparedContentStore Value) (refusal : Refusal)
        → state.store ≡ some shared
        → try_swap shared loaded ≡ err refusal
        → Step
            (record {
              state = state;
              pending = before ++ loaded ∷ after;
              settling = settling;
              in_flight = in_flight;
            })
            (record {
              state = (reload_failed http state refusal.detail refusal.reason).1;
              pending = before ++ after;
              settling = settling;
              in_flight = in_flight;
            })
    -- The next operation of a reload that has let go of the lock.
    settle :
        (state : ProxyState Addr Value) (pending : List (PreparedContentStore Value))
        (before after : List (Rest Value)) (in_flight : List (Flight (Request H U B) Value))
        (rest : Rest Value)
        → Step
            (record {
              state = state;
              pending = pending;
              settling = before ++ rest ∷ after;
              in_flight = in_flight;
            })
            (record {
              state = advance rest state;
              pending = pending;
              settling = before ++ (remaining rest ++ after);
              in_flight = in_flight;
            })

  pub data Reach
      : System (Request H U B) Addr Value → System (Request H U B) Addr Value → Type 0 where
    here : (a : System (Request H U B) Addr Value) → Reach a a
    and_then : (a b c : System (Request H U B) Addr Value) → Reach a b → Step b c → Reach a c

-- The store is still there, and its manifest is not older.
abbrev pub NotOlder : {Value : Type 0} → Option (Shared Value) → Option (Shared Value) → Type 0
NotOlder none none = Unit
NotOlder none (some _) = ⊥
NotOlder (some _) none = ⊥
NotOlder (some a) (some b) = manifest_sequence a.current ≤ℤ manifest_sequence b.current

NotOlder-refl : {Value : Type 0} (a : Option (Shared Value)) → NotOlder a a
NotOlder-refl none = tt
NotOlder-refl (some a) = omega arith

NotOlder-trans :
    {Value : Type 0} (a b c : Option (Shared Value)) → NotOlder a b → NotOlder b c → NotOlder a c
NotOlder-trans none none c h k = k
NotOlder-trans none (some b) c h k = absurd h
NotOlder-trans (some a) none c h k = absurd h
NotOlder-trans (some a) (some b) none h k = absurd k
NotOlder-trans (some a) (some b) (some c) h k = ground arith

NotOlder-some :
    {Value : Type 0} (a b : Option (Shared Value)) (x y : Shared Value)
    → a ≡ some x
    → b ≡ some y
    → manifest_sequence x.current ≤ℤ manifest_sequence y.current
    → NotOlder a b
NotOlder-some a b x y ha hb le = rw (ha, hb) le

module _ {Addr Value : Type 0} where
  IsWritten-NotOlder :
      (before : ProxyState Addr Value) (shared after : Shared Value)
      (loaded : PreparedContentStore Value)
      → before.store ≡ some shared
      → IsWritten shared loaded after
      → NotOlder before.store (some after)
  IsWritten-NotOlder before shared after loaded h w =
      NotOlder-some before.store (some after) shared (record shared { current = loaded }) h
        (ap some (sym w.written)) w.not_older

  -- Behind the lock the store is not touched.
  pub advance-store :
      (rest : Rest Value) (state : ProxyState Addr Value) → (advance rest state).store ≡ state.store
  advance-store (counting loaded) state = refl
  advance-store (clearing loaded) state = refl
  advance-store (announcing loaded) state = refl

NotOlder-kept : {Value : Type 0} (a b : Option (Shared Value)) → b ≡ a → NotOlder a b
NotOlder-kept a b h = subst (NotOlder a) (sym h) (NotOlder-refl a)

module _ {H V U B : Type 0} (http : Http H V U B) {Addr Value S : Type 0} (serde : Serde Value)
    (fs : FileSystem S) where
  Step-NotOlder :
      (a b : System (Request H U B) Addr Value)
      → Step http serde fs a b
      → NotOlder a.state.store b.state.store
  Step-NotOlder a b (arrive state pending settling in_flight r) = NotOlder-refl state.store
  Step-NotOlder a b (finish state pending settling before after flight exchange now) =
      NotOlder-kept state.store _
        (with_store-IsKept http exchange state flight.asked now flight.snapshot).store_kept
  Step-NotOlder a b (load state pending settling in_flight s now dir loaded dir_is loaded_is) =
      NotOlder-refl state.store
  Step-NotOlder a b (refuse state pending settling in_flight detail reason) =
      NotOlder-kept state.store _ (reload_failed-IsRefused http state detail reason).0.store_kept
  Step-NotOlder a b (swap state before after settling in_flight shared swapped loaded h written) =
      IsWritten-NotOlder state shared swapped loaded h
        (try_swap-IsWritten shared loaded swapped written)
  Step-NotOlder a b (give_up state before after settling in_flight shared loaded refusal h _) =
      NotOlder-kept state.store _
        (reload_failed-IsRefused http state refusal.detail refusal.reason).0.store_kept
  Step-NotOlder a b (settle state pending before after in_flight rest) =
      NotOlder-kept state.store _ (advance-store rest state)

  -- Whatever requests and reloads run, and in whatever order they take the lock, the sequence of the
  -- manifest that is served never goes down, and a gateway with a store keeps one.
  pub Reach-NotOlder :
      (a b : System (Request H U B) Addr Value)
      → Reach http serde fs a b
      → NotOlder a.state.store b.state.store
  Reach-NotOlder a _ (here _) = NotOlder-refl a.state.store
  Reach-NotOlder a c (and_then _ b _ path step) =
      NotOlder-trans a.state.store b.state.store c.state.store (Reach-NotOlder a b path)
        (Step-NotOlder b c step)
