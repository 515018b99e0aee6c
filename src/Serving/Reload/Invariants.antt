-- ===== src/Serving/Reload/Invariants.antt =====
-- What holds in every state that the listeners of crates/serving/src/lib.rs reach: where the served
-- store comes from, and how often the expiry of the manifest is logged.
use ajar_gateway.Common.{
  ℕ, ◌+◌, [], ◌∷◌, ◌++◌, arith, ◌≡◌, sym, ap, ◌∙◌, some, ok, subst, All, All-append, All-split,
  some-injective,
}
use ajar_gateway.Common.Int.{ℤ}
use ajar_gateway.Store.FilePath.{FilePath}
use ajar_gateway.Store.Backend.{FileSystem}
use ajar_gateway.Store.Validate.{Serde}
use ajar_gateway.Store.Load.{PreparedContentStore}
use ajar_gateway.Store.Load.Prepared.{IsPrepared, load_from_dir-IsPrepared}
use ajar_gateway.Serving.Http.{Http, Request}
use ajar_gateway.Serving.State.{Shared, ProxyState, increment_requests_total}
use ajar_gateway.Serving.Proxy.{current_store, with_store}
use ajar_gateway.Serving.Proxy.Laws.{with_store-IsKept}
use ajar_gateway.Serving.Proxy.Offer.{current-IsUsable}
use ajar_gateway.Serving.Reload.{reload_failed, advance, remaining}
use ajar_gateway.Serving.Reload.Swap.{IsWritten, try_swap-IsWritten}
use ajar_gateway.Serving.Reload.Laws.{reload_failed-IsRefused}
use ajar_gateway.Serving.Reload.Steps.{
  System, Flight, Step, arrive, finish, load, refuse, swap, give_up, settle, Reach, here, and_then,
  advance-store,
}
use ajar_gateway.Serving.Reload.Quiet.{
  IsQuietState, SameLog-IsQuiet, IsRefused-IsQuiet, advance-IsQuiet, cleared, cleared-append,
}

module _ {R Addr Value : Type 0} where
  abbrev pub IsQuietSystem : System R Addr Value → Type 0
  IsQuietSystem a = IsQuietState (cleared a.settling) a.state

module _ {Addr Value : Type 0} where
  IsQuietState-same :
      (m n : ℕ) (state : ProxyState Addr Value)
      → m ≡ n
      → IsQuietState m state
      → IsQuietState n state
  IsQuietState-same m n state same q = subst (λ k. IsQuietState k state) same q

module _ {H V U B : Type 0} (http : Http H V U B) {Addr Value S : Type 0} (serde : Serde Value)
    (fs : FileSystem S) where
  Step-IsQuiet :
      (a b : System (Request H U B) Addr Value)
      → Step http serde fs a b
      → IsQuietSystem a
      → IsQuietSystem b
  Step-IsQuiet a b (arrive state pending settling in_flight r) q = q
  Step-IsQuiet a b (finish state pending settling before after flight exchange now) q =
      SameLog-IsQuiet (cleared settling) state
        (with_store http exchange state flight.asked now flight.snapshot).1
        (with_store-IsKept http exchange state flight.asked now flight.snapshot).log_kept q
  Step-IsQuiet a b (load state pending settling in_flight s now dir loaded dir_is loaded_is) q = q
  Step-IsQuiet a b (refuse state pending settling in_flight detail reason) q =
      IsRefused-IsQuiet (cleared settling) state (reload_failed http state detail reason).1
        (reload_failed-IsRefused http state detail reason).0 q
  Step-IsQuiet a b (swap state before after settling in_flight shared swapped loaded h written) q =
      q
  Step-IsQuiet a b (give_up state before after settling in_flight shared loaded refusal h _) q =
      IsRefused-IsQuiet (cleared settling) state
        (reload_failed http state refusal.detail refusal.reason).1
        (reload_failed-IsRefused http state refusal.detail refusal.reason).0 q
  Step-IsQuiet a b (settle state pending before after in_flight rest) q =
      IsQuietState-same (cleared before + cleared after + cleared (remaining rest))
        (cleared (before ++ (remaining rest ++ after))) (advance rest state)
        (omega (
          arith,
          cleared-append before (remaining rest ++ after),
          cleared-append (remaining rest) after,
        ))
        (advance-IsQuiet (cleared before + cleared after) rest state (
          IsQuietState-same (cleared (before ++ rest ∷ after))
            (cleared before + cleared after + cleared (rest ∷ [])) state
            (omega (arith, cleared-append before (rest ∷ after), cleared-append (rest ∷ []) after))
            q))

  -- However the operations of requests and reloads follow one another: the lines on the expiry are
  -- at most as many as the lines on a reload, the reloads that have cleared the flag and not yet
  -- written their line, and one more where the flag is set; if this is so at the start.
  pub Reach-IsQuiet :
      (a b : System (Request H U B) Addr Value)
      → Reach http serde fs a b
      → IsQuietSystem a
      → IsQuietSystem b
  Reach-IsQuiet a _ (here _) q = q
  Reach-IsQuiet a c (and_then _ b _ path step) q = Step-IsQuiet b c step (Reach-IsQuiet a b path q)

module _ {Value S : Type 0} (serde : Serde Value) (fs : FileSystem S) where
  -- A store that some state of the file system gave, at some time.
  pub record IsSourced (store : PreparedContentStore Value) : Type 0 where
    pub files : S
    pub dir : FilePath
    pub loaded_at : ℤ
    pub prepared : IsPrepared serde fs files dir loaded_at store

module _ {R Value S : Type 0} (serde : Serde Value) (fs : FileSystem S) where
  -- The store that a request has read, if there is one, is a prepared one.
  abbrev pub ReadsSourced : Flight R Value → Type 0
  ReadsSourced flight =
      (store : PreparedContentStore Value)
      → flight.snapshot ≡ ok (some store)
      → IsSourced serde fs store

module _ {R Addr Value S : Type 0} (serde : Serde Value) (fs : FileSystem S) where
  -- The store that is served, those that wait for the lock, and those that requests under way have
  -- read are prepared ones.
  pub record IsSound (a : System R Addr Value) : Type 0 where
    pub served :
        (shared : Shared Value) → a.state.store ≡ some shared → IsSourced serde fs shared.current
    pub waiting : All (IsSourced serde fs) a.pending
    pub reading : All (ReadsSourced serde fs) a.in_flight

module _ {Addr Value S : Type 0} (serde : Serde Value) (fs : FileSystem S) where
  counted-IsSourced :
      (state : ProxyState Addr Value)
      → ((shared : Shared Value) → state.store ≡ some shared → IsSourced serde fs shared.current)
      → (store : PreparedContentStore Value)
      → current_store (increment_requests_total state) ≡ ok (some store)
      → IsSourced serde fs store
  counted-IsSourced state served store h =
      let (shared, is_shared, _, is_store) =
        current-IsUsable (increment_requests_total state) store h in
      subst (IsSourced serde fs) is_store (served shared is_shared)

module _ {Value S : Type 0} (serde : Serde Value) (fs : FileSystem S) where
  written-IsSourced :
      (x after : Shared Value) (loaded : PreparedContentStore Value)
      → IsWritten x loaded after
      → IsSourced serde fs loaded
      → (shared : Shared Value) → some after ≡ some shared
      → IsSourced serde fs shared.current
  written-IsSourced x after loaded w sourced shared h =
      subst (IsSourced serde fs)
        (ap (λ (y : Shared Value). y.current) (w.written ∙ some-injective _ _ h)) sourced

module _ {H V U B : Type 0} (http : Http H V U B) {Addr Value S : Type 0} (serde : Serde Value)
    (fs : FileSystem S) where
  Step-IsSound :
      (a b : System (Request H U B) Addr Value)
      → Step http serde fs a b
      → IsSound serde fs a
      → IsSound serde fs b
  Step-IsSound a b (arrive state pending settling in_flight r) sound = record {
    served = sound.served;
    waiting = sound.waiting;
    reading = (counted-IsSourced serde fs state sound.served, sound.reading);
  }
  Step-IsSound a b (finish state pending settling before after flight exchange now) sound =
      let (earlier, _, later) =
        All-split (ReadsSourced serde fs) before flight after sound.reading in
      let kept = with_store-IsKept http exchange state flight.asked now flight.snapshot in
      record {
        served = λ shared h. sound.served shared (sym kept.store_kept ∙ h);
        waiting = sound.waiting;
        reading = All-append (ReadsSourced serde fs) before after earlier later;
      }
  Step-IsSound a b (load state pending settling in_flight s now dir loaded dir_is loaded_is) sound =
      record {
        served = sound.served;
        waiting = (
          record {
            files = s;
            dir = dir;
            loaded_at = now;
            prepared = load_from_dir-IsPrepared serde fs s dir now loaded loaded_is;
          },
          sound.waiting,
        );
        reading = sound.reading;
      }
  Step-IsSound a b (refuse state pending settling in_flight detail reason) sound = record {
    served = λ shared h.
        sound.served shared
          (sym (reload_failed-IsRefused http state detail reason).0.store_kept ∙ h);
    waiting = sound.waiting;
    reading = sound.reading;
  }
  Step-IsSound a b (swap state before after settling in_flight shared swapped loaded h written)
        sound =
      let (earlier, sourced, later_on) =
        All-split (IsSourced serde fs) before loaded after sound.waiting in
      record {
        served =
            written-IsSourced serde fs shared swapped loaded
              (try_swap-IsWritten shared loaded swapped written) sourced;
        waiting = All-append (IsSourced serde fs) before after earlier later_on;
        reading = sound.reading;
      }
  Step-IsSound a b (give_up state before after settling in_flight shared loaded refusal h _) sound =
      let (earlier, _, later_on) =
        All-split (IsSourced serde fs) before loaded after sound.waiting in
      let refused = (reload_failed-IsRefused http state refusal.detail refusal.reason).0 in
      record {
        served = λ x k. sound.served x (sym refused.store_kept ∙ k);
        waiting = All-append (IsSourced serde fs) before after earlier later_on;
        reading = sound.reading;
      }
  Step-IsSound a b (settle state pending before after in_flight rest) sound = record {
    served = λ x k. sound.served x (sym (advance-store rest state) ∙ k);
    waiting = sound.waiting;
    reading = sound.reading;
  }

  -- In every state that is reached, the store that is served, each store that a reload holds before
  -- it takes the lock, and each store that a request under way has read, is a prepared one, if this
  -- is so at the start.
  pub Reach-IsSound :
      (a b : System (Request H U B) Addr Value)
      → Reach http serde fs a b
      → IsSound serde fs a
      → IsSound serde fs b
  Reach-IsSound a _ (here _) sound = sound
  Reach-IsSound a c (and_then _ b _ path step) sound =
      Step-IsSound b c step (Reach-IsSound a b path sound)
