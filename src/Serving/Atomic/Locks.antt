-- ===== src/Serving/Atomic/Locks.antt =====
-- Requests and reloads of crates/serving/src/lib.rs that are under way at once, down to their atomic
-- operations. A request has its store. A reload stands at the write lock with its directory loaded;
-- what it compares its manifest with is the store that is there when it gets the lock.
use mathlib.Core.List.{Permᴰ}
use ajar_gateway.Common.{
  ℕ, ◌+◌, ◌≡◌, refl, sym, ap, ◌∙◌, Option, none, some, List, [], ◌∷◌, ◌++◌, Result, ok, err, arith,
  subst,
}
use ajar_gateway.Store.Load.{PreparedContentStore, manifest_sequence, view_count}
use ajar_gateway.Serving.State.{Shared, ProxyState}
use ajar_gateway.Serving.Reload.{Refusal, try_swap}
use ajar_gateway.Serving.Atomic.{
  Counter, store_reloads, store_reload_failures, Effect, add, clear_expiry, announce, complain,
  count, apply,
}
use ajar_gateway.Serving.Atomic.Schedules.{
  read, bumped, bumped_add, weight, read-apply, config-apply, store-apply,
}

-- What is still to be done: a row of operations, or all of a reload from the lock on.
pub data Thread (Value : Type 0) : Type 0 where
  row : List (Effect Value) → Thread Value
  at_lock : PreparedContentStore Value → Thread Value

module _ {Value : Type 0} where
  -- What a reload does once it has let go of the lock.
  abbrev pub what_follows :
      Result Refusal (Shared Value) → PreparedContentStore Value → List (Effect Value)
  what_follows (err refusal) loaded =
      add store_reload_failures ∷ complain refusal.reason refusal.detail ∷ []
  what_follows (ok swapped) loaded =
      add store_reloads
      ∷ clear_expiry
      ∷ announce (view_count loaded) (manifest_sequence loaded)
      ∷ []

  -- What is then behind the lock.
  abbrev pub behind : Result Refusal (Shared Value) → Shared Value → Shared Value
  behind (err refusal) shared = shared
  behind (ok swapped) shared = swapped

module _ {Addr Value : Type 0} where
  -- From one state to another, by all of the operations of a pool of threads: each thread takes its
  -- own in their order, and the threads take turns in any. The reloads get the lock in the order of
  -- the list.
  pub data Runs
      : List (Thread Value)
        → List (PreparedContentStore Value)
        → ProxyState Addr Value
        → ProxyState Addr Value
        → Type 0 where
    finished : (state : ProxyState Addr Value) → Runs [] [] state state
    passed :
        (pool : List (Thread Value)) (order : List (PreparedContentStore Value))
        (state last : ProxyState Addr Value)
        → Runs pool order state last
        → Runs (row [] ∷ pool) order state last
    takes :
        (before after : List (Thread Value)) (order : List (PreparedContentStore Value))
        (e : Effect Value) (es : List (Effect Value)) (state last : ProxyState Addr Value)
        → Runs (before ++ row es ∷ after) order (apply e state) last
        → Runs (before ++ row (e ∷ es) ∷ after) order state last
    locks :
        (before after : List (Thread Value)) (order : List (PreparedContentStore Value))
        (loaded : PreparedContentStore Value) (shared : Shared Value)
        (state last : ProxyState Addr Value)
        → state.store ≡ some shared
        → Runs
            (before ++ row (what_follows (try_swap shared loaded) loaded) ∷ after)
            order
            (record state { store = some (behind (try_swap shared loaded) shared) })
            last
        → Runs (before ++ at_lock loaded ∷ after) (loaded ∷ order) state last

module _ {Value : Type 0} where
  abbrev thread_count : (Effect Value → ℕ) → Thread Value → ℕ
  thread_count w (row es) = count w es
  thread_count w (at_lock loaded) = 0

  unfoldable pub pool_count : (Effect Value → ℕ) → List (Thread Value) → ℕ
  pool_count w [] = 0
  pool_count w (thread ∷ pool) = thread_count w thread + pool_count w pool

  -- The reloads of the list one after the other: how often they count, and the store behind them.
  unfoldable pub lock_count :
      Counter → List (PreparedContentStore Value) → Option (Shared Value) → ℕ
  lock_count c [] store = 0
  lock_count c (loaded ∷ order) none = lock_count c order none
  lock_count c (loaded ∷ order) (some shared) =
      count (weight c) (what_follows (try_swap shared loaded) loaded)
      + lock_count c order (some (behind (try_swap shared loaded) shared))

  unfoldable pub store_after :
      List (PreparedContentStore Value) → Option (Shared Value) → Option (Shared Value)
  store_after [] store = store
  store_after (loaded ∷ order) none = store_after order none
  store_after (loaded ∷ order) (some shared) =
      store_after order (some (behind (try_swap shared loaded) shared))

  -- The reloads that have not yet had the lock.
  unfoldable pub waiting : List (Thread Value) → List (PreparedContentStore Value)
  waiting [] = []
  waiting (row es ∷ pool) = waiting pool
  waiting (at_lock loaded ∷ pool) = loaded ∷ waiting pool

  pool_count-middle :
      (w : Effect Value → ℕ) (before after : List (Thread Value)) (thread : Thread Value)
      → pool_count w (before ++ thread ∷ after)
        ≡ pool_count w before + thread_count w thread + pool_count w after
  unfolding pool_count
  pool_count-middle w [] after thread = omega arith
  pool_count-middle w (t ∷ before) after thread =
      omega (arith, pool_count-middle w before after thread)

  waiting-row :
      (before after : List (Thread Value)) (es fs : List (Effect Value))
      → waiting (before ++ row es ∷ after) ≡ waiting (before ++ row fs ∷ after)
  unfolding waiting
  waiting-row [] after es fs = refl
  waiting-row (row gs ∷ before) after es fs = waiting-row before after es fs
  waiting-row (at_lock loaded ∷ before) after es fs =
      ap (λ ls. loaded ∷ ls) (waiting-row before after es fs)

  same_order : (ls : List (PreparedContentStore Value)) → Permᴰ ls ls
  same_order [] = Permᴰ.nil
  same_order (l ∷ ls) = Permᴰ.cons refl (same_order ls)

  waiting-at_lock :
      (before after : List (Thread Value)) (loaded : PreparedContentStore Value)
      (es : List (Effect Value))
      → Permᴰ
          (loaded ∷ waiting (before ++ row es ∷ after))
          (waiting (before ++ at_lock loaded ∷ after))
  unfolding waiting
  waiting-at_lock [] after loaded es = same_order _
  waiting-at_lock (row gs ∷ before) after loaded es = waiting-at_lock before after loaded es
  waiting-at_lock (at_lock first ∷ before) after loaded es =
      Permᴰ.trans (Permᴰ.swap refl refl) (Permᴰ.cons refl (waiting-at_lock before after loaded es))

module _ {Addr Value : Type 0} where
  pub Runs-read :
      (c : Counter) (pool : List (Thread Value)) (order : List (PreparedContentStore Value))
      (state last : ProxyState Addr Value)
      → Runs pool order state last
      → read c last.metrics
        ≡ bumped
            (pool_count (weight c) pool + lock_count c order state.store)
            (read c state.metrics)
  unfolding pool_count lock_count bumped count
  Runs-read c _ _ _ _ (finished state) = refl
  Runs-read c _ _ _ _ (passed pool order state last run) =
      let same : pool_count (weight c) pool + lock_count c order state.store
          ≡ pool_count (weight c) (row [] ∷ pool) + lock_count c order state.store =
        omega arith in
      Runs-read c pool order state last run ∙ ap (λ n. bumped n (read c state.metrics)) same
  Runs-read c _ _ _ _ (takes before after order e es state last run) =
      let rest =
        pool_count (weight c) (before ++ row es ∷ after) + lock_count c order state.store in
      let all : weight c e + rest
          ≡ pool_count (weight c) (before ++ row (e ∷ es) ∷ after)
            + lock_count c order state.store =
        omega (
          arith,
          pool_count-middle (weight c) before after (row es),
          pool_count-middle (weight c) before after (row (e ∷ es)),
        ) in
      Runs-read c (before ++ row es ∷ after) order (apply e state) last run
      ∙ ap
          (λ st.
            bumped (pool_count (weight c) (before ++ row es ∷ after) + lock_count c order st)
              (read c (apply e state).metrics))
          (store-apply e state)
      ∙ ap (bumped rest) (read-apply c e state)
      ∙ sym (bumped_add (weight c e) rest (read c state.metrics))
      ∙ ap (λ n. bumped n (read c state.metrics)) all
  Runs-read c _ _ _ _ (locks before after order loaded shared state last is_shared run) =
      let next = row (what_follows (try_swap shared loaded) loaded) in
      let moved = some (behind (try_swap shared loaded) shared) in
      let all : pool_count (weight c) (before ++ next ∷ after) + lock_count c order moved
          ≡ pool_count (weight c) (before ++ at_lock loaded ∷ after)
            + lock_count c (loaded ∷ order) (some shared) =
        omega (
          arith,
          pool_count-middle (weight c) before after next,
          pool_count-middle (weight c) before after (at_lock loaded),
        ) in
      Runs-read c (before ++ next ∷ after) order (record state { store = moved }) last run
      ∙ ap (λ n. bumped n (read c state.metrics)) all
      ∙ ap
          (λ st.
            bumped
              (pool_count (weight c) (before ++ at_lock loaded ∷ after)
                + lock_count c (loaded ∷ order) st)
              (read c state.metrics))
          (sym is_shared)

  pub Runs-store :
      (pool : List (Thread Value)) (order : List (PreparedContentStore Value))
      (state last : ProxyState Addr Value)
      → Runs pool order state last
      → last.store ≡ store_after order state.store
  unfolding store_after
  Runs-store _ _ _ _ (finished state) = refl
  Runs-store _ _ _ _ (passed pool order state last run) = Runs-store pool order state last run
  Runs-store _ _ _ _ (takes before after order e es state last run) =
      Runs-store (before ++ row es ∷ after) order (apply e state) last run
      ∙ ap (store_after order) (store-apply e state)
  Runs-store _ _ _ _ (locks before after order loaded shared state last is_shared run) =
      Runs-store _ order _ last run ∙ ap (store_after (loaded ∷ order)) (sym is_shared)

  pub Runs-config :
      (pool : List (Thread Value)) (order : List (PreparedContentStore Value))
      (state last : ProxyState Addr Value)
      → Runs pool order state last
      → last.config ≡ state.config
  Runs-config _ _ _ _ (finished state) = refl
  Runs-config _ _ _ _ (passed pool order state last run) = Runs-config pool order state last run
  Runs-config _ _ _ _ (takes before after order e es state last run) =
      Runs-config (before ++ row es ∷ after) order (apply e state) last run ∙ config-apply e state
  Runs-config _ _ _ _ (locks before after order loaded shared state last is_shared run) =
      Runs-config _ order _ last run

  -- Each reload gets the lock once.
  pub Runs-order :
      (pool : List (Thread Value)) (order : List (PreparedContentStore Value))
      (state last : ProxyState Addr Value)
      → Runs pool order state last
      → Permᴰ order (waiting pool)
  unfolding waiting
  Runs-order _ _ _ _ (finished state) = Permᴰ.nil
  Runs-order _ _ _ _ (passed pool order state last run) = Runs-order pool order state last run
  Runs-order _ _ _ _ (takes before after order e es state last run) =
      subst (Permᴰ order) (waiting-row before after es (e ∷ es))
        (Runs-order (before ++ row es ∷ after) order (apply e state) last run)
  Runs-order _ _ _ _ (locks before after order loaded shared state last is_shared run) =
      Permᴰ.trans (Permᴰ.cons refl (Runs-order _ order _ last run))
        (waiting-at_lock before after loaded (what_follows (try_swap shared loaded) loaded))
