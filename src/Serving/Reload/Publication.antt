-- ===== src/Serving/Reload/Publication.antt =====
-- What a client of crates/serving/src/lib.rs can rely on: the gateway publishes one prepared store
-- after the other. The step relation of `Steps` refines this.
use ajar_gateway.Common.{
  length, length-append, ◌∷◌, ◌++◌, ℕ, suc, ◌+◌, ◌≡◌, refl, sym, ap, ◌∙◌, inl, inr, Option, none,
  some, subst, All-split, arith,
}
use ajar_gateway.Common.Int.{◌≤ℤ◌}
use ajar_gateway.Store.Backend.{FileSystem}
use ajar_gateway.Store.Validate.{Serde}
use ajar_gateway.Store.Load.{PreparedContentStore, manifest_sequence}
use ajar_gateway.Serving.Http.{Http, Request}
use ajar_gateway.Serving.State.{Shared, ProxyState}
use ajar_gateway.Serving.Proxy.Kept.{SameLog}
use ajar_gateway.Serving.Proxy.Laws.{with_store-IsKept}
use ajar_gateway.Serving.Reload.{Rest, counting, clearing, announcing, advance, remaining}
use ajar_gateway.Serving.Reload.Swap.{IsWritten, try_swap-IsWritten}
use ajar_gateway.Serving.Reload.Laws.{reload_failed-IsRefused}
use ajar_gateway.Serving.Reload.Steps.{
  System, Step, arrive, finish, load, refuse, swap, give_up, settle, Reach, here, and_then,
  advance-store,
}
use ajar_gateway.Serving.Reload.Quiet.{reloaded_lines}
use ajar_gateway.Serving.Reload.Invariants.{IsSourced, IsSound, Reach-IsSound}

-- The store that is served.
abbrev pub served_store :
    {Value : Type 0} → Option (Shared Value) → Option (PreparedContentStore Value)
served_store none = none
served_store (some shared) = some shared.current

module _ {Value S : Type 0} (serde : Serde Value) (fs : FileSystem S) where
  -- The specification: a number of publications, each of a prepared store whose manifest is not
  -- older than the one before. Nothing is published where there is no store at the start.
  pub data History
      : ℕ → Option (PreparedContentStore Value) → Option (PreparedContentStore Value) → Type 0 where
    unchanged : (store : Option (PreparedContentStore Value)) → History 0 store store
    published :
        (n : ℕ) (first : Option (PreparedContentStore Value)) (old new : PreparedContentStore Value)
        → History n first (some old)
        → IsSourced serde fs new
        → manifest_sequence old ≤ℤ manifest_sequence new
        → History (suc n) first (some new)

module _ {R Addr Value S : Type 0} (serde : Serde Value) (fs : FileSystem S) where
  -- From one state to a later one: what was published. Each has its line in the log, or its reload
  -- is one of those that have still to write it.
  pub record IsHistory (a b : System R Addr Value) : Type 0 where
    pub publications : ℕ
    pub history :
        History serde fs publications (served_store a.state.store) (served_store b.state.store)
    pub logged :
        reloaded_lines b.state.log + length b.settling
        ≡ reloaded_lines a.state.log + length a.settling + publications

  IsHistory-kept :
      (a b c : System R Addr Value)
      → IsHistory a b
      → c.state.store ≡ b.state.store
      → reloaded_lines c.state.log + length c.settling
        ≡ reloaded_lines b.state.log + length b.settling
      → IsHistory a c
  IsHistory-kept a b c h store log = record {
    publications = h.publications;
    history =
        subst (λ o. History serde fs h.publications (served_store a.state.store) (served_store o))
          (sym store) h.history;
    logged = log ∙ h.logged;
  }

  IsHistory-written :
      (a b c : System R Addr Value) (shared after : Shared Value)
      (loaded : PreparedContentStore Value)
      → IsHistory a b
      → IsSourced serde fs loaded
      → b.state.store ≡ some shared
      → IsWritten shared loaded after
      → c.state ≡ record (b.state) { store = some after }
      → length c.settling ≡ suc (length b.settling)
      → IsHistory a c
  IsHistory-written a b c shared after loaded h sourced was w now one_more = record {
    publications = suc h.publications;
    history =
        subst
          (λ o. History serde fs (suc h.publications) (served_store a.state.store) (served_store o))
          (ap some w.written ∙ sym (ap (λ (s : ProxyState Addr Value). s.store) now))
          (published h.publications (served_store a.state.store) shared.current loaded
            (subst
              (λ o. History serde fs h.publications (served_store a.state.store) (served_store o))
              was h.history)
            sourced w.not_older);
    logged =
        let same : reloaded_lines c.state.log ≡ reloaded_lines b.state.log =
          ap (λ (s : ProxyState Addr Value). reloaded_lines s.log) now in
        omega (arith, h.logged, same, one_more);
  }

module _ {Addr Value : Type 0} where
  SameLog-reloaded_lines :
      (b c : ProxyState Addr Value) → SameLog b c → reloaded_lines c.log ≡ reloaded_lines b.log
  unfolding SameLog
  SameLog-reloaded_lines b c (inl (log, _)) = ap reloaded_lines log
  SameLog-reloaded_lines b c (inr (log, _, _)) = ap reloaded_lines log

  -- What is behind the lock writes one line, with its last operation.
  advance-reloaded_lines :
      (rest : Rest Value) (state : ProxyState Addr Value)
      → reloaded_lines (advance rest state).log + length (remaining rest)
        ≡ suc (reloaded_lines state.log)
  advance-reloaded_lines (counting loaded) state = omega arith
  advance-reloaded_lines (clearing loaded) state = omega arith
  advance-reloaded_lines (announcing loaded) state = omega arith

module _ {H V U B : Type 0} (http : Http H V U B) {Addr Value S : Type 0} (serde : Serde Value)
    (fs : FileSystem S) where
  Step-IsHistory :
      (start a b : System (Request H U B) Addr Value)
      → IsSound serde fs a
      → Step http serde fs a b
      → IsHistory serde fs start a
      → IsHistory serde fs start b
  Step-IsHistory start a b sound (arrive state pending settling in_flight r) h =
      IsHistory-kept serde fs start a b h refl refl
  Step-IsHistory start a b sound (finish state pending settling before after flight exchange now)
        h =
      let kept = with_store-IsKept http exchange state flight.asked now flight.snapshot in
      IsHistory-kept serde fs start a b h kept.store_kept
        (ap (λ n. n + length settling) (SameLog-reloaded_lines state _ kept.log_kept))
  Step-IsHistory start a b sound (load state pending settling in_flight s now dir loaded _ _) h =
      IsHistory-kept serde fs start a b h refl refl
  Step-IsHistory start a b sound (refuse state pending settling in_flight detail reason) h =
      let refusal = (reload_failed-IsRefused http state detail reason).0 in
      IsHistory-kept serde fs start a b h refusal.store_kept
        (ap (λ log. reloaded_lines log + length settling) refusal.logged)
  Step-IsHistory start a b sound
        (swap state before after settling in_flight shared swapped loaded is_shared written) h =
      let (_, sourced, _) = All-split (IsSourced serde fs) before loaded after sound.waiting in
      IsHistory-written serde fs start a b shared swapped loaded h sourced is_shared
        (try_swap-IsWritten shared loaded swapped written) refl refl
  Step-IsHistory start a b sound
        (give_up state before after settling in_flight shared loaded refusal _ _) h =
      let refused = (reload_failed-IsRefused http state refusal.detail refusal.reason).0 in
      IsHistory-kept serde fs start a b h refused.store_kept
        (ap (λ log. reloaded_lines log + length settling) refused.logged)
  Step-IsHistory start a b sound (settle state pending before after in_flight rest) h =
      IsHistory-kept serde fs start a b h (advance-store rest state) (
        omega (
          arith,
          length-append before (rest ∷ after),
          length-append before (remaining rest ++ after),
          length-append (remaining rest) after,
          advance-reloaded_lines rest state,
        ))

  -- The gateway refines the specification: from a state whose stores are prepared, through any
  -- order of the operations of requests and reloads, the store that is served at the end is that at
  -- the start after a number of publications, each of a prepared store whose manifest is not older
  -- than the one before; and the lines on a reload, with the reloads that have written their store
  -- and not yet their line, are more by exactly that number.
  pub Reach-IsHistory :
      (a b : System (Request H U B) Addr Value)
      → IsSound serde fs a
      → Reach http serde fs a b
      → IsHistory serde fs a b
  Reach-IsHistory a _ sound (here _) = record {
    publications = 0;
    history = unchanged (served_store a.state.store);
    logged = omega arith;
  }
  Reach-IsHistory a c sound (and_then _ b _ path step) =
      Step-IsHistory a b c (Reach-IsSound http serde fs a b path sound) step
        (Reach-IsHistory a b sound path)
