-- ===== src/Serving/Reload/Quiet.antt =====
-- How often the expiry of the manifest is logged in crates/serving/src/lib.rs.
use ajar_gateway.Common.{
  ℕ, ◌+◌, ◌≤◌, ◌≡◌, ◌++◌, inl, inr, Bool, true, false, List, [], ◌∷◌, arith, if◌then◌else◌,
}
use ajar_gateway.Serving.State.{
  ProxyState, LogEvent, manifest_expired, store_reloaded, store_reload_failed,
}
use ajar_gateway.Serving.Proxy.Kept.{SameLog}
use ajar_gateway.Serving.Reload.{Rest, counting, clearing, announcing, advance, remaining}
use ajar_gateway.Serving.Reload.Swap.{IsRefused}

-- The lines of each kind in the log.
abbrev pub expired_lines : List LogEvent → ℕ
expired_lines [] = 0
expired_lines (manifest_expired ∷ log) = expired_lines log + 1
expired_lines (store_reloaded _ _ ∷ log) = expired_lines log
expired_lines (store_reload_failed _ _ ∷ log) = expired_lines log

abbrev pub reloaded_lines : List LogEvent → ℕ
reloaded_lines [] = 0
reloaded_lines (manifest_expired ∷ log) = reloaded_lines log
reloaded_lines (store_reloaded _ _ ∷ log) = reloaded_lines log + 1
reloaded_lines (store_reload_failed _ _ ∷ log) = reloaded_lines log

-- The reloads that have cleared the flag and not yet written their line.
abbrev pub cleared : {Value : Type 0} → List (Rest Value) → ℕ
cleared [] = 0
cleared (counting _ ∷ settling) = cleared settling
cleared (clearing _ ∷ settling) = cleared settling
cleared (announcing _ ∷ settling) = cleared settling + 1

pub cleared-append :
    {Value : Type 0} (xs ys : List (Rest Value)) → cleared (xs ++ ys) ≡ cleared xs + cleared ys
cleared-append [] ys = omega arith
cleared-append (counting _ ∷ xs) ys = cleared-append xs ys
cleared-append (clearing _ ∷ xs) ys = cleared-append xs ys
cleared-append (announcing _ ∷ xs) ys = omega (arith, cleared-append xs ys)

-- One line more is allowed for each reload that has yet to write its own, and one once the flag is
-- set.
abbrev pub IsQuiet : ℕ → Bool → List LogEvent → Type 0
IsQuiet waiting logged log =
    expired_lines log ≤ reloaded_lines log + waiting + (if logged then 1 else 0)

IsQuiet-more :
    (m n : ℕ) (flag : Bool) (log : List LogEvent) → m ≤ n → IsQuiet m flag log → IsQuiet n flag log
IsQuiet-more m n flag log le h = omega arith

module _ {Addr Value : Type 0} where
  abbrev pub IsQuietState : ℕ → ProxyState Addr Value → Type 0
  IsQuietState waiting state = IsQuiet waiting state.manifest_expiry_logged state.log

  pub SameLog-IsQuiet :
      (waiting : ℕ) (before after : ProxyState Addr Value)
      → SameLog before after
      → IsQuietState waiting before
      → IsQuietState waiting after
  unfolding SameLog
  SameLog-IsQuiet waiting before after (inl (log, flag)) q = rw (log, flag) q
  SameLog-IsQuiet waiting before after (inr (log, clear, flag)) q =
      rw (log, flag) (quiet_line (rw clear at q))
    where
      quiet_line :
          IsQuiet waiting false before.log → IsQuiet waiting true (manifest_expired ∷ before.log)
      quiet_line h = omega arith

  pub IsRefused-IsQuiet :
      (waiting : ℕ) (before after : ProxyState Addr Value)
      → IsRefused before after
      → IsQuietState waiting before
      → IsQuietState waiting after
  IsRefused-IsQuiet waiting before after refusal q = rw (refusal.logged, refusal.expiry_kept) q

  -- An operation behind the lock, between other reloads.
  pub advance-IsQuiet :
      (n : ℕ) (rest : Rest Value) (state : ProxyState Addr Value)
      → IsQuietState (n + cleared (rest ∷ [])) state
      → IsQuietState (n + cleared (remaining rest)) (advance rest state)
  advance-IsQuiet n (counting loaded) state q = q
  advance-IsQuiet n (clearing loaded) state q = by_flag state.manifest_expiry_logged state.log q
    where
      by_flag :
          (flag : Bool) (log : List LogEvent)
          → IsQuiet (n + 0) flag log
          → IsQuiet (n + (0 + 1)) false log
      by_flag true log h = omega arith
      by_flag false log h = omega arith
  advance-IsQuiet n (announcing loaded) state q = omega arith
