-- ===== src/Store/Clock.antt =====
-- The clock of crates/store/src/lib.rs. `elapsed` is what `SystemTime::now().duration_since(UNIX_EPOCH)`
-- gives: the whole seconds since the epoch, or nothing where the clock stands before it.
use ajar_gateway.Common.{ℕ, ◌-◌, ◌^◌, ◌≤◌, ◌≡◌, Option, none, some, ltb, if◌then◌else◌, arith}
use ajar_gateway.Common.Int.{ℤ, pos, ◌≤ℤ◌}

-- `i64::MAX`
abbrev pub i64_max : ℕ
i64_max = 2 ^ 63 - 1

-- The trait: a clock reads the state of the world.
pub record Clock (W : Type 0) : Type 0 where
  pub now_unix_seconds : W → ℤ

abbrev pub clamped_seconds : Option ℕ → ℤ
clamped_seconds none = pos 0
clamped_seconds (some seconds) = if ltb i64_max seconds then pos i64_max else pos seconds

-- `SystemClock`
abbrev pub system_clock : {W : Type 0} → (W → Option ℕ) → Clock W
system_clock elapsed = record { now_unix_seconds = λ w. clamped_seconds (elapsed w) }

-- A time is an `i64` that is not negative.
pub record IsTime (t : ℤ) : Type 0 where
  pub not_negative : pos 0 ≤ℤ t
  pub in_range : t ≤ℤ pos i64_max

clamped_seconds-IsTime : (elapsed : Option ℕ) → IsTime (clamped_seconds elapsed)
clamped_seconds-IsTime none = record { not_negative = omega arith; in_range = omega arith }
clamped_seconds-IsTime (some seconds) = record {
  not_negative = ground arith;
  in_range = ground arith;
}

clamped_seconds-monotone : (a b : ℕ) → a ≤ b → clamped_seconds (some a) ≤ℤ clamped_seconds (some b)
clamped_seconds-monotone a b h = ground arith

clamped_seconds_exact : (a : ℕ) → a ≤ i64_max → clamped_seconds (some a) ≡ pos a
clamped_seconds_exact a h = ground arith
