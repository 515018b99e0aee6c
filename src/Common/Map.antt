-- ===== src/Common/Map.antt =====
-- Rust's `BTreeMap` with text keys, as far as it is used: `insert`, `get` and `len`. The pairs
-- stand in the order of insertion, which nothing reads.
use ajar_gateway.Common.Tests.{if◌then◌else◌, Bool-cases}
use mathlib.Core.Bool.{true, false, ◌||◌, or-true}
use mathlib.Core.Logic.{◌↔◌, inl, inr}
use mathlib.Core.Path.{◌≡◌, refl, ap}
use ajar_gateway.Common.Lists.{Some}
use mathlib.Core.Option.{Option, none, some, some-injective}
use mathlib.Core.List.{List, [], ◌∷◌, ◌++◌}
use native.Mathlib.Omega.{arith}
use ajar_gateway.Text.{Text, text_eq, member}
use ajar_gateway.Text.Laws.{text_eq_iff, text_eq_refl}

module _ {ℓ} {V : Type ℓ} where
  unfoldable pub lookup : Text → List (Text × V) → Option V
  lookup k [] = none
  lookup k ((j, v) ∷ m) = if text_eq j k then some v else lookup k m

  unfoldable pub insert : Text → V → List (Text × V) → List (Text × V)
  insert k v [] = (k, v) ∷ []
  insert k v ((j, w) ∷ m) = if text_eq j k then (k, v) ∷ m else (j, w) ∷ insert k v m

  abbrev pub keys : List (Text × V) → List Text
  keys [] = []
  keys ((k, v) ∷ m) = k ∷ keys m

  pub lookup-insert :
      (k j : Text) (v : V) (m : List (Text × V))
      → lookup j (insert k v m) ≡ (if text_eq k j then some v else lookup j m)
  unfolding lookup insert
  lookup-insert k j v [] = refl
  lookup-insert k j v ((i, w) ∷ m) =
      ground (arith, text_eq_iff k j, text_eq_iff i k, text_eq_iff i j, lookup-insert k j v m)

  -- No key stands twice.
  abbrev pub HasDistinctKeys : List (Text × V) → Type 0
  HasDistinctKeys [] = Unit
  HasDistinctKeys ((k, v) ∷ m) = (member k (keys m) ≡ false) × HasDistinctKeys m

  pub insert_fresh :
      (k : Text) (v : V) (m : List (Text × V))
      → member k (keys m) ≡ false
      → insert k v m ≡ m ++ (k, v) ∷ []
  unfolding insert
  insert_fresh k v [] h = refl
  insert_fresh k v ((j, w) ∷ m) h =
      ground (arith, text_eq_iff j k, text_eq_iff k j, insert_fresh k v m)

  pub member-keys-append :
      (t : Text) (m n : List (Text × V))
      → member t (keys (m ++ n)) ≡ (member t (keys m) || member t (keys n))
  member-keys-append t [] n = refl
  member-keys-append t ((k, v) ∷ m) n = ground (arith, member-keys-append t m n)

  pub HasDistinctKeys-append :
      (k : Text) (v : V) (m : List (Text × V))
      → HasDistinctKeys m
      → member k (keys m) ≡ false
      → HasDistinctKeys (m ++ (k, v) ∷ [])
  HasDistinctKeys-append k v [] h f = (refl, tt)
  HasDistinctKeys-append k v ((j, w) ∷ m) (g, h) f = (
    ground (arith, member-keys-append j m ((k, v) ∷ []), text_eq_iff j k, text_eq_iff k j),
    HasDistinctKeys-append k v m h (ground arith),
  )

  -- A key that stands first in a list with distinct keys is new to those before it.
  pub HasDistinctKeys-fresh :
      (k : Text) (v : V) (m n : List (Text × V))
      → HasDistinctKeys (m ++ (k, v) ∷ n)
      → member k (keys m) ≡ false
  HasDistinctKeys-fresh k v [] n h = refl
  HasDistinctKeys-fresh k v ((j, w) ∷ m) n (g, h) = ground (
    arith,
    member-keys-append j m ((k, v) ∷ n),
    text_eq_iff j k,
    text_eq_iff k j,
    text_eq_refl k,
    HasDistinctKeys-fresh k v m n h,
  )

module _ {V : Type 0} where
  pair_eq : {j k : Text} {w v : V} → j ≡ k → w ≡ v → ◌≡◌ {A = Text × V} (j, w) (k, v)
  pair_eq p q = λ i. (p i, q i)

  Some-member :
      (k : Text) (v : V) (m : List (Text × V)) → Some (λ e. e ≡ (k, v)) m → member k (keys m) ≡ true
  Some-member k v [] h = absurd h
  Some-member k v ((j, w) ∷ m) (inl e) =
      ground (arith, ap (λ (t : Text × V). t.0) e, text_eq_iff k j)
  Some-member k v ((j, w) ∷ m) (inr h) = rw (Some-member k v m h) (or-true _)

  -- Among distinct keys a lookup finds exactly the pairs of the list.
  pub lookup-eq-some_iff :
      (k : Text) (v : V) (m : List (Text × V))
      → HasDistinctKeys m
      → (lookup k m ≡ some v) ↔ Some (λ e. e ≡ (k, v)) m
  unfolding lookup
  lookup-eq-some_iff k v [] d = (λ h. absurd (cc), λ h. absurd h)
  lookup-eq-some_iff k v ((j, w) ∷ m) (g, d) = elim (Bool-cases (text_eq j k)) [
    | inl same ↦
        let key : j ≡ k = (text_eq_iff j k).0 same in
        (
          λ h. inl (pair_eq key (some-injective _ _ (rw same at h))),
          λ h. elim h [
            | inl e ↦ rw same (ap some (ap (λ (t : Text × V). t.1) e))
            | inr later ↦ absurd (ground (arith, rw key at g, Some-member k v m later))
          ],
        )
    | inr other ↦ (
      λ h. inr ((lookup-eq-some_iff k v m d).0 (rw other at h)),
      λ h. elim h [
        | inl e ↦ absurd (ground (arith, ap (λ (t : Text × V). t.0) e, text_eq_iff j k))
        | inr later ↦ rw other ((lookup-eq-some_iff k v m d).1 later)
      ],
    )
  ]
