-- ===== src/Common/Lists.antt =====
-- Lists measured by native numbers, and predicates on all or some of their items.
use Prim.Native.Nat.{ℕ, zero, suc, ◌+◌}
use mathlib.Core.Path.{◌≡◌, refl}
use mathlib.Core.Logic.{◌⊎◌, ◌↔◌, inl, inr}
use ajar_gateway.Common.Tests.{Bool-cases}
use mathlib.Core.Bool.{Bool, true, false, ◌&&◌, ◌||◌}
use mathlib.Core.Option.{Option, none, some}
use mathlib.Core.List.{List, [], ◌∷◌, ◌++◌}
use native.Mathlib.Omega.{arith}

module _ {ℓ} {A : Type ℓ} where
  abbrev pub length : List A → ℕ
  length [] = 0
  length (x ∷ xs) = suc (length xs)

  pub length-append : (xs ys : List A) → length (xs ++ ys) ≡ length xs + length ys
  length-append [] ys = omega arith
  length-append (x ∷ xs) ys = omega (arith, length-append xs ys)

  abbrev pub get_elem? : List A → ℕ → Option A
  get_elem? [] i = none
  get_elem? (x ∷ xs) zero = some x
  get_elem? (x ∷ xs) (suc i) = get_elem? xs i

  abbrev pub take : ℕ → List A → List A
  take zero xs = []
  take (suc n) [] = []
  take (suc n) (x ∷ xs) = x ∷ take n xs

  abbrev pub drop : ℕ → List A → List A
  drop zero xs = xs
  drop (suc n) [] = []
  drop (suc n) (x ∷ xs) = drop n xs

  abbrev pub any : (A → Bool) → List A → Bool
  any p [] = false
  any p (x ∷ xs) = p x || any p xs

  abbrev pub all : (A → Bool) → List A → Bool
  all p [] = true
  all p (x ∷ xs) = p x && all p xs

module _ {ℓ κ} {A : Type ℓ} (P : A → Type κ) where
  -- `P` holds of every item.
  abbrev pub All : List A → Type κ
  All [] = Unit
  All (x ∷ xs) = P x × All xs

  pub All-append : (xs ys : List A) → All xs → All ys → All (xs ++ ys)
  All-append [] ys _ k = k
  All-append (x ∷ xs) ys (p, h) k = (p, All-append xs ys h k)

  pub All-split : (xs : List A) (x : A) (ys : List A) → All (xs ++ x ∷ ys) → All xs × P x × All ys
  All-split [] x ys (p, h) = (tt, p, h)
  All-split (y ∷ xs) x ys (q, h) = let (k, p, l) = All-split xs x ys h in ((q, k), p, l)

module _ {ℓ} {A : Type ℓ} (P : A → Type 0) where
  -- `P` holds of some item, and it is told which.
  abbrev pub Some : List A → Type 0
  Some [] = ⊥
  Some (x ∷ xs) = P x ⊎ Some xs

module _ {ℓ} {A : Type ℓ} (p : A → Bool) where
  pub any_iff : (xs : List A) → (any p xs ≡ true) ↔ Some (λ x. p x ≡ true) xs
  any_iff [] = (λ h. absurd (cc), λ h. absurd h)
  any_iff (x ∷ xs) = elim (Bool-cases (p x)) [
    | inl yes_x ↦ rw yes_x (λ _. inl refl, λ _. refl)
    | inr no_x ↦ rw no_x (
      λ h. inr ((any_iff xs).0 h),
      λ h. elim h [ inl e ↦ absurd (cc) | inr later ↦ (any_iff xs).1 later ],
    )
  ]

module _ {ℓ} {A : Type ℓ} (P Q : A → Type 0) where
  pub Some-map : (xs : List A) → ((x : A) → P x → Q x) → Some P xs → Some Q xs
  Some-map [] f h = h
  Some-map (x ∷ xs) f (inl h) = inl (f x h)
  Some-map (x ∷ xs) f (inr h) = inr (Some-map xs f h)
