-- ===== src/Base/Lists.antt =====
-- Lists measured by native numbers, under the library's names, and predicates on all members.
use Prim.Native.Nat.{ℕ, suc, ◌+◌}
use mathlib.Core.Path.{◌≡◌, refl, ap}
use mathlib.Core.Option.{Option, none, some}
use mathlib.Core.List.{List, [], ◌∷◌, ◌++◌}
use native.Mathlib.Omega.{arith}

module _ {ℓ} {A : Type ℓ} where
  abbrev pub length : List A → ℕ
  length [] = 0
  length (x ∷ xs) = suc (length xs)

  -- The last element of `x ∷ xs`.
  abbrev pub last_from : A → List A → A
  last_from x [] = x
  last_from x (y ∷ ys) = last_from y ys

  abbrev pub get_last? : List A → Option A
  get_last? [] = none
  get_last? (x ∷ xs) = some (last_from x xs)

  pub length-append : (xs ys : List A) → length (xs ++ ys) ≡ length xs + length ys
  length-append [] ys = omega arith
  length-append (x ∷ xs) ys = omega (arith, length-append xs ys)

  last_from-append : (x : A) (xs : List A) (y : A) → last_from x (xs ++ y ∷ []) ≡ y
  last_from-append x [] y = refl
  last_from-append x (z ∷ zs) y = last_from-append z zs y

  pub get_last?-append : (xs : List A) (y : A) → get_last? (xs ++ y ∷ []) ≡ some y
  get_last?-append [] y = refl
  get_last?-append (x ∷ xs) y = ap some (last_from-append x xs y)

abbrev pub All {ℓ κ} : {A : Type ℓ} → (A → Type κ) → List A → Type κ
All P [] = Unit
All P (x ∷ xs) = P x × All P xs

pub All-append {ℓ κ} :
    {A : Type ℓ} (P : A → Type κ) (xs ys : List A) → All P xs → All P ys → All P (xs ++ ys)
All-append P [] ys hx hy = hy
All-append P (x ∷ xs) ys hx hy = (hx.0, All-append P xs ys hx.1 hy)
