-- ===== src/Common/Lists.antt =====
-- Lists measured by native numbers, under the library's names, and the predicate `All`.
use Prim.Native.Nat.{ℕ, zero, suc, ◌+◌, ◌≤◌, min}
use mathlib.Core.Path.{◌≡◌, refl}
use mathlib.Core.Bool.{Bool, true, false}
use mathlib.Core.List.{List, [], ◌∷◌, ◌++◌}
use native.Mathlib.Omega.{arith}
use mathlib.Core.Logic.{inl, inr}
use distributed_group_member.Common.Tests.{Bool-cases}

module _ {ℓ} {A : Type ℓ} where
  abbrev pub length : List A → ℕ
  length [] = 0
  length (x ∷ xs) = suc (length xs)

  abbrev pub take : ℕ → List A → List A
  take zero xs = []
  take (suc n) [] = []
  take (suc n) (x ∷ xs) = x ∷ take n xs

  abbrev pub All {κ} : (A → Type κ) → List A → Type κ
  All P [] = Unit
  All P (x ∷ xs) = P x × All P xs

  -- The elements that pass a Boolean test, in order.
  abbrev pub select : (A → Bool) → List A → List A
  select p [] = []
  select p (x ∷ xs) = elim (p x) [ true ↦ x ∷ select p xs | false ↦ select p xs ]

  pub length-append : (xs ys : List A) → length (xs ++ ys) ≡ length xs + length ys
  length-append [] ys = omega arith
  length-append (x ∷ xs) ys = omega (arith, length-append xs ys)

  pub length-take : (n : ℕ) (xs : List A) → length (take n xs) ≡ min n (length xs)
  length-take zero xs = omega arith
  length-take (suc n) [] = omega arith
  length-take (suc n) (x ∷ xs) = omega (arith, length-take n xs)

  pub length-select-le : (p : A → Bool) (xs : List A) → length (select p xs) ≤ length xs
  length-select-le p [] = omega arith
  length-select-le p (x ∷ xs) = ground (arith, length-select-le p xs)

  pub select-pass :
      (p : A → Bool) (x : A) (xs : List A) → p x ≡ true → select p (x ∷ xs) ≡ x ∷ select p xs
  select-pass p x xs e = rw (e, select)

  pub select-fail :
      (p : A → Bool) (x : A) (xs : List A) → p x ≡ false → select p (x ∷ xs) ≡ select p xs
  select-fail p x xs e = rw (e, select)

  pub select-append :
      (p : A → Bool) (xs ys : List A) → select p (xs ++ ys) ≡ select p xs ++ select p ys
  select-append p [] ys = refl
  select-append p (x ∷ xs) ys = ground (arith, select-append p xs ys)

  pub select_idem : (p : A → Bool) (xs : List A) → select p (select p xs) ≡ select p xs
  select_idem p [] = refl
  select_idem p (x ∷ xs) = ground (arith, select_idem p xs)

-- The second list has exactly the elements of the first with the property, in their order.
pub data Filters {ℓ} {A : Type ℓ} (P : A → Type 0) : List A → List A → Type ℓ where
  none_left : Filters P [] []
  keeps : {x : A} {xs ys : List A} → P x → Filters P xs ys → Filters P (x ∷ xs) (x ∷ ys)
  drops : {x : A} {xs ys : List A} → ¬ P x → Filters P xs ys → Filters P (x ∷ xs) ys

pub select-Filters {ℓ} :
    {A : Type ℓ} (P : A → Type 0) (p : A → Bool)
    → ((x : A) → p x ≡ true → P x)
    → ((x : A) → p x ≡ false → ¬ P x)
    → (xs : List A) → Filters P xs (select p xs)
select-Filters P p pass fail [] = none_left
select-Filters P p pass fail (x ∷ xs) = elim (Bool-cases (p x)) [
  | inl e ↦ rw (select-pass p x xs e) (keeps (pass x e) (select-Filters P p pass fail xs))
  | inr e ↦ rw (select-fail p x xs e) (drops (fail x e) (select-Filters P p pass fail xs))
]
