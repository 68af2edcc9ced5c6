-- ===== src/Common/Dict/Loops.antt =====
-- A loop that deletes the selected entries of a map, at one key.
use mathlib.Core.Path.{◌≡◌, refl, subst}
use mathlib.Core.Bool.{Bool, true, false}
use mathlib.Core.List.{List, [], ◌∷◌}
use mathlib.Core.Option.{Option, none, some}
use mathlib.Core.Logic.{inl, inr}
use native.Mathlib.Omega.{arith}
use distributed_group_member.Common.Tests.{if◌then◌else◌, Bool-cases}
use distributed_group_member.Common.Lists.{select, select-pass, select-fail}
use distributed_group_member.Common.Dict.{
  IsFresh, IsUnique, keys, lookup, delete, delete_all, lookup-delete,
}

-- The value of a test at a key.
abbrev pub holds_at {ℓ} : {K V : Type ℓ} → (K × V → Bool) → K → Option V → Bool
holds_at p k none = false
holds_at p k (some v) = p (k, v)

unfoldable pub is_in {ℓ} : {K : Type ℓ} → Discrete K → K → List K → Bool
is_in dec j [] = false
is_in dec j (k ∷ ks) = elim (dec k j) [ yes _ ↦ true | no _ ↦ is_in dec j ks ]

module _ {ℓ} {K V : Type ℓ} (dec : Discrete K) where
  pub lookup-delete_all :
      (j : K) (ks : List K) (es : List (K × V))
      → lookup dec j (delete_all dec ks es) ≡ (if is_in dec j ks then none else lookup dec j es)
  unfolding delete_all is_in
  lookup-delete_all j [] es = refl
  lookup-delete_all j (k ∷ ks) es =
      ground (arith, lookup-delete_all j ks (delete dec k es), lookup-delete dec k j es)

  is_in-select_fresh :
      (p : K × V → Bool) (k : K) (es : List (K × V))
      → IsFresh k es
      → is_in dec k (keys (select p es)) ≡ false
  unfolding is_in
  is_in-select_fresh p k [] f = refl
  is_in-select_fresh p k ((j, e) ∷ es) f = elim (Bool-cases (p (j, e))) [
    | inl over ↦
        rw (select-pass p (j, e) es over) (ground (arith, is_in-select_fresh p k es f.1, f.0))
    | inr kept ↦ rw (select-fail p (j, e) es kept) (is_in-select_fresh p k es f.1)
  ]

  -- A key is among those of the selected entries exactly if its own entry is selected.
  pub is_in-select :
      (p : K × V → Bool) (k : K) (es : List (K × V))
      → IsUnique es
      → is_in dec k (keys (select p es)) ≡ holds_at p k (lookup dec k es)
  unfolding is_in lookup
  is_in-select p k [] u = refl
  is_in-select p k ((j, e) ∷ es) u =
      let fresh = λ (q : j ≡ k). is_in-select_fresh p k es (subst (λ i. IsFresh i es) q u.0) in
      elim (Bool-cases (p (j, e))) [
        | inl over ↦ rw (select-pass p (j, e) es over) (ground (arith, is_in-select p k es u.1))
        | inr kept ↦
            rw (select-fail p (j, e) es kept) (ground (arith, is_in-select p k es u.1, fresh))
      ]
