-- ===== src/Common/Dict.antt =====
-- Go maps as association lists. A range over a map visits the entries in an order that Go leaves
-- open: here it is the order of the list, about which the theorems assume nothing.
pub mod Loops
use mathlib.Core.Path.{◌≡◌, refl, sym, subst, subst₂, ◌∙◌}
use mathlib.Core.Logic.{◌≢◌, ite, if_pos, if_neg}
use mathlib.Core.List.{List, [], ◌∷◌}
use mathlib.Core.Option
use mathlib.Core.Option.{Option, none, some, some-injective}
use native.Mathlib.Omega.{arith}
use distributed_group_member.Common.Lists.{All}

module _ {ℓ} {K V : Type ℓ} where
  -- No entry has the key `k`.
  abbrev pub IsFresh : K → List (K × V) → Type ℓ
  IsFresh k [] = Unit
  IsFresh k ((j, v) ∷ m) = (j ≢ k) × IsFresh k m

  -- No key occurs twice.
  abbrev pub IsUnique : List (K × V) → Type ℓ
  IsUnique [] = Unit
  IsUnique ((k, v) ∷ m) = IsFresh k m × IsUnique m

  -- A loop that writes each value in place.
  unfoldable pub map_values : (K → V → V) → List (K × V) → List (K × V)
  map_values f [] = []
  map_values f ((k, v) ∷ m) = (k, f k v) ∷ map_values f m

  abbrev pub keys : List (K × V) → List K
  keys [] = []
  keys ((k, v) ∷ m) = k ∷ keys m

  abbrev pub values : List (K × V) → List V
  values [] = []
  values ((k, v) ∷ m) = v ∷ values m

module _ {ℓ} {K V : Type ℓ} (dec : Discrete K) where
  unfoldable pub lookup : K → List (K × V) → Option V
  lookup k [] = none
  lookup k ((j, v) ∷ m) = ite (dec j k) (some v) (lookup k m)

  -- `m[k] = v`
  unfoldable pub insert : K → V → List (K × V) → List (K × V)
  insert k v [] = (k, v) ∷ []
  insert k v ((j, w) ∷ m) = ite (dec j k) ((k, v) ∷ m) ((j, w) ∷ insert k v m)

  -- `delete(m, k)`
  unfoldable pub delete : K → List (K × V) → List (K × V)
  delete k [] = []
  delete k ((j, w) ∷ m) = ite (dec j k) (delete k m) ((j, w) ∷ delete k m)

  -- A loop of deletions.
  unfoldable pub delete_all : List K → List (K × V) → List (K × V)
  unfolding delete
  delete_all [] m = m
  delete_all (k ∷ ks) m = delete_all ks (delete k m)

  pub lookup-insert :
      (k j : K) (v : V) (m : List (K × V))
      → lookup j (insert k v m) ≡ ite (dec k j) (some v) (lookup j m)
  unfolding lookup insert
  lookup-insert k j v [] = refl
  lookup-insert k j v ((i, w) ∷ m) = ground (arith, lookup-insert k j v m)

  pub lookup-delete :
      (k j : K) (m : List (K × V)) → lookup j (delete k m) ≡ ite (dec k j) none (lookup j m)
  unfolding lookup delete
  lookup-delete k j [] = ground arith
  lookup-delete k j ((i, w) ∷ m) = ground (arith, lookup-delete k j m)

  pub lookup-map_values :
      (f : K → V → V) (k : K) (m : List (K × V))
      → lookup k (map_values f m) ≡ Option.map (f k) (lookup k m)
  unfolding lookup map_values
  lookup-map_values f k [] = refl
  lookup-map_values f k ((j, v) ∷ m) = ground (arith, lookup-map_values f k m)

  pub lookup-insert_self : (k : K) (v : V) (m : List (K × V)) → lookup k (insert k v m) ≡ some v
  lookup-insert_self k v m = ground (arith, lookup-insert k k v m)

  pub lookup-insert_ne :
      (k j : K) (v : V) (m : List (K × V)) → k ≢ j → lookup j (insert k v m) ≡ lookup j m
  lookup-insert_ne k j v m h = ground (arith, lookup-insert k j v m)

  -- Entries with a property keep it.
  pub insert-All {κ} :
      (P : K × V → Type κ) (k : K) (v : V) (m : List (K × V))
      → P (k, v)
      → All P m
      → All P (insert k v m)
  unfolding insert
  insert-All P k v [] p a = (p, tt)
  insert-All P k v ((j, w) ∷ m) p a = elim (dec j k) [
    | yes e ↦ rw (if_pos _ e) (p, a.1)
    | no e ↦ rw (if_neg _ e) (a.0, insert-All P k v m p a.1)
  ]

  pub delete-All {κ} :
      (P : K × V → Type κ) (k : K) (m : List (K × V)) → All P m → All P (delete k m)
  unfolding delete
  delete-All P k [] a = tt
  delete-All P k ((j, w) ∷ m) a = elim (dec j k) [
    | yes e ↦ rw (if_pos _ e) (delete-All P k m a.1)
    | no e ↦ rw (if_neg _ e) (a.0, delete-All P k m a.1)
  ]

  pub delete_all-All {κ} :
      (P : K × V → Type κ) (ks : List K) (m : List (K × V)) → All P m → All P (delete_all ks m)
  unfolding delete_all
  delete_all-All P [] m a = a
  delete_all-All P (k ∷ ks) m a = delete_all-All P ks (delete k m) (delete-All P k m a)

  pub lookup-All {κ} :
      (P : K × V → Type κ) (k : K) (m : List (K × V)) (v : V)
      → All P m
      → lookup k m ≡ some v
      → P (k, v)
  unfolding lookup
  lookup-All P k [] v a e = cc
  lookup-All P k ((j, w) ∷ m) v a e = elim (dec j k) [
    | yes q ↦
        subst₂ (λ i x. P (i, x)) q
          (some-injective w v (sym (if_pos (dec j k) q (some w) (lookup k m)) ∙ e)) a.0
    | no q ↦ lookup-All P k m v a.1 (sym (if_neg (dec j k) q (some w) (lookup k m)) ∙ e)
  ]

  insert-IsFresh :
      (i k : K) (v : V) (m : List (K × V)) → k ≢ i → IsFresh i m → IsFresh i (insert k v m)
  unfolding insert
  insert-IsFresh i k v [] h a = (h, tt)
  insert-IsFresh i k v ((j, w) ∷ m) h a = ground (arith, insert-IsFresh i k v m h a.1)

  delete-IsFresh : (i k : K) (m : List (K × V)) → IsFresh i m → IsFresh i (delete k m)
  unfolding delete
  delete-IsFresh i k [] a = tt
  delete-IsFresh i k ((j, w) ∷ m) a = ground (arith, delete-IsFresh i k m a.1)

  pub insert-IsUnique : (k : K) (v : V) (m : List (K × V)) → IsUnique m → IsUnique (insert k v m)
  unfolding insert
  insert-IsUnique k v [] u = (tt, tt)
  insert-IsUnique k v ((j, w) ∷ m) u = elim (dec j k) [
    | yes e ↦ rw (if_pos _ e) (subst (λ i. IsFresh i m) e u.0, u.1)
    | no e ↦
        rw (if_neg _ e) (insert-IsFresh j k v m (λ q. e (sym q)) u.0, insert-IsUnique k v m u.1)
  ]

  pub delete-IsUnique : (k : K) (m : List (K × V)) → IsUnique m → IsUnique (delete k m)
  unfolding delete
  delete-IsUnique k [] u = tt
  delete-IsUnique k ((j, w) ∷ m) u =
      ground (arith, delete-IsUnique k m u.1, delete-IsFresh j k m u.0)

  pub delete_all-IsUnique :
      (ks : List K) (m : List (K × V)) → IsUnique m → IsUnique (delete_all ks m)
  unfolding delete_all
  delete_all-IsUnique [] m u = u
  delete_all-IsUnique (k ∷ ks) m u = delete_all-IsUnique ks (delete k m) (delete-IsUnique k m u)

  map_values-IsFresh :
      (f : K → V → V) (i : K) (m : List (K × V)) → IsFresh i m → IsFresh i (map_values f m)
  unfolding map_values
  map_values-IsFresh f i [] a = tt
  map_values-IsFresh f i ((j, w) ∷ m) a = (a.0, map_values-IsFresh f i m a.1)

  pub map_values-IsUnique :
      (f : K → V → V) (m : List (K × V)) → IsUnique m → IsUnique (map_values f m)
  unfolding map_values
  map_values-IsUnique f [] u = tt
  map_values-IsUnique f ((j, w) ∷ m) u = (map_values-IsFresh f j m u.0, map_values-IsUnique f m u.1)
