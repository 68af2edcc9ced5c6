-- ===== src/PingAck/Probes/Keys.antt =====
-- The keys of `pendingIndirect`.
use distributed_group_member.Common.{◌≡◌, refl, ap₂, ℕ, List, [], ◌∷◌, ◌++◌, arith, All}
use distributed_group_member.Types.{NodeId}
use distributed_group_member.Types.Decimal.{IsDigit, decimal-injective, decimal-IsDigit}
use distributed_group_member.Types.Keys.{to_string-injective}
use distributed_group_member.PingAck.Probes.{wait_key}

-- A text is cut at the first byte that is no digit in one way.
first_bar-injective :
    (xs ys u v : List ℕ)
    → All IsDigit xs
    → All IsDigit ys
    → xs ++ b'|' ∷ u ≡ ys ++ b'|' ∷ v
    → (xs ≡ ys) × (u ≡ v)
first_bar-injective [] [] u v a b e = (refl, cc)
first_bar-injective [] (y ∷ ys) u v a b e = ground arith
first_bar-injective (x ∷ xs) [] u v a b e = ground arith
first_bar-injective (x ∷ xs) (y ∷ ys) u v a b e =
    let (p, q) = first_bar-injective xs ys u v a.1 b.1 (cc) in
    let h : x ≡ y = cc in (ap₂ ◌∷◌ h p, q)

-- Two waits that share a key share the number and the target.
pub wait_key-injective :
    (seq seq' : ℕ) (id id' : NodeId)
    → wait_key seq id ≡ wait_key seq' id'
    → (seq ≡ seq') × (id ≡ id')
unfolding wait_key
wait_key-injective seq seq' id id' e =
    let (s, t) = first_bar-injective _ _ _ _ (decimal-IsDigit seq) (decimal-IsDigit seq') e in
    (decimal-injective seq seq' s, to_string-injective id id' t)
