-- ===== src/Types/Keys.antt =====
-- The map key `NodeID.String()` and the address `NodeID.Address()`, and what they tell of a node.
use distributed_group_member.Common.{◌≡◌, ap, ◌↔◌, true, arith, eq_of_parts}
use distributed_group_member.Types.{NodeId, to_string, address, equals, text_eqb, Text}
use distributed_group_member.Types.Decimal.{
  decimal_ℤ-injective, decimal_ℤ-IsColonFree, last_colon-injective,
}

-- Two nodes have one address exactly when they have one IP and one port.
pub address-injective : (a b : NodeId) → address a ≡ address b → (a.ip ≡ b.ip) × (a.port ≡ b.port)
unfolding address
address-injective a b e =
    let (i, p) =
      last_colon-injective a.ip b.ip _ _ (decimal_ℤ-IsColonFree a.port)
        (decimal_ℤ-IsColonFree b.port) e in
    (i, decimal_ℤ-injective _ _ p)

-- The key of a node determines the node, whatever bytes its IP holds.
pub to_string-injective : (a b : NodeId) → to_string a ≡ to_string b → a ≡ b
unfolding to_string
to_string-injective a b e =
    let (l, t) =
      last_colon-injective _ _ _ _ (decimal_ℤ-IsColonFree a.timestamp)
        (decimal_ℤ-IsColonFree b.timestamp) e in
    let (i, p) =
      last_colon-injective a.ip b.ip _ _ (decimal_ℤ-IsColonFree a.port)
        (decimal_ℤ-IsColonFree b.port) l in
    let p' = decimal_ℤ-injective _ _ p in
    let t' = decimal_ℤ-injective _ _ t in λ k. record { ip = i k; port = p' k; timestamp = t' k }

pub text_eqb_iff : (a b : Text) → (text_eqb a b ≡ true) ↔ (a ≡ b)
unfolding text_eqb
text_eqb_iff a b = ground arith

pub equals_iff : (a b : NodeId) → (equals a b ≡ true) ↔ (a ≡ b)
unfolding equals
equals_iff a b =
    ground (
      arith,
      text_eqb_iff a.ip b.ip,
      eq_of_parts a.port b.port,
      eq_of_parts a.timestamp b.timestamp,
    )

-- `Equals` holds exactly when the keys of the two nodes are equal.
pub equals-to_string : (a b : NodeId) → (equals a b ≡ true) ↔ (to_string a ≡ to_string b)
equals-to_string a b =
    (λ h. ap to_string ((equals_iff a b).0 h), λ e. (equals_iff a b).1 (to_string-injective a b e))
