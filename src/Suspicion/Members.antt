-- ===== src/Suspicion/Members.antt =====
-- What the suspicion manager does to the membership list.
use mathlib.Core.Option
use distributed_group_member.Common.{
  ◌≡◌, refl, sym, ap, ◌∙◌, ℕ, ℤ, some, arith, ◌≤ℤ◌, ite, Option-cases, inl, inr, List, [], ◌∷◌,
}
use distributed_group_member.Common.Dict.{lookup-insert}
use distributed_group_member.Types.{Text, Text-discrete, NodeId, to_string, Member}
use distributed_group_member.Membership.{MembershipList, member_at}
use distributed_group_member.Membership.Invariant.{
  IsWellFormed, store-IsWellFormed, member_at-IsKeyed,
}
use distributed_group_member.Suspicion.{
  modify_member, fail_all, fail_member, clear_member, suspect_member,
}

pub member_at-modify_member :
    (k : Text) (f : Member → Member) (ml : MembershipList) (j : Text)
    → member_at j (modify_member k f ml)
      ≡ ite (Text-discrete k j) (Option.map f (member_at j ml)) (member_at j ml)
unfolding modify_member
member_at-modify_member k f ml j = elim (Option-cases (member_at k ml)) [
  | inl e ↦ rw (e, modify_member) (ground arith)
  | inr (m, e) ↦
      rw (e, modify_member) (ground (arith, lookup-insert Text-discrete k j (f m) ml.members))
]

pub modify_member-IsWellFormed :
    (k : Text) (f : Member → Member) (ml : MembershipList)
    → ((m : Member) → (f m).id ≡ m.id)
    → IsWellFormed ml
    → IsWellFormed (modify_member k f ml)
unfolding modify_member
modify_member-IsWellFormed k f ml same w = elim (Option-cases (member_at k ml)) [
  | inl e ↦ rw (e, modify_member) w
  | inr (m, e) ↦
      rw (e, modify_member)
        (store-IsWellFormed k (f m) ml (member_at-IsKeyed k ml m w e ∙ ap to_string (sym (same m)))
          w)
]

-- The list keeps its local node, and each member, with its identity, at no lower incarnation.
pub record Advances (ml ml' : MembershipList) : Type 0 where
  pub local_kept : ml'.local_node ≡ ml.local_node
  pub kept :
      (k : Text) (m : Member)
      → member_at k ml ≡ some m
      → (m' : Member) × (member_at k ml' ≡ some m')
        × (m'.id ≡ m.id)
        × (m.incarnation ≤ℤ m'.incarnation)

pub Advances-refl : (ml : MembershipList) → Advances ml ml
Advances-refl ml = record { local_kept = refl; kept = λ k m e. (m, e, refl, omega arith) }

pub Advances-trans : (a b c : MembershipList) → Advances a b → Advances b c → Advances a c
Advances-trans a b c p q = record {
  local_kept = q.local_kept ∙ p.local_kept;
  kept = λ k m e.
      let (m', e', i, h) = p.kept k m e in
      let (m'', e'', i', h') = q.kept k m' e' in (m'', e'', i' ∙ i, omega arith);
}

-- A write that keeps the identity and does not lower the incarnation.
abbrev pub IsForward : (Member → Member) → Type 0
IsForward f = (m : Member) → ((f m).id ≡ m.id) × (m.incarnation ≤ℤ (f m).incarnation)

pub modify_member-local :
    (k : Text) (f : Member → Member) (ml : MembershipList)
    → (modify_member k f ml).local_node ≡ ml.local_node
unfolding modify_member
modify_member-local k f ml = ground arith

pub modify_member-Advances :
    (k : Text) (f : Member → Member) (ml : MembershipList)
    → IsForward f
    → Advances ml (modify_member k f ml)
modify_member-Advances k f ml forward = record {
  local_kept = modify_member-local k f ml;
  kept = λ j m e. elim (Text-discrete k j) [
    | yes q ↦ (f m, ground (arith, member_at-modify_member k f ml j), (forward m).0, (forward m).1)
    | no q ↦ (m, ground (arith, member_at-modify_member k f ml j), refl, omega arith)
  ];
}

pub suspect_member-IsForward : (now : ℕ) → IsForward (suspect_member now)
suspect_member-IsForward now m = (refl, omega arith)

pub clear_member-IsForward : (inc : ℤ) → IsForward (clear_member inc)
clear_member-IsForward inc m = ground arith

pub fail_member-IsForward : IsForward fail_member
fail_member-IsForward m = (refl, omega arith)

pub fail_all-Advances :
    (cs : List (NodeId × ℤ)) (ml : MembershipList) → Advances ml (fail_all cs ml)
unfolding fail_all
fail_all-Advances [] ml = Advances-refl ml
fail_all-Advances ((t, i) ∷ cs) ml =
    let ml' = modify_member (to_string t) fail_member ml in
    Advances-trans ml ml' (fail_all cs ml')
      (modify_member-Advances (to_string t) fail_member ml fail_member-IsForward)
      (fail_all-Advances cs ml')

pub fail_all-IsWellFormed :
    (cs : List (NodeId × ℤ)) (ml : MembershipList) → IsWellFormed ml → IsWellFormed (fail_all cs ml)
unfolding fail_all
fail_all-IsWellFormed [] ml w = w
fail_all-IsWellFormed ((t, i) ∷ cs) ml w =
    fail_all-IsWellFormed cs (modify_member (to_string t) fail_member ml)
      (modify_member-IsWellFormed (to_string t) fail_member ml (λ m. refl) w)
