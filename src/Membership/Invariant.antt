-- ===== src/Membership/Invariant.antt =====
-- The invariant of the membership list: it is a map, and each member stands under its own key.
use distributed_group_member.Common.{
  ◌≡◌, refl, sym, ap, ◌∙◌, Option-cases, inl, inr, ℕ, ℤ, All, arith, some, [], List, ◌∷◌,
}
use distributed_group_member.Common.Dict.{
  IsUnique, insert-All, delete-All, lookup-All, insert-IsUnique, delete-IsUnique,
}
use distributed_group_member.Types.{
  Text, Text-discrete, NodeId, to_string, Member, MemberStatus, alive,
}
use distributed_group_member.Membership.{
  MembershipList, member_at, store, remove, new_membership_list, add_member, update_member,
  updated_member, remove_member, get_recent_updates, increment_incarnation, refresh_local_node,
  local_key, unix, fresh_member,
}

-- The member stands under the key of its identity.
abbrev pub IsKeyed : Text × Member → Type 0
IsKeyed (k, m) = k ≡ to_string m.id

pub record IsWellFormed (ml : MembershipList) : Type 0 where
  pub keyed : All IsKeyed ml.members
  pub unique : IsUnique ml.members

pub store-IsWellFormed :
    (k : Text) (m : Member) (ml : MembershipList)
    → k ≡ to_string m.id
    → IsWellFormed ml
    → IsWellFormed (store k m ml)
store-IsWellFormed k m ml e w = record {
  keyed = insert-All Text-discrete IsKeyed k m ml.members e w.keyed;
  unique = insert-IsUnique Text-discrete k m ml.members w.unique;
}

pub remove-IsWellFormed :
    (k : Text) (ml : MembershipList) → IsWellFormed ml → IsWellFormed (remove k ml)
remove-IsWellFormed k ml w = record {
  keyed = delete-All Text-discrete IsKeyed k ml.members w.keyed;
  unique = delete-IsUnique Text-discrete k ml.members w.unique;
}

-- What is read at a key has that key.
pub member_at-IsKeyed :
    (k : Text) (ml : MembershipList) (m : Member)
    → IsWellFormed ml
    → member_at k ml ≡ some m
    → k ≡ to_string m.id
member_at-IsKeyed k ml m w e = lookup-All Text-discrete IsKeyed k ml.members m w.keyed e

pub new-IsWellFormed : (n : NodeId) (now : ℕ) → IsWellFormed (new_membership_list n now)
unfolding new_membership_list
new-IsWellFormed n now = record {
  keyed = insert-All Text-discrete IsKeyed _ _ [] refl tt;
  unique = insert-IsUnique Text-discrete _ _ [] tt;
}

pub add_member-IsWellFormed :
    (m : Member) (now : ℕ) (ml : MembershipList)
    → IsWellFormed ml
    → IsWellFormed (add_member m now ml)
unfolding add_member
add_member-IsWellFormed m now ml w =
    let stored = store-IsWellFormed (to_string m.id) m ml refl w in ground (arith, stored)

updated_member-id :
    (status : MemberStatus) (inc : ℤ) (now : ℕ) (m : Member)
    → (updated_member status inc now m).id ≡ m.id
unfolding updated_member
updated_member-id status inc now m = ground arith

update_member-IsWellFormed :
    (k : Text) (status : MemberStatus) (inc : ℤ) (now : ℕ) (ml : MembershipList)
    → IsWellFormed ml
    → IsWellFormed (update_member k status inc now ml)
unfolding update_member
update_member-IsWellFormed k status inc now ml w = elim (Option-cases (member_at k ml)) [
  | inl e ↦ rw (e, update_member) w
  | inr (m, e) ↦
      let key =
        member_at-IsKeyed k ml m w e ∙ ap to_string (sym (updated_member-id status inc now m)) in
      let stored = store-IsWellFormed k (updated_member status inc now m) ml key w in
      ground (arith, stored)
]

remove_member-IsWellFormed :
    (k : Text) (now : ℕ) (ml : MembershipList)
    → IsWellFormed ml
    → IsWellFormed (remove_member k now ml)
unfolding remove_member
remove_member-IsWellFormed k now ml w =
    let removed = remove-IsWellFormed k ml w in ground (arith, removed)

pub refresh_local_node-IsWellFormed :
    (now : ℕ) (ml : MembershipList) → IsWellFormed ml → IsWellFormed (refresh_local_node now ml)
unfolding refresh_local_node
refresh_local_node-IsWellFormed now ml w =
    let node = record ml.local_node { timestamp = unix now } in
    let base = record (remove (local_key ml) ml) { local_node = node } in
    let removed = remove-IsWellFormed (local_key ml) ml w in
    store-IsWellFormed (to_string node) (fresh_member node ml.incarnation alive now) base refl
      (record { keyed = removed.keyed; unique = removed.unique })

-- A call of a method that writes, with its arguments.
pub data Call : Type 0 where
  adds : Member → Call
  updates : Text → MemberStatus → ℤ → Call
  removes : Text → Call
  reads_recent : ℕ → Call
  increments : Call
  refreshes : Call

unfoldable pub apply : MembershipList → ℕ × Call → MembershipList
apply ml (now, adds m) = add_member m now ml
apply ml (now, updates k status inc) = update_member k status inc now ml
apply ml (now, removes k) = remove_member k now ml
apply ml (now, reads_recent limit) = (get_recent_updates limit now ml).1
apply ml (now, increments) = increment_incarnation ml
apply ml (now, refreshes) = refresh_local_node now ml

unfoldable pub run : MembershipList → List (ℕ × Call) → MembershipList
unfolding apply
run ml [] = ml
run ml (c ∷ cs) = run (apply ml c) cs

apply-IsWellFormed :
    (ml : MembershipList) (c : ℕ × Call) → IsWellFormed ml → IsWellFormed (apply ml c)
unfolding apply get_recent_updates increment_incarnation
apply-IsWellFormed ml (now, adds m) w = add_member-IsWellFormed m now ml w
apply-IsWellFormed ml (now, updates k status inc) w =
    update_member-IsWellFormed k status inc now ml w
apply-IsWellFormed ml (now, removes k) w = remove_member-IsWellFormed k now ml w
apply-IsWellFormed ml (now, reads_recent limit) w = record { keyed = w.keyed; unique = w.unique }
apply-IsWellFormed ml (now, increments) w = record { keyed = w.keyed; unique = w.unique }
apply-IsWellFormed ml (now, refreshes) w = refresh_local_node-IsWellFormed now ml w

run_from-IsWellFormed :
    (ml : MembershipList) (cs : List (ℕ × Call)) → IsWellFormed ml → IsWellFormed (run ml cs)
unfolding run
run_from-IsWellFormed ml [] w = w
run_from-IsWellFormed ml (c ∷ cs) w =
    run_from-IsWellFormed (apply ml c) cs (apply-IsWellFormed ml c w)

-- After any calls on a new list, no key occurs twice and each member stands under the key of its
-- own identity.
pub run-IsWellFormed :
    (n : NodeId) (start : ℕ) (cs : List (ℕ × Call))
    → IsWellFormed (run (new_membership_list n start) cs)
run-IsWellFormed n start cs = run_from-IsWellFormed _ cs (new-IsWellFormed n start)
