-- ===== src/Membership/Laws.antt =====
-- What `AddMember`, `UpdateMember`, `RemoveMember` and `RefreshLocalNode` do to the map.
use distributed_group_member.Common.{
  ◌∙◌, ◌≡◌, refl, ◌≢◌, ℕ, ℤ, Option, none, some, arith, ◌≤ℤ◌, ◌<ℤ◌, ltb_ℤ, if◌then◌else◌, ite, ◌∷◌,
  [], ◌++◌, ap, sym, eq_of_parts, Option-cases, inl, inr, ◌&&◌,
}
use distributed_group_member.Common.Dict.{delete, lookup-insert, lookup-delete}
use distributed_group_member.Types.{
  Text, Text-discrete, NodeId, to_string, Member, MemberStatus, alive, failed, is_alive,
  is_suspected,
}
use distributed_group_member.Types.Keys.{to_string-injective}
use distributed_group_member.Membership.{
  MembershipList, member_at, add_member, update_member, updated_member, update_of, remove_member,
  refresh_local_node, local_key, unix, fresh_member,
}

-- The one of two members that has the higher incarnation, the old one on a tie.
abbrev pub newest : Member → Option Member → Member
newest m none = m
newest m (some old) = if ltb_ℤ old.incarnation m.incarnation then m else old

-- `AddMember` keeps the member with the highest incarnation, and touches no other key.
pub member_at-add_member :
    (m : Member) (now : ℕ) (ml : MembershipList) (j : Text)
    → member_at j (add_member m now ml)
      ≡ ite (Text-discrete (to_string m.id) j) (some (newest m (member_at j ml))) (member_at j ml)
unfolding add_member
member_at-add_member m now ml j =
    ground (arith, lookup-insert Text-discrete (to_string m.id) j m ml.members)

-- Two additions commute at every key of the map, unless they bring one node at one incarnation.
pub add_member_comm :
    (a b : Member) (t u : ℕ) (ml : MembershipList) (j : Text)
    → (to_string a.id ≡ to_string b.id → a.incarnation ≢ b.incarnation)
    → member_at j (add_member a t (add_member b u ml))
      ≡ member_at j (add_member b u (add_member a t ml))
add_member_comm a b t u ml j apart = ground (
  arith,
  member_at-add_member a t (add_member b u ml) j,
  member_at-add_member b u (add_member a t ml) j,
  member_at-add_member a t ml j,
  member_at-add_member b u ml j,
  eq_of_parts a.incarnation b.incarnation,
)

-- An `UpdateMember` with an older incarnation, or for an unknown node, changes nothing.
pub update_member_stale :
    (k : Text) (status : MemberStatus) (inc : ℤ) (now : ℕ) (ml : MembershipList)
    → ((m : Member) → member_at k ml ≡ some m → inc <ℤ m.incarnation)
    → update_member k status inc now ml ≡ ml
unfolding update_member
update_member_stale k status inc now ml old = elim (Option-cases (member_at k ml)) [
  | inl e ↦ rw (e, update_member)
  | inr (m, e) ↦ ground (arith, old m e)
]

-- An `UpdateMember` that is not older takes over the status and the incarnation, sets the
-- heartbeat exactly if the new status is Alive and the start of the suspicion exactly on the step
-- from Alive to Suspected, leaves the other keys, and records the written member as the last update.
pub update_member_accepted :
    (k : Text) (status : MemberStatus) (inc : ℤ) (now : ℕ) (ml : MembershipList) (m : Member)
    (j : Text)
    → member_at k ml ≡ some m
    → m.incarnation ≤ℤ inc
    → let ml' = update_member k status inc now ml in
      (m' : Member) × (m'.id ≡ m.id)
      × (m'.status ≡ status)
      × (m'.incarnation ≡ inc)
      × (m'.last_heartbeat ≡ (if is_alive status then now else m.last_heartbeat))
      × (m'.suspicion_start
          ≡ (if is_suspected status && is_alive m.status then now else m.suspicion_start))
      × (member_at j ml' ≡ ite (Text-discrete k j) (some m') (member_at j ml))
      × (ml'.recent_updates ≡ ml.recent_updates ++ update_of m' now ∷ [])
unfolding update_member updated_member
update_member_accepted k status inc now ml m j e h = (
  updated_member status inc now m,
  ground arith,
  ground arith,
  ground arith,
  ground arith,
  ground arith,
  ground (arith, lookup-insert Text-discrete k j (updated_member status inc now m) ml.members),
  ground arith,
)

-- `RemoveMember` leaves no entry at the key and every other entry as it was, and tells of the
-- failure exactly if there was an entry.
pub remove_member_effect :
    (k : Text) (now : ℕ) (ml : MembershipList)
    → let ml' = remove_member k now ml in
      ((j : Text) → member_at j ml' ≡ ite (Text-discrete k j) none (member_at j ml))
      × (ml'.recent_updates ≡ elim (member_at k ml) [
        | none ↦ ml.recent_updates
        | some m ↦ ml.recent_updates ++ update_of (record m { status = failed }) now ∷ []
      ])
unfolding remove_member
remove_member_effect k now ml =
    (λ j. ground (arith, lookup-delete Text-discrete k j ml.members), ground arith)

-- After `RefreshLocalNode` at a new second the node has its old IP and port and a new key, at which
-- it is alive with the incarnation of the list; its old key is gone and no other entry changes.
pub refresh_local_node_effect :
    (now : ℕ) (ml : MembershipList) (j : Text)
    → ml.local_node.timestamp ≢ unix now
    → let ml' = refresh_local_node now ml in
      (ml'.local_node ≡ record ml.local_node { timestamp = unix now })
      × (local_key ml' ≢ local_key ml)
      × (member_at j ml'
          ≡ ite
              (Text-discrete (local_key ml') j)
              (some (fresh_member ml'.local_node ml.incarnation alive now))
              (ite (Text-discrete (local_key ml) j) none (member_at j ml)))
unfolding refresh_local_node
refresh_local_node_effect now ml j later =
    let node = record ml.local_node { timestamp = unix now } in
    let self = fresh_member node ml.incarnation alive now in
    let rest = delete Text-discrete (local_key ml) ml.members in
    (
      refl,
      λ e.
          later (sym (ap (λ (n : NodeId). n.timestamp) (to_string-injective node ml.local_node e))),
      lookup-insert Text-discrete (to_string node) j self rest
          ∙ ap (ite (Text-discrete (to_string node) j) (some self))
              (lookup-delete Text-discrete (local_key ml) j ml.members),
    )
