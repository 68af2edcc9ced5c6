-- ===== src/Gossip/Group.antt =====
-- detectors/gossip.go: joining and leaving the group.
use distributed_group_member.Common.{
  ℕ, Bool, true, false, ◌&&◌, not, List, [], ◌∷◌, none, some, ℤ, ltb_ℤ, eqb_ℤ, if◌then◌else◌, map,
  select,
}
use distributed_group_member.Common.Dict.{delete_all, keys, values}
use distributed_group_member.Types.{
  Text, Text-discrete, NodeId, to_string, address, text_eqb, Member, MemberUpdate, alive, failed,
  is_alive, is_suspected, Message, join, join_response, leave, plain, zero_id,
}
use distributed_group_member.Membership.{
  MembershipList, member_at, store, local_key, fresh_member, update_of, add_recent_update, remove,
  refresh_local_node,
}
use distributed_group_member.Node.{Node, send, send_all, peers}
use distributed_group_member.Suspicion.{with_members, clear_suspect}
use distributed_group_member.Gossip.{GossipManager, store_updated, learned}

-- An entry of another life of the joiner: the same address, another timestamp.
unfoldable pub is_old_life : NodeId → Text × Member → Bool
is_old_life id (k, m) =
    text_eqb (address m.id) (address id) && not (eqb_ℤ m.id.timestamp id.timestamp)

unfoldable pub old_lives : NodeId → MembershipList → List (Text × Member)
old_lives id ml = select (is_old_life id) ml.members

-- The update that tells of a removal.
abbrev pub failed_member : Member → Member
failed_member m = record {
  id = m.id;
  incarnation = m.incarnation;
  status = failed;
  last_heartbeat = 0;
  suspicion_start = 0;
}

-- The members after a join: the old lives are gone, the joiner is alive.
unfoldable pub admit : NodeId → ℤ → ℕ → MembershipList → MembershipList
admit id inc now ml =
    store (to_string id) (fresh_member id inc alive now)
      (record ml { members = delete_all Text-discrete (keys (old_lives id ml)) ml.members })

-- A loop of `AddRecentUpdateSafe`.
unfoldable pub add_recent_updates : List Member → ℕ → MembershipList → MembershipList
add_recent_updates [] now ml = ml
add_recent_updates (m ∷ ms) now ml = add_recent_updates ms now (add_recent_update m now ml)

-- The membership list that the answer to a join carries.
unfoldable pub snapshot : ℕ → MembershipList → List MemberUpdate
snapshot now ml = map (λ m. update_of m now) (values ml.members)

unfoldable pub handle_join : GossipManager → Message → ℕ → Node → Node
handle_join g msg now nd =
    let ml = nd.membership in
    let admitted = admit msg.sender msg.incarnation now ml in
    let gone = map (λ e. failed_member e.1) (old_lives msg.sender ml) in
    let told =
      add_recent_update (fresh_member msg.sender msg.incarnation alive now) now
        (add_recent_updates gone now admitted) in
    let response = record (plain join_response ml.local_node zero_id ml.incarnation) {
      members = snapshot now admitted;
    } in
    if not g.active
    then nd
    else send now response (address msg.sender) (record nd { membership = told })

-- A member that takes over a newer entry of the answer to a join.
abbrev pub absorbed : MemberUpdate → ℕ → Member → Member
absorbed u now m = record m {
  incarnation = u.incarnation;
  status = u.status;
  last_heartbeat = now;
  suspicion_start =
      if is_suspected u.status then now else if is_alive u.status then 0 else m.suspicion_start;
}

-- One update of the answer to a join, with whether it goes on the list `clears`.
unfoldable pub absorb : MemberUpdate → ℕ → MembershipList → MembershipList × Bool
absorb u now ml =
    let key = to_string u.node_id in
    if text_eqb key (local_key ml) then (ml, false) else elim (member_at key ml) [
      | none ↦ (store_updated key (learned u now) now ml, is_alive u.status)
      | some m ↦
          if ltb_ℤ m.incarnation u.incarnation
          then (store_updated key (absorbed u now m) now ml, is_alive u.status)
          else (ml, false)
    ]

-- The loop over the answer to a join, with the list `clears`.
unfoldable pub absorb_all :
    List MemberUpdate → ℕ → MembershipList → MembershipList × List MemberUpdate
absorb_all [] now ml = (ml, [])
absorb_all (u ∷ us) now ml =
    let (ml', clears) = absorb u now ml in
    let (ml'', rest) = absorb_all us now ml' in (ml'', if clears then u ∷ rest else rest)

unfoldable pub clear_all : List MemberUpdate → Node → Node
clear_all [] nd = nd
clear_all (u ∷ us) nd = clear_all us (clear_suspect u.node_id u.incarnation nd)

unfoldable pub handle_join_response : GossipManager → Message → ℕ → Node → Node
handle_join_response g msg now nd =
    let (ml, clears) = absorb_all msg.members now nd.membership in
    if not g.active then nd else clear_all clears (record nd { membership = ml })

unfoldable pub remove_sender : NodeId → ℕ → MembershipList → MembershipList
remove_sender id now ml =
    let key = to_string id in
    elim (member_at key ml) [
      | none ↦ ml
      | some m ↦ add_recent_update (failed_member m) now (remove key ml)
    ]

unfoldable pub handle_leave : Message → ℕ → Node → Node
handle_leave msg now nd = with_members (remove_sender msg.sender now) nd

-- An empty address joins nothing. The error that `Send` may return is left out.
unfoldable pub join_group : GossipManager → Text → ℕ → Node → GossipManager × Node
join_group g [] now nd = (g, nd)
join_group g (c ∷ addr) now nd =
    let ml = refresh_local_node now nd.membership in
    (
      record g { active = true },
      send now (plain join ml.local_node zero_id ml.incarnation) (c ∷ addr)
          (record nd { membership = ml }),
    )

unfoldable pub leave_group : GossipManager → ℕ → Node → GossipManager × Node
leave_group g now nd = (
  record g { active = false },
  send_all now (plain leave nd.membership.local_node zero_id nd.membership.incarnation)
      (peers nd.membership) nd,
)
