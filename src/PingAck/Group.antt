-- ===== src/PingAck/Group.antt =====
-- detectors/pingack.go: joining and leaving the group, and the messages about it.
pub mod Agreement
use distributed_group_member.Common.{
  ℕ, ℤ, Bool, true, false, not, ◌&&◌, ◌||◌, List, [], ◌∷◌, none, some, ltb_ℤ, leb_ℤ, eqb_ℤ,
  if◌then◌else◌, map, select,
}
use distributed_group_member.Common.Dict.{keys, values, delete_all}
use distributed_group_member.Types.{
  Text, Text-discrete, NodeId, to_string, address, text_eqb, Member, MemberUpdate, alive, failed,
  is_alive, is_suspected, Message, join, join_response, leave, plain, zero_id,
}
use distributed_group_member.Membership.{
  MembershipList, member_at, store, remove, local_key, fresh_member, update_of, add_recent_update,
  refresh_local_node,
}
use distributed_group_member.Node.{Node, send, send_all, peers}
use distributed_group_member.Suspicion.{with_members, process_suspicion, clear_suspect}
use distributed_group_member.PingAck.{PingAckManager}

-- An entry with the address of the joiner and another timestamp.
unfoldable pub is_old_life : NodeId → Text × Member → Bool
is_old_life id (k, m) =
    text_eqb (address m.id) (address id) && not (eqb_ℤ m.id.timestamp id.timestamp)

-- The first loop of `handleJoin`.
unfoldable pub old_lives : NodeId → MembershipList → List (Text × Member)
old_lives id ml = select (is_old_life id) ml.members

-- `failedUpdate`
unfoldable pub failed_update : Member → Member
failed_update m = record {
  id = m.id;
  incarnation = m.incarnation;
  status = failed;
  last_heartbeat = 0;
  suspicion_start = 0;
}

-- The old entries go, and the joiner comes in.
unfoldable pub admit : NodeId → ℤ → ℕ → MembershipList → MembershipList
admit id inc now ml =
    let others = delete_all Text-discrete (keys (old_lives id ml)) ml.members in
    store (to_string id) (fresh_member id inc alive now) (record ml { members = others })

-- The loop over `oldFailedUpdates`.
unfoldable pub add_recent_updates : List Member → ℕ → MembershipList → MembershipList
add_recent_updates [] now ml = ml
add_recent_updates (m ∷ ms) now ml = add_recent_updates ms now (add_recent_update m now ml)

-- The members that the answer to a join carries.
unfoldable pub snapshot : ℕ → MembershipList → List MemberUpdate
snapshot now ml = map (λ m. update_of m now) (values ml.members)

unfoldable pub handle_join : PingAckManager → Message → ℕ → Node → Node
handle_join p msg now nd =
    let ml = nd.membership in
    let admitted = admit msg.sender msg.incarnation now ml in
    let gone = map (λ e. failed_update e.1) (old_lives msg.sender ml) in
    let told =
      add_recent_update (fresh_member msg.sender msg.incarnation alive now) now
        (add_recent_updates gone now admitted) in
    let response = record (plain join_response ml.local_node zero_id ml.incarnation) {
      members = snapshot now admitted;
    } in
    if not p.active
    then nd
    else send now response (address msg.sender) (record nd { membership = told })

-- A member of the answer that was not known.
unfoldable pub new_member : MemberUpdate → ℕ → Member
new_member u now = record {
  id = u.node_id;
  incarnation = u.incarnation;
  status = u.status;
  last_heartbeat = now;
  suspicion_start = if is_suspected u.status then now else 0;
}

-- A known member at a lower incarnation.
unfoldable pub absorbed : MemberUpdate → ℕ → Member → Member
absorbed u now m = record m {
  incarnation = u.incarnation;
  status = u.status;
  last_heartbeat = now;
  suspicion_start =
      if is_suspected u.status then now else if is_alive u.status then 0 else m.suspicion_start;
}

-- One round of the loop over the answer, with whether it appends to `clears`.
unfoldable pub absorb : MemberUpdate → ℕ → MembershipList → MembershipList × Bool
absorb u now ml =
    let key = to_string u.node_id in
    if text_eqb key (local_key ml) then (ml, false) else elim (member_at key ml) [
      | none ↦
          let m = new_member u now in (add_recent_update m now (store key m ml), is_alive u.status)
      | some m ↦
          let m' = absorbed u now m in
          if ltb_ℤ m.incarnation u.incarnation
          then (add_recent_update m' now (store key m' ml), is_alive u.status)
          else (ml, false)
    ]

unfoldable pub absorb_all :
    List MemberUpdate → ℕ → MembershipList → MembershipList × List MemberUpdate
absorb_all [] now ml = (ml, [])
absorb_all (u ∷ us) now ml =
    let (ml', clears) = absorb u now ml in
    let (ml'', rest) = absorb_all us now ml' in (ml'', if clears then u ∷ rest else rest)

-- The loop over `clears`.
unfoldable pub clear_all : List MemberUpdate → Node → Node
clear_all [] nd = nd
clear_all (u ∷ us) nd = clear_all us (clear_suspect u.node_id u.incarnation nd)

unfoldable pub handle_join_response : PingAckManager → Message → ℕ → Node → Node
handle_join_response p msg now nd =
    let (ml, clears) = absorb_all msg.members now nd.membership in
    if not p.active then nd else clear_all clears (record nd { membership = ml })

-- The part of `handleAliveMessage` under the lock.
unfoldable pub alive_sender : NodeId → ℤ → ℕ → MembershipList → MembershipList
alive_sender id inc now ml =
    let key = to_string id in
    elim (member_at key ml) [
      | none ↦ ml
      | some m ↦
          let m' = record m {
            incarnation = inc;
            status = alive;
            last_heartbeat = now;
            suspicion_start = 0;
          } in
          if leb_ℤ m.incarnation inc && (not (is_alive m.status) || ltb_ℤ m.incarnation inc)
          then add_recent_update m' now (store key m' ml)
          else ml
    ]

unfoldable pub handle_alive_message : PingAckManager → Message → ℕ → Node → Node
handle_alive_message p msg now nd =
    if not p.active
    then nd
    else clear_suspect msg.sender msg.incarnation
        (with_members (alive_sender msg.sender msg.incarnation now) nd)

unfoldable pub handle_suspect_message : PingAckManager → Message → ℕ → Node → Node
handle_suspect_message p msg now nd =
    if not p.enable_suspicion
    then nd
    else if not p.active
    then nd
    else process_suspicion msg.sender msg.target msg.incarnation now nd

unfoldable pub remove_sender : NodeId → ℕ → MembershipList → MembershipList
remove_sender id now ml =
    let key = to_string id in
    elim (member_at key ml) [
      | none ↦ ml
      | some m ↦ add_recent_update (failed_update m) now (remove key ml)
    ]

unfoldable pub handle_leave : Message → ℕ → Node → Node
handle_leave msg now nd = with_members (remove_sender msg.sender now) nd

unfoldable pub join_group : PingAckManager → Text → ℕ → Node → PingAckManager × Node
join_group p [] now nd = (p, nd)
join_group p (c ∷ addr) now nd =
    let ml = refresh_local_node now nd.membership in
    (
      record p { active = true },
      send now (plain join ml.local_node zero_id ml.incarnation) (c ∷ addr)
          (record nd { membership = ml }),
    )

unfoldable pub leave_group : PingAckManager → ℕ → Node → PingAckManager × Node
leave_group p now nd = (
  record p { active = false },
  send_all now (plain leave nd.membership.local_node zero_id nd.membership.incarnation)
      (peers nd.membership) nd,
)
