-- ===== src/PingAck/Updates.antt =====
-- detectors/pingack.go: what messages say of members, suspicions and the check of failures.
pub mod Agreement
use distributed_group_member.Common.{
  ℕ, Bool, true, false, ◌&&◌, not, List, [], ◌∷◌, Option, none, some, ℤ, pos, ltb_ℤ, leb_ℤ, eqb_ℤ,
  if◌then◌else◌, select, map,
}
use distributed_group_member.Common.Dict.{delete, delete_all, values}
use distributed_group_member.Types.{
  Text, Text-discrete, NodeId, to_string, text_eqb, Member, MemberUpdate, MemberStatus, alive,
  suspected, failed, is_alive, is_suspected, Message, sub_time,
}
use distributed_group_member.Membership.{
  MembershipList, member_at, store, remove, local_key, fresh_member, add_recent_update,
}
use distributed_group_member.Node.{Node}
use distributed_group_member.Suspicion.{with_members, process_suspicion, clear_suspect}
use distributed_group_member.Gossip.Group.{failed_member, add_recent_updates}
use distributed_group_member.PingAck.{PingAckManager}

-- A member that speaks with a higher incarnation.
abbrev pub renew : ℤ → ℕ → Member → Member
renew inc now m = record m {
  incarnation = inc;
  status = alive;
  last_heartbeat = now;
  suspicion_start = 0;
}

-- The sender of a Ping or an Ack: the bodies of `handlePing` and `handleAck` on the list.
unfoldable pub hear_from : NodeId → ℤ → ℕ → MembershipList → MembershipList
hear_from id inc now ml =
    let key = to_string id in
    elim (member_at key ml) [
      | none ↦
          add_recent_update (fresh_member id inc alive now) now
            (store key (fresh_member id inc alive now) ml)
      | some m ↦
          if ltb_ℤ m.incarnation inc
          then add_recent_update (renew inc now m) now (store key (renew inc now m) ml)
          else if eqb_ℤ inc m.incarnation
          then (let heard = record m { last_heartbeat = now } in
              let cleared = record heard { status = alive; suspicion_start = 0 } in
              if is_suspected m.status
              then add_recent_update cleared now (store key cleared ml)
              else store key heard ml)
          else ml
    ]

-- The branch of `processUpdate` for a known member.
unfoldable pub accept : Bool → MemberUpdate → ℕ → Text → Member → MembershipList → MembershipList
accept enable u now key m ml =
    let put = λ (m' : Member). add_recent_update m' now (store key m' ml) in
    let taken = record m { incarnation = u.incarnation; status = u.status } in
    if ltb_ℤ m.incarnation u.incarnation
    then put (
        if is_alive u.status
        then record taken { last_heartbeat = now; suspicion_start = 0 }
        else if is_suspected u.status && enable
        then record taken { suspicion_start = now }
        else taken)
    else if eqb_ℤ u.incarnation m.incarnation
    then (if is_alive u.status && is_suspected m.status
        then put (record m { status = alive; last_heartbeat = now; suspicion_start = 0 })
        else if is_suspected u.status && is_alive m.status
        then put (record m { status = suspected; suspicion_start = now })
        else ml)
    else ml

unfoldable pub process_update : Bool → MemberUpdate → NodeId → ℕ → Node → Node
process_update enable u reporter now nd =
    let key = to_string u.node_id in
    let new_member : Member = record {
      id = u.node_id;
      incarnation = u.incarnation;
      status = u.status;
      last_heartbeat = now;
      suspicion_start = if is_suspected u.status then now else 0;
    } in
    if text_eqb key (local_key nd.membership)
    then (if is_suspected u.status && enable
        then process_suspicion reporter u.node_id u.incarnation now nd
        else if is_alive u.status
        then clear_suspect u.node_id u.incarnation nd
        else nd)
    else elim (member_at key nd.membership) [
      | none ↦ with_members (λ ml. add_recent_update new_member now (store key new_member ml)) nd
      | some m ↦
          let accepted = with_members (accept enable u now key m) nd in
          let reported =
            if is_suspected u.status && enable
            then process_suspicion reporter u.node_id u.incarnation now accepted
            else accepted in
          if is_alive u.status then clear_suspect u.node_id u.incarnation reported else reported
    ]

unfoldable pub process_updates : Bool → List MemberUpdate → NodeId → ℕ → Node → Node
process_updates enable [] reporter now nd = nd
process_updates enable (u ∷ us) reporter now nd =
    process_updates enable us reporter now (process_update enable u reporter now nd)

-- The member that a failed probe suspects, where the list has it not, and where it has it.
abbrev pub unknown_suspect : NodeId → ℕ → Member
unknown_suspect id now = record {
  id = id;
  incarnation = pos 0;
  status = suspected;
  last_heartbeat = now;
  suspicion_start = now;
}

unfoldable pub declare_suspicion : Bool → NodeId → ℕ → Node → Node
declare_suspicion enable id now nd =
    let key = to_string id in
    let report =
      λ (inc : ℤ) (nd' : Node). process_suspicion nd.membership.local_node id inc now nd' in
    let put = λ (m : Member). with_members (λ ml. add_recent_update m now (store key m ml)) nd in
    elim (member_at key nd.membership) [
      | none ↦ if enable then report (pos 0) (put (unknown_suspect id now)) else nd
      | some m ↦
          if enable
          then (if is_suspected m.status
              then report m.incarnation nd
              else report m.incarnation
                  (put (record m { status = suspected; suspicion_start = now })))
          else with_members (λ ml. remove key (add_recent_update (failed_member m) now ml)) nd
    ]

-- The test of the first pass of `checkFailures`.
unfoldable pub is_expired : PingAckManager → ℕ → Text → Text × Member → Bool
is_expired p now self (k, m) =
    not (text_eqb k self)
    && is_suspected m.status
    && ltb_ℤ p.timeouts.suspicion_timeout (sub_time now m.suspicion_start)

unfoldable pub to_remove : PingAckManager → ℕ → MembershipList → List Member
to_remove p now ml = values (select (is_expired p now (local_key ml)) ml.members)

unfoldable pub check_failures : PingAckManager → ℕ → Node → Node
check_failures p now nd =
    let ml = nd.membership in
    let gone = to_remove p now ml in
    let swept = record ml {
      members = delete_all Text-discrete (map (λ m. to_string m.id) gone) ml.members;
    } in
    record nd { membership = add_recent_updates (map failed_member gone) now swept }
