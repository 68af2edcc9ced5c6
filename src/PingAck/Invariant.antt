-- ===== src/PingAck/Invariant.antt =====
-- The steps of the SWIM-style detector against the invariant of the node.
pub mod Probes
pub mod Group
use distributed_group_member.Common.{
  ◌≡◌, refl, ℕ, ◌<◌, ℤ, pos, Bool, not, List, some, inl, inr, if_cases, Option-cases, if◌then◌else◌,
  map,
}
use distributed_group_member.Common.Dict.{delete_all-All, delete_all-IsUnique}
use distributed_group_member.Types.{
  Text, Text-discrete, NodeId, to_string, Member, Message, is_suspected, suspected,
}
use distributed_group_member.Membership.{member_at, store, remove, add_recent_update}
use distributed_group_member.Membership.Invariant.{
  member_at-IsKeyed, IsKeyed, store-IsWellFormed, remove-IsWellFormed,
}
use distributed_group_member.Node.{Node, send}
use distributed_group_member.Suspicion.{with_members, process_suspicion}
use distributed_group_member.Suspicion.Entries.{
  Inv, Keeps, Keeps-refl, Keeps-trans, process_suspicion-Keeps,
}
use distributed_group_member.Suspicion.Clearing.{clear_suspect-Keeps}
use distributed_group_member.Gossip.Group.{failed_member}
use distributed_group_member.Gossip.Updates.{heartbeat_sender-Moves}
use distributed_group_member.Gossip.Handlers.{Moves-Keeps, process_updates-Keeps}
use distributed_group_member.Gossip.Invariant.{with_list-Inv, sent-Inv, told-IsWellFormed}
use distributed_group_member.PingAck.{PingAckManager}
use distributed_group_member.PingAck.Updates.{
  hear_from, unknown_suspect, declare_suspicion, to_remove, check_failures,
}
use distributed_group_member.PingAck.Updates.Agreement.{
  hear_from-heartbeat_sender, process_updates-Gossip,
}
use distributed_group_member.PingAck.Probes.{handle_ping, handle_ack}

sent-Keeps : (nd : Node) (l : List (Text × Message)) → Inv nd → Keeps nd (record nd { sent = l })
sent-Keeps nd l v = record { inv = sent-Inv nd l v; advances = (Keeps-refl nd v).advances }

heard-Keeps :
    (id : NodeId) (inc : ℤ) (now : ℕ) (nd : Node)
    → Inv nd
    → Keeps nd (with_members (hear_from id inc now) nd)
heard-Keeps id inc now nd v =
    rw (hear_from-heartbeat_sender id inc now nd.membership)
      (Moves-Keeps nd _ v (heartbeat_sender-Moves id inc now nd.membership v.formed))

-- A Ping with all its updates, at a positive time, keeps the invariant of the node, keeps every
-- member and lowers no incarnation on record.
pub handle_ping-Keeps :
    (p : PingAckManager) (msg : Message) (now : ℕ) (nd : Node)
    → 0 < now
    → Inv nd
    → Keeps nd (handle_ping p msg now nd)
unfolding handle_ping send
handle_ping-Keeps p msg now nd t v =
    if_cases (Keeps nd) (not p.active) (λ _. Keeps-refl nd v)
      (λ _.
        let s = sent-Keeps nd _ v in
        let h = heard-Keeps msg.sender msg.incarnation now _ s.inv in
        rw process_updates-Gossip (
          Keeps-trans nd _ _ s (
            Keeps-trans _ _ _ h
              (process_updates-Keeps p.enable_suspicion msg.members msg.sender now _ t h.inv))))

-- An Ack keeps the invariant, every member and every incarnation.
pub handle_ack-Keeps :
    (p : PingAckManager) (msg : Message) (now : ℕ) (nd : Node)
    → Inv nd
    → Keeps nd (handle_ack msg now p nd).1
unfolding handle_ack
handle_ack-Keeps p msg now nd v =
    let h = heard-Keeps msg.sender msg.incarnation now nd v in
    if_cases (λ (r : PingAckManager × Node). Keeps nd r.1) (not p.active) (λ _. Keeps-refl nd v)
      (λ _. Keeps-trans nd _ _ h (clear_suspect-Keeps msg.sender msg.incarnation _ h.inv))

told-Inv :
    (nd : Node) (m : Member) (now : ℕ) (k : Text)
    → k ≡ to_string m.id
    → Inv nd
    → Inv (with_members (λ ml. add_recent_update m now (store k m ml)) nd)
told-Inv nd m now k e v =
    let w = store-IsWellFormed k m nd.membership e v.formed in
    with_list-Inv nd _ v (record { keyed = w.keyed; unique = w.unique })

failed_known-Inv :
    (now : ℕ) (nd : Node) (m : Member) (k : Text)
    → Inv nd
    → Inv (with_members (λ ml. remove k (add_recent_update (failed_member m) now ml)) nd)
failed_known-Inv now nd m k v = with_list-Inv nd _ v (
    remove-IsWellFormed k (add_recent_update (failed_member m) now nd.membership)
      (record { keyed = v.formed.keyed; unique = v.formed.unique }))

declared-Inv :
    (enable : Bool) (id : NodeId) (now : ℕ) (nd : Node) (m : Member)
    → 0 < now
    → member_at (to_string id) nd.membership ≡ some m
    → Inv nd
    → let key = to_string id in
      let report =
        λ (nd' : Node). process_suspicion nd.membership.local_node id m.incarnation now nd' in
      Inv (
        if enable
        then (if is_suspected m.status
            then report nd
            else report (
                with_members
                  (λ ml.
                    add_recent_update
                      (record m { status = suspected; suspicion_start = now })
                      now
                      (store key (record m { status = suspected; suspicion_start = now }) ml))
                  nd))
        else with_members (λ ml. remove key (add_recent_update (failed_member m) now ml)) nd)
declared-Inv enable id now nd m t e v =
    let key = to_string id in
    let m' : Member = record m { status = suspected; suspicion_start = now } in
    let reported = λ (nd' : Node) (v' : Inv nd').
      (process_suspicion-Keeps nd.membership.local_node id m.incarnation now nd' t v').inv in
    if_cases Inv enable
      (λ _.
        if_cases Inv (is_suspected m.status) (λ _. reported nd v)
          (λ _.
            reported _
              (told-Inv nd m' now key (member_at-IsKeyed key nd.membership m v.formed e) v)))
      (λ _. failed_known-Inv now nd m key v)

-- The end of a probe without an answer, at a positive time, keeps the invariant of the node.
pub declare_suspicion-Inv :
    (enable : Bool) (id : NodeId) (now : ℕ) (nd : Node)
    → 0 < now
    → Inv nd
    → Inv (declare_suspicion enable id now nd)
unfolding declare_suspicion
declare_suspicion-Inv enable id now nd t v =
    let key = to_string id in
    elim (Option-cases (member_at key nd.membership)) [
      | inl e ↦
          rw (e, declare_suspicion)
            (if_cases Inv enable
              (λ _.
                (process_suspicion-Keeps nd.membership.local_node id (pos 0) now _ t
                  (told-Inv nd (unknown_suspect id now) now key refl v)).inv)
              (λ _. v))
      | inr (m, e) ↦ rw (e, declare_suspicion) (declared-Inv enable id now nd m t e v)
    ]

-- A sweep of the SWIM-style detector keeps the invariant.
pub ping_ack_sweep-Inv :
    (p : PingAckManager) (now : ℕ) (nd : Node) → Inv nd → Inv (check_failures p now nd)
unfolding check_failures
ping_ack_sweep-Inv p now nd v =
    let gone = map (λ (m : Member). to_string m.id) (to_remove p now nd.membership) in
    with_list-Inv nd _ v (
      told-IsWellFormed (map failed_member (to_remove p now nd.membership)) now _ (record {
        keyed = delete_all-All Text-discrete IsKeyed gone nd.membership.members v.formed.keyed;
        unique = delete_all-IsUnique Text-discrete gone nd.membership.members v.formed.unique;
      }))
