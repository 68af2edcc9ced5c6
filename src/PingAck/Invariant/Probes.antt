-- ===== src/PingAck/Invariant/Probes.antt =====
-- The steps of a probe against the invariant of the node.
use distributed_group_member.Common.{
  ◌≡◌, refl, ℕ, ◌<◌, ℤ, not, List, [], ◌∷◌, inl, inr, if_cases, Option-cases, leb_ℤ,
}
use distributed_group_member.Types.{NodeId, to_string, Member, Message, is_alive, alive}
use distributed_group_member.Membership.{
  MembershipList, member_at, local_key, get_recent_updates, get_random_members,
}
use distributed_group_member.Membership.Invariant.{
  member_at-IsKeyed, IsWellFormed, store-IsWellFormed,
}
use distributed_group_member.Node.{Node, send}
use distributed_group_member.Node.Sending.{send_all_lem}
use distributed_group_member.Suspicion.{with_members}
use distributed_group_member.Suspicion.Entries.{Inv}
use distributed_group_member.Suspicion.Clearing.{clear_suspect-Keeps}
use distributed_group_member.Gossip.Handlers.{process_updates-Keeps}
use distributed_group_member.Gossip.Invariant.{with_list-Inv, sent-Inv}
use distributed_group_member.PingAck.{PingAckManager, IndirectPingWaiter}
use distributed_group_member.PingAck.Updates.{process_updates}
use distributed_group_member.PingAck.Updates.Agreement.{process_updates-Gossip}
use distributed_group_member.PingAck.Probes.{
  Period, begin_period, probe_indirectly, end_silent, hear_requester, handle_indirect_ping,
  hear_target, handle_indirect_ack,
}
use distributed_group_member.PingAck.Probes.Waiters.{forward_ack}
use distributed_group_member.PingAck.Invariant.{declare_suspicion-Inv}

hear_requester-IsWellFormed :
    (id : NodeId) (inc : ℤ) (now : ℕ) (ml : MembershipList)
    → IsWellFormed ml
    → IsWellFormed (hear_requester id inc now ml)
unfolding hear_requester
hear_requester-IsWellFormed id inc now ml w = elim (Option-cases (member_at (to_string id) ml)) [
  | inl e ↦ rw (e, hear_requester) w
  | inr (m, e) ↦
      rw (e, hear_requester)
        (if_cases IsWellFormed (leb_ℤ m.incarnation inc)
          (λ _.
            store-IsWellFormed (to_string id) (record m { last_heartbeat = now }) ml
              (member_at-IsKeyed (to_string id) ml m w e) w)
          (λ _. w))
]

hear_target-IsWellFormed :
    (id : NodeId) (inc : ℤ) (now : ℕ) (ml : MembershipList)
    → IsWellFormed ml
    → IsWellFormed (hear_target id inc now ml)
unfolding hear_target
hear_target-IsWellFormed id inc now ml w = elim (Option-cases (member_at (to_string id) ml)) [
  | inl e ↦ rw (e, hear_target) w
  | inr (m, e) ↦
      let k = member_at-IsKeyed (to_string id) ml m w e in
      let heard : Member = record m { incarnation = inc; last_heartbeat = now } in
      let cleared : Member = record heard { status = alive; suspicion_start = 0 } in
      let told = store-IsWellFormed (to_string id) cleared ml k w in
      rw (e, hear_target)
        (if_cases IsWellFormed (leb_ℤ m.incarnation inc)
          (λ _.
            if_cases IsWellFormed (is_alive m.status)
              (λ _. store-IsWellFormed (to_string id) heard ml k w)
              (λ _. record { keyed = told.keyed; unique = told.unique }))
          (λ _. w))
]

pub handle_indirect_ping-Inv :
    (msg : Message) (now : ℕ) (p : PingAckManager) (nd : Node)
    → 0 < now
    → Inv nd
    → Inv (handle_indirect_ping msg now p nd).1
unfolding handle_indirect_ping get_recent_updates send
handle_indirect_ping-Inv msg now p nd t v =
    let heard =
      with_list-Inv nd (hear_requester msg.sender msg.incarnation now nd.membership) v
        (hear_requester-IsWellFormed msg.sender msg.incarnation now nd.membership v.formed) in
    let updated : Inv (
        process_updates p.enable_suspicion msg.members msg.sender now
          (with_members (hear_requester msg.sender msg.incarnation now) nd)) =
      rw process_updates-Gossip
        (process_updates-Keeps p.enable_suspicion msg.members msg.sender now _ t heard).inv in
    if_cases (λ (r : PingAckManager × Node). Inv r.1) (not p.active) (λ _. v)
      (λ _. sent-Inv _ _ (
        with_list-Inv _ _ updated
          (record { keyed = updated.formed.keyed; unique = updated.formed.unique })))

pub handle_indirect_ack-Inv :
    (msg : Message) (now : ℕ) (p : PingAckManager) (nd : Node)
    → Inv nd
    → Inv (handle_indirect_ack msg now p nd).1
unfolding handle_indirect_ack
handle_indirect_ack-Inv msg now p nd v =
    let heard =
      with_list-Inv nd (hear_target msg.target msg.incarnation now nd.membership) v
        (hear_target-IsWellFormed msg.target msg.incarnation now nd.membership v.formed) in
    if_cases (λ (r : PingAckManager × Node). Inv r.1) (not p.active) (λ _. v)
      (λ _. (clear_suspect-Keeps msg.target msg.incarnation _ heard).inv)

pub begin_period-Inv :
    (shuffle : List Member → List Member) (now : ℕ) (p : PingAckManager) (nd : Node)
    → Inv nd
    → Inv (begin_period shuffle now p nd).1
unfolding begin_period get_recent_updates send
begin_period-Inv shuffle now p nd v =
    go (get_random_members shuffle 1 (local_key nd.membership ∷ []) nd.membership) refl
  where
    go :
        (ts : List Member)
        → get_random_members shuffle 1 (local_key nd.membership ∷ []) nd.membership ≡ ts
        → Inv (begin_period shuffle now p nd).1
    go [] e = rw (e, begin_period) v
    go (t ∷ ts) e =
        rw (e, begin_period)
          (sent-Inv _ _
            (with_list-Inv nd _ v (record { keyed = v.formed.keyed; unique = v.formed.unique })))

pub probe_indirectly-Inv :
    (shuffle : List Member → List Member) (now : ℕ) (period : Period) (p : PingAckManager)
    (nd : Node)
    → 0 < now
    → Inv nd
    → Inv (probe_indirectly shuffle now period p nd).1
unfolding probe_indirectly
probe_indirectly-Inv shuffle now period p nd t v =
    go
      (get_random_members shuffle p.k (local_key nd.membership ∷ to_string period.target ∷ [])
        nd.membership)
      refl
  where
    go :
        (ms : List Member)
        → get_random_members shuffle p.k
            (local_key nd.membership ∷ to_string period.target ∷ [])
            nd.membership
          ≡ ms
        → Inv (probe_indirectly shuffle now period p nd).1
    go [] e =
        rw (e, probe_indirectly) (declare_suspicion-Inv p.enable_suspicion period.target now nd t v)
    go (m ∷ ms) e = rw (e, probe_indirectly) (rw send_all_lem (sent-Inv nd _ v))

pub end_silent-Inv :
    (now : ℕ) (period : Period) (p : PingAckManager) (nd : Node)
    → 0 < now
    → Inv nd
    → Inv (end_silent now period p nd).1
unfolding end_silent
end_silent-Inv now period p nd t v =
    declare_suspicion-Inv p.enable_suspicion period.target now nd t v

pub forward_ack-Inv :
    (now seq : ℕ) (target : NodeId) (w : IndirectPingWaiter) (p : PingAckManager) (nd : Node)
    → Inv nd
    → Inv (forward_ack now seq target w p nd).1
unfolding forward_ack send
forward_ack-Inv now seq target w p nd v = elim (Option-cases w.ch) [
  | inl e ↦ rw (e, forward_ack) v
  | inr (inc, e) ↦ rw (e, forward_ack) (sent-Inv nd _ v)
]
