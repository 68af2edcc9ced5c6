-- ===== src/PingAck/Probes/Answered.antt =====
-- A probe that its target answers, from the Ping to the end of the period.
use mathlib.Core.List.{Memᴰ, Perm}
use mathlib.Core.List.Memᴰ
use distributed_group_member.Common.{
  ◌≡◌, refl, sym, ◌∙◌, subst, ℕ, true, List, [], ◌∷◌, ◌++◌, none, some, arith, ℕ_discrete,
}
use distributed_group_member.Common.Dict.{lookup, lookup-delete}
use distributed_group_member.Types.{Text, NodeId, address, Member, Message, ping, ack, plain}
use distributed_group_member.Types.Keys.{equals_iff}
use distributed_group_member.Membership.{unix}
use distributed_group_member.Membership.Invariant.{IsWellFormed}
use distributed_group_member.Node.{Node, send}
use distributed_group_member.Suspicion.{with_members}
use distributed_group_member.Gossip.Posting.{process_updates-Posts}
use distributed_group_member.PingAck.{PingAckManager}
use distributed_group_member.PingAck.Updates.{hear_from}
use distributed_group_member.PingAck.Updates.Agreement.{process_updates-Gossip}
use distributed_group_member.PingAck.Probes.{
  Period, probe, pending_ping, begin_period, end_acked, handle_ping, handle_ack,
}
use distributed_group_member.PingAck.Probes.Acks.{handle_ack_effect}
use distributed_group_member.PingAck.Probes.Periods.{begin_period-Begun}

-- What a node answers to a Ping.
abbrev pub reply_to : Message → ℕ → Node → Message
reply_to msg now nd =
    record (plain ack nd.membership.local_node msg.sender nd.membership.incarnation) {
      seq_num = msg.seq_num;
      timestamp = unix now;
    }

handle_ping-replies :
    (p : PingAckManager) (msg : Message) (now : ℕ) (nd : Node)
    → p.active ≡ true
    → Memᴰ (address msg.sender, reply_to msg now nd) (handle_ping p msg now nd).sent
unfolding handle_ping send
handle_ping-replies p msg now nd on =
    let reply : Text × Message = (address msg.sender, reply_to msg now nd) in
    rw (on, process_updates-Gossip p.enable_suspicion msg.members msg.sender now)
      (process_updates-Posts p.enable_suspicion msg.members msg.sender now
        (with_members (hear_from msg.sender msg.incarnation now) (
          send now
            (record (plain ack nd.membership.local_node msg.sender nd.membership.incarnation) {
              seq_num = msg.seq_num;
            })
            (address msg.sender) nd))
        reply (Memᴰ.append_right nd.sent (Memᴰ.head refl)))

-- An Ack of the target reaches the probe of its number.
signalled_directly :
    (msg : Message) (now started : ℕ) (p : PingAckManager) (nd : Node) (target : NodeId)
    → p.active ≡ true
    → msg.sender ≡ target
    → lookup ℕ_discrete msg.seq_num p.pending_acks ≡ some (pending_ping target msg.seq_num started)
    → lookup ℕ_discrete msg.seq_num (handle_ack msg now p nd).0.pending_acks
      ≡ some (record (pending_ping target msg.seq_num started) {
        direct_ack = true;
        ack_received = true;
      })
signalled_directly msg now started p nd target on same e = ground (
  arith,
  handle_ack_effect msg now p nd msg.seq_num on,
  (equals_iff target msg.sender).1 (sym same),
)

forgotten :
    (period : Period) (p : PingAckManager)
    → lookup ℕ_discrete period.seq_num (end_acked period p).pending_acks ≡ none
unfolding end_acked
forgotten period p =
    ground (arith, lookup-delete ℕ_discrete period.seq_num period.seq_num p.pending_acks)

-- A protocol period on a well-formed list, for a shuffle that permutes, that goes on to its first
-- wait has sent its target one Ping. An active node with the target's identity sends the Ping's sender
-- an Ack. When that comes to an active prober where the probe is still pending as it began, the
-- probe is signalled as answered directly, and the end of the period forgets it.
pub answered_probe :
    (shuffle : List Member → List Member) (now later last : ℕ) (p q r : PingAckManager)
    (nd node nd' : Node) (period : Period)
    → ((ms : List Member) → Perm (shuffle ms) ms)
    → IsWellFormed nd.membership
    → (begin_period shuffle now p nd).2 ≡ some period
    → q.active ≡ true
    → node.membership.local_node ≡ period.target
    → r.active ≡ true
    → lookup ℕ_discrete period.seq_num r.pending_acks
      ≡ lookup ℕ_discrete period.seq_num (begin_period shuffle now p nd).0.pending_acks
    → let pinged = (begin_period shuffle now p nd).1 in
      let asks : Message =
        record (probe ping pinged.membership.local_node period.target pinged.membership.incarnation
          period.seq_num period.updates) { timestamp = unix now } in
      let reply = reply_to asks later node in
      let r' = (handle_ack reply last r nd').0 in
      (pinged.sent ≡ nd.sent ++ (address period.target, asks) ∷ [])
      × Memᴰ (address asks.sender, reply) (handle_ping q asks later node).sent
      × (lookup ℕ_discrete period.seq_num r'.pending_acks
          ≡ some (record (pending_ping period.target period.seq_num now) {
            direct_ack = true;
            ack_received = true;
          }))
      × (lookup ℕ_discrete period.seq_num (end_acked period r').pending_acks ≡ none)
answered_probe shuffle now later last p q r nd node nd' period permutes w goes on same on' still =
    let begun = begin_period-Begun shuffle permutes now p nd period w goes in
    let asks : Message =
      record (probe ping (begin_period shuffle now p nd).1.membership.local_node period.target
        (begin_period shuffle now p nd).1.membership.incarnation period.seq_num period.updates) {
          timestamp = unix now;
        } in
    let waiting =
      subst
        (λ id.
          lookup ℕ_discrete period.seq_num r.pending_acks
          ≡ some (pending_ping id period.seq_num now))
        (sym begun.aimed) (still ∙ begun.pending) in
    (
      subst
          (λ id.
            (begin_period shuffle now p nd).1.sent
            ≡ nd.sent
              ++ (
                address id,
                record (probe ping (begin_period shuffle now p nd).1.membership.local_node id
                    (begin_period shuffle now p nd).1.membership.incarnation period.seq_num
                    period.updates) { timestamp = unix now },
              )
                ∷ [])
          (sym begun.aimed) begun.pinged,
      handle_ping-replies q asks later node on,
      signalled_directly (reply_to asks later node) last now r nd' period.target on' same waiting,
      forgotten period _,
    )
