-- ===== src/Scenarios/Probing.antt =====
-- The theorems on the probes at work.
use mathlib.Core.List.{Memᴰ}
use distributed_group_member.Common.{
  ◌≡◌, refl, pos, true, false, [], ◌∷◌, ◌++◌, none, some, arith, ℕ_discrete,
}
use distributed_group_member.Common.Dict.{lookup, insert}
use distributed_group_member.Types.{
  Text-discrete, NodeId, to_string, address, MemberUpdate, Message, suspected, ack, ping,
  indirect_ping, indirect_ack, plain,
}
use distributed_group_member.Membership.{unix, get_recent_updates}
use distributed_group_member.Gossip
use distributed_group_member.Gossip.Group as G
use distributed_group_member.Node.{Node}
use distributed_group_member.PingAck.{PingAckManager, IndirectPingWaiter}
use distributed_group_member.PingAck.Updates.{process_updates}
use distributed_group_member.PingAck.Updates.Agreement.{process_updates-Gossip}
use distributed_group_member.PingAck.Group.{
  handle_join, handle_join_response, handle_alive_message, handle_suspect_message, handle_leave,
  join_group, leave_group,
}
use distributed_group_member.PingAck.Group.Agreement.{group_handlers-Gossip}
use distributed_group_member.PingAck.Probes.{
  wait_key, probe, pending_ping, begin_period, end_acked, Period, handle_ping, handle_ack,
  handle_indirect_ping, handle_indirect_ack,
}
use distributed_group_member.PingAck.Probes.Acks.{relayed_ack}
use distributed_group_member.PingAck.Probes.Answered.{reply_to, answered_probe}
use distributed_group_member.PingAck.Probes.Waiters.{forward_ack}
use distributed_group_member.Scenarios.{self, peer, two_members, calm, detector, prober}
use distributed_group_member.Scenarios.Facts.{calm-Inv, keep, keep-Perm, drawn_other}

-- A probe of the peer is pending.
abbrev probing : PingAckManager
probing = record prober { pending_acks = (7, pending_ping peer 7 1000) ∷ [] }

abbrev reply : Message
reply = record (plain ack peer self (pos 1)) { seq_num = 7 }

-- A third node asks this one to probe the peer.
abbrev asker : NodeId
asker = record { ip = b'c' ∷ []; port = pos 3; timestamp = pos 1 }

abbrev request : Message
request = record (plain indirect_ping asker peer (pos 0)) { seq_num = 7 }

is_pending : lookup ℕ_discrete 7 probing.pending_acks ≡ some (pending_ping peer 7 1000)
unfolding lookup
is_pending = ground arith

relayed_ack_example :
    let helper = (handle_ack reply 2000 (handle_indirect_ping request 1500 prober calm).0 calm).0 in
    let forwarded : Message = record (plain indirect_ack self peer (pos 1)) {
      seq_num = 7;
      timestamp = unix 2500;
    } in
    ((w : IndirectPingWaiter) × (lookup Text-discrete (wait_key 7 peer) helper.pending_indirect
        ≡ some w)
      × (w.cancelled ≡ false)
      × ((forward_ack 2500 7 peer w helper calm).1.sent ≡ [] ++ (address asker, forwarded) ∷ []))
    × (lookup ℕ_discrete 7 (handle_indirect_ack forwarded 2500 probing calm).0.pending_acks
        ≡ some (record (pending_ping peer 7 1000) {
          indirect_acks = insert Text-discrete (to_string self) true [];
          ack_received = true;
        }))
relayed_ack_example =
    relayed_ack request reply 1500 2000 2500 prober probing calm calm calm calm
      (pending_ping peer 7 1000) refl refl refl refl refl is_pending refl

abbrev rumour : MemberUpdate
rumour = record { node_id = peer; incarnation = pos 0; status = suspected; timestamp = 0 }

process_updates-Gossip_example :
    process_updates true (rumour ∷ []) asker 2000 calm
    ≡ Gossip.process_updates true (rumour ∷ []) asker 2000 calm
process_updates-Gossip_example = process_updates-Gossip true (rumour ∷ []) asker 2000 calm

abbrev gossips : Message
gossips = record (plain ping peer self (pos 1)) { seq_num = 3; members = rumour ∷ [] }

group_handlers-Gossip_example :
    (handle_join prober gossips 2000 calm ≡ G.handle_join detector gossips 2000 calm)
    × (handle_join_response prober gossips 2000 calm
        ≡ G.handle_join_response detector gossips 2000 calm)
    × (handle_alive_message prober gossips 2000 calm
        ≡ Gossip.handle_alive_message detector gossips 2000 calm)
    × (handle_suspect_message prober gossips 2000 calm
        ≡ Gossip.handle_suspect_message detector gossips 2000 calm)
    × (handle_leave gossips 2000 calm ≡ G.handle_leave gossips 2000 calm)
    × ((join_group prober (address peer) 2000 calm).1
        ≡ (G.join_group detector (address peer) 2000 calm).1)
    × ((leave_group prober 2000 calm).1 ≡ (G.leave_group detector 2000 calm).1)
group_handlers-Gossip_example =
    group_handlers-Gossip detector prober gossips (address peer) 2000 calm refl refl

-- The period that starts on the calm node.
abbrev first_period : Period
first_period = record { target = peer; seq_num = 1; updates = [] }

goes_on : (begin_period keep 2000 prober calm).2 ≡ some first_period
unfolding begin_period get_recent_updates
goes_on = rw (drawn_other 1 (omega arith), begin_period) refl

still_active : (begin_period keep 2000 prober calm).0.active ≡ true
unfolding begin_period get_recent_updates
still_active = rw (drawn_other 1 (omega arith), begin_period) refl

-- The peer's own view.
abbrev other : Node
other = record calm { membership = record two_members { local_node = peer } }

answered_probe_example :
    let pinged = (begin_period keep 2000 prober calm).1 in
    let asks : Message =
      record (probe ping pinged.membership.local_node peer pinged.membership.incarnation 1 []) {
        timestamp = unix 2000;
      } in
    let reply = reply_to asks 2100 other in
    let r' = (handle_ack reply 2200 (begin_period keep 2000 prober calm).0 calm).0 in
    (pinged.sent ≡ [] ++ (address peer, asks) ∷ [])
    × Memᴰ (address asks.sender, reply) (handle_ping prober asks 2100 other).sent
    × (lookup ℕ_discrete 1 r'.pending_acks
        ≡ some (record (pending_ping peer 1 2000) { direct_ack = true; ack_received = true }))
    × (lookup ℕ_discrete 1 (end_acked first_period r').pending_acks ≡ none)
answered_probe_example =
    answered_probe keep 2000 2100 2200 prober prober (begin_period keep 2000 prober calm).0 calm
      other calm first_period keep-Perm calm-Inv.formed goes_on refl refl still_active refl
