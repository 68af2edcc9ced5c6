-- ===== src/PingAck/Probes/Acks.antt =====
-- What an Ack does to the probes, and the way of an indirect probe.
use mathlib.Core.Option
use distributed_group_member.Common.{
  ◌≡◌, refl, sym, subst₂, ◌∙◌, ℕ, true, false, false, [], ◌∷◌, ◌++◌, none, some, arith, ite,
  ℕ_discrete, if◌then◌else◌, inl, inr, Option-cases,
}
use distributed_group_member.Common.Dict.{lookup, insert, lookup-insert, lookup-insert_self}
use distributed_group_member.Types.{
  Text-discrete, NodeId, to_string, address, equals, Message, indirect_ack, plain,
}
use distributed_group_member.Types.Keys.{equals_iff}
use distributed_group_member.Membership.{unix}
use distributed_group_member.Node.{Node, send}
use distributed_group_member.PingAck.{PingAckManager, PendingPing, IndirectPingWaiter}
use distributed_group_member.PingAck.Probes.{
  wait_key, signal_direct, signal_waiter, handle_ack, handle_indirect_ping, signal_indirect,
  handle_indirect_ack,
}
use distributed_group_member.PingAck.Probes.Waiters.{forward_ack}

abbrev pub acked : NodeId → PendingPing → PendingPing
acked sender pending =
    if equals pending.target sender
    then record pending { direct_ack = true; ack_received = true }
    else pending

signal_direct_effect :
    (seq : ℕ) (sender : NodeId) (p : PingAckManager) (j : ℕ)
    → lookup ℕ_discrete j (signal_direct seq sender p).pending_acks
      ≡ ite
          (ℕ_discrete seq j)
          (Option.map (acked sender) (lookup ℕ_discrete j p.pending_acks))
          (lookup ℕ_discrete j p.pending_acks)
unfolding signal_direct
signal_direct_effect seq sender p j = elim (Option-cases (lookup ℕ_discrete seq p.pending_acks)) [
  | inl e ↦ rw (e, signal_direct) (ground arith)
  | inr (pending, e) ↦
      rw (e, signal_direct)
        (ground (
          arith,
          lookup-insert ℕ_discrete seq j (record pending { direct_ack = true; ack_received = true })
              p.pending_acks,
        ))
]

-- An Ack at an active node signals the pending probe of its number, and only if that probe's
-- target sent it: every other pending probe stays as it is, and none is added or dropped.
pub handle_ack_effect :
    (msg : Message) (now : ℕ) (p : PingAckManager) (nd : Node) (j : ℕ)
    → p.active ≡ true
    → lookup ℕ_discrete j (handle_ack msg now p nd).0.pending_acks
      ≡ ite
          (ℕ_discrete msg.seq_num j)
          (Option.map (acked msg.sender) (lookup ℕ_discrete j p.pending_acks))
          (lookup ℕ_discrete j p.pending_acks)
unfolding handle_ack signal_waiter
handle_ack_effect msg now p nd j on =
    ground (arith, signal_direct_effect msg.seq_num msg.sender p j)

signal_direct-indirect :
    (seq : ℕ) (sender : NodeId) (p : PingAckManager)
    → (signal_direct seq sender p).pending_indirect ≡ p.pending_indirect
unfolding signal_direct
signal_direct-indirect seq sender p = ground arith

waits :
    (msg : Message) (now : ℕ) (p : PingAckManager) (nd : Node)
    → p.active ≡ true
    → lookup Text-discrete
        (wait_key msg.seq_num msg.target)
        (handle_indirect_ping msg now p nd).0.pending_indirect
      ≡ some (record {
        requester = msg.sender;
        ch = none;
        cancelled = p.cancelled;
        created_time = now;
      })
unfolding handle_indirect_ping
waits msg now p nd on = ground (
  arith,
  lookup-insert_self Text-discrete (wait_key msg.seq_num msg.target)
      (record { requester = msg.sender; ch = none; cancelled = p.cancelled; created_time = now })
      p.pending_indirect,
)

signalled :
    (msg : Message) (now : ℕ) (p : PingAckManager) (nd : Node) (w : IndirectPingWaiter)
    → p.active ≡ true
    → lookup Text-discrete (wait_key msg.seq_num msg.sender) p.pending_indirect ≡ some w
    → w.ch ≡ none
    → lookup Text-discrete
        (wait_key msg.seq_num msg.sender)
        (handle_ack msg now p nd).0.pending_indirect
      ≡ some (record w { ch = some msg.incarnation })
unfolding handle_ack signal_waiter
signalled msg now p nd w on e c =
    let key = wait_key msg.seq_num msg.sender in
    ground (
      arith,
      signal_direct-indirect msg.seq_num msg.sender p,
      lookup-insert_self Text-discrete key (record w { ch = some msg.incarnation })
          (signal_direct msg.seq_num msg.sender p).pending_indirect,
    )

waiting-active :
    (msg : Message) (now : ℕ) (p : PingAckManager) (nd : Node)
    → (handle_indirect_ping msg now p nd).0.active ≡ p.active
unfolding handle_indirect_ping
waiting-active msg now p nd = ground arith

answered :
    (msg : Message) (now : ℕ) (p : PingAckManager) (nd : Node) (pending : PendingPing)
    → p.active ≡ true
    → lookup ℕ_discrete msg.seq_num p.pending_acks ≡ some pending
    → pending.target ≡ msg.target
    → lookup ℕ_discrete msg.seq_num (handle_indirect_ack msg now p nd).0.pending_acks
      ≡ some (record pending {
        indirect_acks = insert Text-discrete (to_string msg.sender) true pending.indirect_acks;
        ack_received = true;
      })
unfolding handle_indirect_ack signal_indirect
answered msg now p nd pending on at same = ground (
  arith,
  (equals_iff pending.target msg.target).1 same,
  lookup-insert_self ℕ_discrete msg.seq_num
      (record pending {
        indirect_acks = insert Text-discrete (to_string msg.sender) true pending.indirect_acks;
        ack_received = true;
      })
      p.pending_acks,
)

-- An indirect probe comes back. Where an active helper that is not stopped is asked to probe a target and
-- the target's Ack of that number comes next, the waiter in its table, whose context is not cancelled, holds
-- the incarnation of the Ack. The goroutine with that waiter then sends the member that asked an
-- IndirectAck; and where that comes to an active prober with a pending probe of that number and target,
-- the probe is signalled.
pub relayed_ack :
    (request reply : Message) (now later last : ℕ) (p r : PingAckManager) (nd nd' nd'' node : Node)
    (pending : PendingPing)
    → p.active ≡ true
    → p.cancelled ≡ false
    → reply.seq_num ≡ request.seq_num
    → reply.sender ≡ request.target
    → r.active ≡ true
    → lookup ℕ_discrete request.seq_num r.pending_acks ≡ some pending
    → pending.target ≡ request.target
    → let helper = (handle_ack reply later (handle_indirect_ping request now p nd).0 nd').0 in
      let forwarded : Message =
        record (plain indirect_ack nd''.membership.local_node request.target reply.incarnation) {
          seq_num = request.seq_num;
          timestamp = unix last;
        } in
      ((w : IndirectPingWaiter) × (lookup Text-discrete
            (wait_key request.seq_num request.target)
            helper.pending_indirect
          ≡ some w)
        × (w.cancelled ≡ false)
        × ((forward_ack last request.seq_num request.target w helper nd'').1.sent
            ≡ nd''.sent ++ (address request.sender, forwarded) ∷ []))
      × (lookup ℕ_discrete request.seq_num
            (handle_indirect_ack forwarded last r node).0.pending_acks
          ≡ some (record pending {
            indirect_acks =
                insert Text-discrete
                  (to_string nd''.membership.local_node)
                  true
                  pending.indirect_acks;
            ack_received = true;
          }))
unfolding forward_ack send
relayed_ack request reply now later last p r nd nd' nd'' node pending on runs seq target on' at
      same =
    let w : IndirectPingWaiter = record {
      requester = request.sender;
      ch = none;
      cancelled = p.cancelled;
      created_time = now;
    } in
    let waiting =
      subst₂
        (λ (s : ℕ) (t : NodeId).
          lookup Text-discrete (wait_key s t)
            (handle_indirect_ping request now p nd).0.pending_indirect
          ≡ some w)
        (sym seq) (sym target) (waits request now p nd on) in
    (
      (
        record w { ch = some reply.incarnation },
        subst₂
            (λ (s : ℕ) (t : NodeId).
              lookup Text-discrete (wait_key s t)
                (handle_ack reply later (handle_indirect_ping request now p nd).0
                  nd').0.pending_indirect
              ≡ some (record w { ch = some reply.incarnation }))
            seq target
            (signalled reply later (handle_indirect_ping request now p nd).0 nd' _
              (waiting-active request now p nd ∙ on) waiting refl),
        runs,
        refl,
      ),
      answered _ last r node pending on' at same,
    )
