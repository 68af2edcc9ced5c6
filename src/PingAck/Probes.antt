-- ===== src/PingAck/Probes.antt =====
-- detectors/pingack.go: the probes of a protocol period, their acknowledgements, and the probes on
-- behalf of others. `pendingAcks` is keyed by the sequence number, `pendingIndirect` by the text
-- "%d|%s" of the number and the target.
pub mod Waiters
pub mod Keys
pub mod Acks
pub mod Periods
pub mod Answered
use distributed_group_member.Common.{
  ℕ, ◌+◌, ◌*◌, ◌%◌, ◌^◌, Bool, true, false, ◌&&◌, ◌||◌, not, List, [], ◌∷◌, ◌++◌, Option, none,
  some, ℤ, pos, ltb_ℤ, leb_ℤ, eqb_ℤ, if◌then◌else◌, select, map, ℕ_discrete, ◌-◌, ◌==◌,
}
use distributed_group_member.Common.Dict.{lookup, insert, delete, delete_all, keys}
use distributed_group_member.Types.{
  Text, Text-discrete, NodeId, to_string, address, equals, Member, MemberUpdate, alive, is_alive,
  Message, MessageType, ping, ack, indirect_ping, indirect_ack, plain, sub_time,
}
use distributed_group_member.Types.Decimal.{decimal}
use distributed_group_member.Membership.{
  MembershipList, member_at, store, local_key, add_recent_update, get_random_members,
  get_recent_updates,
}
use distributed_group_member.Node.{Node, send, send_all}
use distributed_group_member.Suspicion.{with_members, clear_suspect}
use distributed_group_member.PingAck.{PingAckManager, PendingPing, IndirectPingWaiter}
use distributed_group_member.PingAck.Updates.{hear_from, process_updates, declare_suspicion}

-- A message of a probe: no field but the members and the number is left out.
abbrev pub probe : MessageType → NodeId → NodeId → ℤ → ℕ → List MemberUpdate → Message
probe t sender target inc seq updates = record (plain t sender target inc) {
  seq_num = seq;
  members = updates;
}

abbrev pub forget : ℕ → PingAckManager → PingAckManager
forget seq p = record p { pending_acks = delete ℕ_discrete seq p.pending_acks }

-- What a period goes on with after its first wait.
pub record Period : Type 0 where
  pub target : NodeId
  pub seq_num : ℕ
  pub updates : List MemberUpdate

abbrev pub pending_ping : NodeId → ℕ → ℕ → PendingPing
pending_ping target seq now = record {
  target = target;
  seq_num = seq;
  start_time = now;
  direct_ack = false;
  indirect_acks = [];
  ack_received = false;
}

-- The period up to the wait for the direct Ack. The sequence number is a uint64.
unfoldable pub begin_period :
    (List Member → List Member) → ℕ → PingAckManager → Node → PingAckManager × Node × Option Period
begin_period shuffle now p nd =
    elim (get_random_members shuffle 1 (local_key nd.membership ∷ []) nd.membership) [
      | [] ↦ (p, nd, none)
      | t ∷ ts ↦
          let seq = (p.seq_num + 1) % 2 ^ 64 in
          let (updates, ml) = get_recent_updates 5 now nd.membership in
          let msg = probe ping ml.local_node t.id ml.incarnation seq updates in
          (
            record p {
              seq_num = seq;
              pending_acks = insert ℕ_discrete seq (pending_ping t.id seq now) p.pending_acks;
            },
            send now msg (address t.id) (record nd { membership = ml }),
            some (record { target = t.id; seq_num = seq; updates = updates }),
          )
    ]

-- The direct Ack has not come: other members are asked to probe the target; without any the target
-- is suspected at once. The Boolean says whether the period goes on to its second wait.
unfoldable pub probe_indirectly :
    (List Member → List Member) → ℕ → Period → PingAckManager → Node → PingAckManager × Node × Bool
probe_indirectly shuffle now period p nd =
    let ml = nd.membership in
    elim (get_random_members shuffle p.k (local_key ml ∷ to_string period.target ∷ []) ml) [
      | [] ↦ (
        forget period.seq_num p,
        declare_suspicion p.enable_suspicion period.target now nd,
        false,
      )
      | m ∷ ms ↦
          let msg =
            probe indirect_ping ml.local_node period.target ml.incarnation period.seq_num
              period.updates in
          (p, send_all now msg (map (λ x. address x.id) (m ∷ ms)) nd, true)
    ]

-- An Ack has come in one of the two waits.
unfoldable pub end_acked : Period → PingAckManager → PingAckManager
end_acked period p = forget period.seq_num p

-- No Ack has come in the second wait.
unfoldable pub end_silent : ℕ → Period → PingAckManager → Node → PingAckManager × Node
end_silent now period p nd =
    (forget period.seq_num p, declare_suspicion p.enable_suspicion period.target now nd)

unfoldable pub handle_ping : PingAckManager → Message → ℕ → Node → Node
handle_ping p msg now nd =
    let ml = nd.membership in
    let reply = record (plain ack ml.local_node msg.sender ml.incarnation) {
      seq_num = msg.seq_num;
    } in
    let sent = send now reply (address msg.sender) nd in
    if not p.active
    then nd
    else process_updates p.enable_suspicion msg.members msg.sender now
        (with_members (hear_from msg.sender msg.incarnation now) sent)

-- "%d|%s"
unfoldable pub wait_key : ℕ → NodeId → Text
wait_key seq id = decimal seq ++ b'|' ∷ to_string id

-- A send that does not wait: a value that the channel holds stays.
abbrev pub offer : ℤ → Option ℤ → Option ℤ
offer inc none = some inc
offer inc (some held) = some held

-- A pending probe that an Ack of its target reaches.
unfoldable pub signal_direct : ℕ → NodeId → PingAckManager → PingAckManager
signal_direct seq sender p = elim (lookup ℕ_discrete seq p.pending_acks) [
  | none ↦ p
  | some pending ↦
      if equals pending.target sender
      then record p {
        pending_acks =
            insert ℕ_discrete seq (record pending { direct_ack = true; ack_received = true })
              p.pending_acks;
      }
      else p
]

-- The goroutine that waits for the target of an indirect probe.
unfoldable pub signal_waiter : ℕ → NodeId → ℤ → PingAckManager → PingAckManager
signal_waiter seq sender inc p =
    let key = wait_key seq sender in
    elim (lookup Text-discrete key p.pending_indirect) [
      | none ↦ p
      | some w ↦ record p {
        pending_indirect =
            insert Text-discrete key (record w { ch = offer inc w.ch }) p.pending_indirect;
      }
    ]

unfoldable pub handle_ack : Message → ℕ → PingAckManager → Node → PingAckManager × Node
handle_ack msg now p nd = if not p.active then (p, nd) else (
  signal_waiter msg.seq_num msg.sender msg.incarnation (signal_direct msg.seq_num msg.sender p),
  clear_suspect msg.sender msg.incarnation
      (with_members (hear_from msg.sender msg.incarnation now) nd),
)

-- The member that asks for an indirect probe is heard of.
unfoldable pub hear_requester : NodeId → ℤ → ℕ → MembershipList → MembershipList
hear_requester id inc now ml = elim (member_at (to_string id) ml) [
  | none ↦ ml
  | some m ↦
      if leb_ℤ m.incarnation inc
      then store (to_string id) (record m { last_heartbeat = now }) ml
      else ml
]

unfoldable pub handle_indirect_ping : Message → ℕ → PingAckManager → Node → PingAckManager × Node
handle_indirect_ping msg now p nd =
    let heard = with_members (hear_requester msg.sender msg.incarnation now) nd in
    let waiter : IndirectPingWaiter = record {
      requester = msg.sender;
      ch = none;
      cancelled = p.cancelled;
      created_time = now;
    } in
    let p' = record p {
      pending_indirect =
          insert Text-discrete (wait_key msg.seq_num msg.target) waiter p.pending_indirect;
    } in
    let updated = process_updates p.enable_suspicion msg.members msg.sender now heard in
    let (updates, ml) = get_recent_updates 5 now updated.membership in
    let request = probe ping ml.local_node msg.target ml.incarnation msg.seq_num updates in
    if not p.active
    then (p, nd)
    else (p', send now request (address msg.target) (record updated { membership = ml }))

-- A pending probe that an indirect Ack about its target reaches.
unfoldable pub signal_indirect : ℕ → NodeId → NodeId → PingAckManager → PingAckManager
signal_indirect seq target sender p = elim (lookup ℕ_discrete seq p.pending_acks) [
  | none ↦ p
  | some pending ↦
      if equals pending.target target
      then record p {
        pending_acks =
            insert ℕ_discrete seq
              (record pending {
                indirect_acks = insert Text-discrete (to_string sender) true pending.indirect_acks;
                ack_received = true;
              })
              p.pending_acks;
      }
      else p
]

-- The target of an indirect probe is heard of.
unfoldable pub hear_target : NodeId → ℤ → ℕ → MembershipList → MembershipList
hear_target id inc now ml =
    let key = to_string id in
    elim (member_at key ml) [
      | none ↦ ml
      | some m ↦
          let heard = record m { incarnation = inc; last_heartbeat = now } in
          let cleared = record heard { status = alive; suspicion_start = 0 } in
          if leb_ℤ m.incarnation inc
          then (if is_alive m.status
              then store key heard ml
              else add_recent_update cleared now (store key cleared ml))
          else ml
    ]

unfoldable pub handle_indirect_ack : Message → ℕ → PingAckManager → Node → PingAckManager × Node
handle_indirect_ack msg now p nd = if not p.active then (p, nd) else (
  signal_indirect msg.seq_num msg.target msg.sender p,
  clear_suspect msg.target msg.incarnation
      (with_members (hear_target msg.target msg.incarnation now) nd),
)
