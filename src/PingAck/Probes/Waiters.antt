-- ===== src/PingAck/Probes/Waiters.antt =====
-- detectors/pingack.go: the goroutine that waits for the target of an indirect probe, and the
-- cleanup of entries that it left.
use distributed_group_member.Common.{wrap64, ℕ, ◌+ℤ◌, Bool, true, ◌||◌, none, some, ltb_ℤ, select}
use distributed_group_member.Common.Dict.{map_values, delete, delete_all, keys}
use distributed_group_member.Types.{
  Text, Text-discrete, NodeId, address, indirect_ack, plain, sub_time,
}
use distributed_group_member.Node.{Node, send}
use distributed_group_member.PingAck.{PingAckManager, IndirectPingWaiter}
use distributed_group_member.PingAck.Probes.{wait_key}

-- The goroutine is done: its entry is deleted.
unfoldable pub end_wait : ℕ → NodeId → PingAckManager → PingAckManager
end_wait seq target p = record p {
  pending_indirect = delete Text-discrete (wait_key seq target) p.pending_indirect;
}

-- The goroutine takes the value of its channel, if it holds one, and forwards it to the requester. The
-- goroutine holds its waiter itself, also where another probe has taken its key over. Where the
-- context is cancelled too, `select` takes either, and `end_wait` is the other way.
unfoldable pub forward_ack :
    ℕ → ℕ → NodeId → IndirectPingWaiter → PingAckManager → Node → PingAckManager × Node
forward_ack now seq target w p nd = elim w.ch [
  | none ↦ (p, nd)
  | some inc ↦
      let msg = record (plain indirect_ack nd.membership.local_node target inc) { seq_num = seq } in
      (end_wait seq target p, send now msg (address w.requester) nd)
]

-- `p.cancel()`, which cancels the contexts of all waiters too.
unfoldable pub cancel_context : PingAckManager → PingAckManager
cancel_context p = record p {
  cancelled = true;
  pending_indirect = map_values (λ _ w. record w { cancelled = true }) p.pending_indirect;
}

-- The test of `cleanupOrphanedEntries`.
unfoldable pub is_orphaned : PingAckManager → ℕ → IndirectPingWaiter → Bool
is_orphaned p now w =
    w.cancelled
    || ltb_ℤ (wrap64 (p.timeouts.ack_timeout +ℤ p.timeouts.ack_timeout))
        (sub_time now w.created_time)

unfoldable pub cleanup_orphaned_entries : ℕ → PingAckManager → PingAckManager
cleanup_orphaned_entries now p = record p {
  pending_indirect =
      delete_all Text-discrete
        (keys
          (select (λ (e : Text × IndirectPingWaiter). is_orphaned p now e.1) p.pending_indirect))
        p.pending_indirect;
}
