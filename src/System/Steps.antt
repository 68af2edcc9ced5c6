-- ===== src/System/Steps.antt =====
-- Every step of a process, in any order: packets, messages, ticks of the loops of both detectors, the
-- parts of a protocol period, callbacks, and the calls of the control server. What a step takes besides
-- the machine (packets, shuffles, periods, the time) is whatever it is, so that loops of a detector
-- that a switch has stopped or has started twice are among the steps.
pub mod Handling
pub mod Invariant
pub mod Stopped
use distributed_group_member.Common.{◌≡◌, ℕ, ◌<◌, Bool, List, [], ◌∷◌, ◌++◌, Option, ℤ}
use distributed_group_member.Types.{Text, NodeId, DetectionMode, Member, Message}
use distributed_group_member.Node.{Node, Callback}
use distributed_group_member.Suspicion.{check}
use distributed_group_member.Controller.{run_callback}
use distributed_group_member.Network.{receive}
use distributed_group_member.Gossip.Rounds as GossipRounds
use distributed_group_member.PingAck.{PingAckManager, IndirectPingWaiter}
use distributed_group_member.PingAck.Updates as PingUpdates
use distributed_group_member.PingAck.Probes.{
  Period, begin_period, probe_indirectly, end_acked, end_silent,
}
use distributed_group_member.PingAck.Probes.Waiters.{
  forward_ack, end_wait, cleanup_orphaned_entries,
}
use distributed_group_member.System.{
  Machine, with_node, with_both, process_queue, join_group, leave_group, switch_mode, set_suspicion,
  start, stop_controller, log_status,
}

abbrev pub with_pinger : (PingAckManager → PingAckManager) → Machine → Machine
with_pinger f m = record m { pinger = f m.pinger }

-- A goroutine that was spawned for a callback, wherever it stands among those that wait, runs.
abbrev pub callback_run : List Callback → Callback → List Callback → ℕ → Node → Node
callback_run before c after now nd = run_callback c now (record nd { spawned = before ++ after })

pub data Step (m : Machine) : Machine → Type 0 where
  started_step : Step m (start m)
  packet_step :
      (decode : Text → Option Message) (drops : Bool) (packet : Text)
      → Step m (record m { network = receive decode drops packet m.network })
  message_step : (now : ℕ) → 0 < now → Step m (process_queue now m)
  stopped_step : Step m (stop_controller m).0
  status_step : (now : ℕ) → Step m (with_node (log_status now) m)
  check_step : (now : ℕ) → Step m (with_node (check now) m)
  callback_step :
      (before : List Callback) (c : Callback) (after : List Callback) (now : ℕ)
      → m.node.spawned ≡ before ++ c ∷ after
      → Step m (with_node (callback_run before c after now) m)
  -- the loops of the gossip detector
  round_step :
      (shuffle shuffle' : List Member → List Member) (now : ℕ)
      → Step m (with_node (GossipRounds.perform_gossip_round shuffle shuffle' m.gossip now) m)
  gossip_failures_step :
      (now : ℕ) → 0 < now → Step m (with_node (GossipRounds.check_failures m.gossip now) m)
  -- the loops of the SWIM detector
  begin_step :
      (shuffle : List Member → List Member) (now : ℕ)
      → Step m (record m {
        pinger = (begin_period shuffle now m.pinger m.node).0;
        node = (begin_period shuffle now m.pinger m.node).1;
      })
  indirect_step :
      (shuffle : List Member → List Member) (now : ℕ) (period : Period)
      → 0 < now
      → Step m (record m {
        pinger = (probe_indirectly shuffle now period m.pinger m.node).0;
        node = (probe_indirectly shuffle now period m.pinger m.node).1;
      })
  acked_step : (period : Period) → Step m (with_pinger (end_acked period) m)
  silent_step : (now : ℕ) (period : Period) → 0 < now → Step m (with_both (end_silent now period) m)
  forward_step :
      (now seq : ℕ) (target : NodeId) (w : IndirectPingWaiter)
      → Step m (with_both (forward_ack now seq target w) m)
  wait_step : (seq : ℕ) (target : NodeId) → Step m (with_pinger (end_wait seq target) m)
  cleanup_step : (now : ℕ) → Step m (with_pinger (cleanup_orphaned_entries now) m)
  ping_failures_step : (now : ℕ) → Step m (with_node (PingUpdates.check_failures m.pinger now) m)
  -- the control server
  join_step : (addr : Text) (now : ℕ) → Step m (join_group addr now m)
  leave_step : (now : ℕ) → Step m (leave_group now m)
  switch_step : (mode : DetectionMode) → Step m (switch_mode mode m).0
  suspicion_step : (enable : Bool) → Step m (set_suspicion enable m)

-- The machines that steps reach.
pub data Reaches (from : Machine) : Machine → Type 0 where
  here : Reaches from from
  then_step : {m m' : Machine} → Reaches from m → Step m m' → Reaches from m'
