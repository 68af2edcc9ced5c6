-- ===== src/PingAck.antt =====
-- detectors/pingack.go: the SWIM-style detector, its probes and its handlers. A handler runs as one
-- step and reads the clock once. `performSWIMProtocolPeriod` waits on channels and timers: its parts
-- between the waits are steps of their own.
pub mod Updates
pub mod Probes
pub mod Group
pub mod Loops
pub mod Detection
pub mod Invariant
use distributed_group_member.Common.{
  ℕ, Bool, true, false, ◌&&◌, not, List, [], ◌∷◌, Option, none, some, ℤ, ltb_ℤ, leb_ℤ, eqb_ℤ,
  if◌then◌else◌,
}
use distributed_group_member.Types.{Text, NodeId, TimeoutConfig, optimal_timeout_config}

pub record PendingPing : Type 0 where
  pub target : NodeId
  pub seq_num : ℕ
  pub start_time : ℕ
  pub direct_ack : Bool
  pub indirect_acks : List (Text × Bool)
  -- whether the channel, of capacity 1, holds a value
  pub ack_received : Bool

pub record IndirectPingWaiter : Type 0 where
  pub requester : NodeId
  -- the value that the channel, of capacity 1, holds
  pub ch : Option ℤ
  -- whether its context, a child of that of the manager, is cancelled
  pub cancelled : Bool
  pub created_time : ℕ

pub record PingAckManager : Type 0 where
  pub k : ℕ
  pub seq_num : ℕ
  pub pending_acks : List (ℕ × PendingPing)
  pub pending_indirect : List (Text × IndirectPingWaiter)
  pub enable_suspicion : Bool
  pub active : Bool
  -- whether `Stop` has cancelled the context of the manager
  pub cancelled : Bool
  pub timeouts : TimeoutConfig

unfoldable pub new_ping_ack_manager_with_timeouts : TimeoutConfig → PingAckManager
new_ping_ack_manager_with_timeouts t = record {
  k = 3;
  seq_num = 0;
  pending_acks = [];
  pending_indirect = [];
  enable_suspicion = false;
  active = true;
  cancelled = false;
  timeouts = t;
}

unfoldable pub new_ping_ack_manager : PingAckManager
unfolding new_ping_ack_manager_with_timeouts
new_ping_ack_manager = new_ping_ack_manager_with_timeouts optimal_timeout_config
