-- ===== src/Scenarios.antt =====
-- Two nodes, a message and the states that the examples run on.
mod Facts
mod Detector
mod Failures
mod Probing
mod Lists
mod Whole
mod Console
mod Lifecycle
mod Rumours
mod Startup
use distributed_group_member.Common.{
  ℕ, ◌*◌, ℤ, pos, Bool, true, false, List, [], ◌∷◌, Option, none, some,
}
use distributed_group_member.Types.{
  Text, NodeId, to_string, Member, MemberStatus, MemberUpdate, Message, MessageType, alive,
  suspected, failed, heartbeat, plain, second, optimal_timeout_config,
}
use distributed_group_member.Membership.{MembershipList, fresh_member}
use distributed_group_member.Node.{Node, SuspectEntry}
use distributed_group_member.Gossip.{GossipManager}
use distributed_group_member.PingAck.{PingAckManager, PendingPing}
use distributed_group_member.Controller.{controller_options}

abbrev pub self : NodeId
self = record { ip = b'a' ∷ []; port = pos 1; timestamp = pos 1 }

abbrev pub peer : NodeId
peer = record { ip = b'b' ∷ []; port = pos 2; timestamp = pos 1 }

abbrev pub self_member : Member
self_member = fresh_member self (pos 0) alive 1

abbrev pub peer_member : Member
peer_member = fresh_member peer (pos 0) alive 1

-- Both nodes are Alive.
abbrev pub two_members : MembershipList
two_members = record {
  local_node = self;
  members = (to_string self, self_member) ∷ (to_string peer, peer_member) ∷ [];
  incarnation = pos 0;
  recent_updates = [];
  update_window = 5 * second;
}

abbrev pub calm : Node
calm = record {
  membership = two_members;
  options = controller_options;
  entries = [];
  spawned = [];
  sent = [];
}

-- The peer is Suspected since the time 1000.
abbrev pub suspected_peer : Member
suspected_peer = record peer_member { status = suspected; suspicion_start = 1000 }

abbrev pub open_entry : SuspectEntry
open_entry = record {
  target = peer;
  incarnation = pos 0;
  reporters = (self, 1000) ∷ [];
  first_report = 1000;
  confirmed = false;
  confirmed_at = 0;
  cleanup_after = 0;
}

abbrev pub alarmed : Node
alarmed = record calm {
  membership = record two_members {
    members = (to_string self, self_member) ∷ (to_string peer, suspected_peer) ∷ [];
  };
  entries = (to_string peer, open_entry) ∷ [];
}

abbrev pub detector : GossipManager
detector = record {
  fanout = 3;
  enable_suspicion = true;
  active = true;
  timeouts = optimal_timeout_config;
}

abbrev pub prober : PingAckManager
prober = record {
  k = 3;
  seq_num = 0;
  pending_acks = [];
  pending_indirect = [];
  enable_suspicion = true;
  active = true;
  cancelled = false;
  timeouts = optimal_timeout_config;
}

-- A heartbeat of the peer that refutes its suspicion.
abbrev pub refutation : Message
refutation = plain heartbeat peer self (pos 1)
