-- ===== src/System.antt =====
-- The whole process: main.go, with the handlers that `Start` of detectors/gossip.go and
-- detectors/pingack.go give to the network layer. A message that `processQueue` takes runs the handler
-- that is registered for its type, whichever detector it is of.
pub mod Steps
pub mod Handlers
pub mod Switching
pub mod Draining
pub mod Delivery
use distributed_group_member.Common.{
  ℕ, Bool, true, false, List, [], ◌∷◌, Option, none, some, if◌then◌else◌, not,
}
use distributed_group_member.Types.{
  Text, NodeId, DetectionMode, gossip_mode, ping_ack_mode, MessageType, Message, heartbeat, ping,
  ack, indirect_ping, indirect_ack, join, join_response, leave, suspect, alive_msg, confirm,
}
use distributed_group_member.Membership.{get_recent_updates}
use distributed_group_member.Node.{Node}
use distributed_group_member.Network.{
  NetworkLayer, new_network_layer, register_handler, next_message, stop,
}
use distributed_group_member.Gossip
use distributed_group_member.Gossip.{GossipManager, new_gossip_manager}
use distributed_group_member.Gossip.Group as GossipGroup
use distributed_group_member.PingAck.{PingAckManager, new_ping_ack_manager}
use distributed_group_member.PingAck.Group as PingGroup
use distributed_group_member.PingAck.Probes.Waiters.{cancel_context}
use distributed_group_member.PingAck.Probes.{
  handle_ping, handle_ack, handle_indirect_ping, handle_indirect_ack,
}
use distributed_group_member.Controller.{new_controller}

-- The handlers, by the detector that they are methods of.
pub data Handler : Type 0 where
  gossip_heartbeat gossip_suspect gossip_alive gossip_confirm gossip_join gossip_join_response
        gossip_leave :
      Handler
  ping_ping ping_ack ping_indirect_ping ping_indirect_ack ping_join ping_join_response ping_alive
        ping_suspect ping_leave :
      Handler

pub record Machine : Type 0 where
  pub mode : DetectionMode
  pub gossip : GossipManager
  pub pinger : PingAckManager
  -- whether the channel `stopped` of the ping manager is closed
  pub ping_stopped : Bool
  pub node : Node
  pub network : NetworkLayer Handler

-- `NewController`
unfoldable pub new_machine : DetectionMode → NodeId → ℕ → Machine
new_machine mode id now = record {
  mode = mode;
  gossip = new_gossip_manager;
  pinger = new_ping_ack_manager;
  ping_stopped = false;
  node = new_controller id now;
  network = new_network_layer;
}

unfoldable pub register_gossip : NetworkLayer Handler → NetworkLayer Handler
register_gossip n = register_handler leave gossip_leave (
    register_handler join_response gossip_join_response (
      register_handler join gossip_join (
        register_handler confirm gossip_confirm (
          register_handler alive_msg gossip_alive (
            register_handler suspect gossip_suspect
              (register_handler heartbeat gossip_heartbeat n))))))

unfoldable pub register_ping : NetworkLayer Handler → NetworkLayer Handler
register_ping n = register_handler leave ping_leave (
    register_handler suspect ping_suspect (
      register_handler alive_msg ping_alive (
        register_handler join_response ping_join_response (
          register_handler join ping_join (
            register_handler indirect_ack ping_indirect_ack (
              register_handler indirect_ping ping_indirect_ping
                (register_handler ack ping_ack (register_handler ping ping_ping n))))))))

-- The parts of the two `Start` and of `GossipManager.Stop` besides the loops.
unfoldable pub start_gossip : Machine → Machine
start_gossip m = if m.gossip.active then m else record m {
  gossip = record m.gossip { active = true };
  network = register_gossip m.network;
}

unfoldable pub start_ping : Machine → Machine
start_ping m = record m { network = register_ping m.network }

unfoldable pub stop_gossip : Machine → Machine
stop_gossip m = record m { gossip = record m.gossip { active = false } }

-- `Controller.Start`
unfoldable pub start : Machine → Machine
unfolding start_gossip start_ping
start m = elim m.mode [ gossip_mode ↦ start_gossip m | ping_ack_mode ↦ start_ping m ]

-- `PingAckManager.Stop`, and whether it panics: a closed channel cannot be closed.
unfoldable pub stop_ping : Machine → Machine × Bool
stop_ping m =
    if m.ping_stopped
    then (m, true)
    else (record m { ping_stopped = true; pinger = cancel_context m.pinger }, false)

-- `Controller.SwitchMode`, with whether it panics and what it has done until then.
unfoldable pub switch_mode : DetectionMode → Machine → Machine × Bool
unfolding start_gossip start_ping stop_gossip stop_ping
switch_mode gossip_mode m =
    let (m', panics) = stop_ping (record m { mode = gossip_mode }) in
    (if panics then m' else start_gossip m', panics)
switch_mode ping_ack_mode m = (start_ping (stop_gossip (record m { mode = ping_ack_mode })), false)

-- `Controller.Stop`: a panic ends it before it stops the network. The ticker of the suspicion manager
-- is left out.
unfoldable pub stop_controller : Machine → Machine × Bool
unfolding stop_gossip stop_ping
stop_controller m = elim m.mode [
  | gossip_mode ↦ (record (stop_gossip m) { network = stop m.network }, false)
  | ping_ack_mode ↦
      let (m', panics) = stop_ping m in
      (if panics then m' else record m' { network = stop m'.network }, panics)
]

-- `Controller.SetSuspicion`
unfoldable pub set_suspicion : Bool → Machine → Machine
set_suspicion enable m = elim m.mode [
  | gossip_mode ↦ record m { gossip = record m.gossip { enable_suspicion = enable } }
  | ping_ack_mode ↦ record m { pinger = record m.pinger { enable_suspicion = enable } }
]

-- `Controller.JoinGroup`
unfoldable pub join_group : Text → ℕ → Machine → Machine
join_group addr now m = elim m.mode [
  | gossip_mode ↦
      let (g, nd) = GossipGroup.join_group m.gossip addr now m.node in
      record m { gossip = g; node = nd }
  | ping_ack_mode ↦
      let (p, nd) = PingGroup.join_group m.pinger addr now m.node in
      record m { pinger = p; node = nd }
]

-- `Controller.LeaveGroup`
unfoldable pub leave_group : ℕ → Machine → Machine
leave_group now m = elim m.mode [
  | gossip_mode ↦
      let (g, nd) = GossipGroup.leave_group m.gossip now m.node in
      record m { gossip = g; node = nd }
  | ping_ack_mode ↦
      let (p, nd) = PingGroup.leave_group m.pinger now m.node in record m { pinger = p; node = nd }
]

-- What a round of `StartCLI` changes: it reads the recent updates, which drops the old ones.
unfoldable pub log_status : ℕ → Node → Node
log_status now nd = record nd { membership = (get_recent_updates 10 now nd.membership).1 }

abbrev pub with_node : (Node → Node) → Machine → Machine
with_node f m = record m { node = f m.node }

abbrev pub with_both : (PingAckManager → Node → PingAckManager × Node) → Machine → Machine
with_both f m = record m { pinger = (f m.pinger m.node).0; node = (f m.pinger m.node).1 }

unfoldable pub dispatch : Handler → Message → ℕ → Machine → Machine
dispatch gossip_heartbeat msg now m = with_node (Gossip.handle_heartbeat m.gossip msg now) m
dispatch gossip_suspect msg now m = with_node (Gossip.handle_suspect_message m.gossip msg now) m
dispatch gossip_alive msg now m = with_node (Gossip.handle_alive_message m.gossip msg now) m
dispatch gossip_confirm msg now m = with_node (Gossip.handle_confirm_message m.gossip msg now) m
dispatch gossip_join msg now m = with_node (GossipGroup.handle_join m.gossip msg now) m
dispatch gossip_join_response msg now m =
    with_node (GossipGroup.handle_join_response m.gossip msg now) m
dispatch gossip_leave msg now m = with_node (GossipGroup.handle_leave msg now) m
dispatch ping_ping msg now m = with_node (handle_ping m.pinger msg now) m
dispatch ping_ack msg now m = with_both (handle_ack msg now) m
dispatch ping_indirect_ping msg now m = with_both (handle_indirect_ping msg now) m
dispatch ping_indirect_ack msg now m = with_both (handle_indirect_ack msg now) m
dispatch ping_join msg now m = with_node (PingGroup.handle_join m.pinger msg now) m
dispatch ping_join_response msg now m =
    with_node (PingGroup.handle_join_response m.pinger msg now) m
dispatch ping_alive msg now m = with_node (PingGroup.handle_alive_message m.pinger msg now) m
dispatch ping_suspect msg now m = with_node (PingGroup.handle_suspect_message m.pinger msg now) m
dispatch ping_leave msg now m = with_node (PingGroup.handle_leave msg now) m

-- One round of `processQueue`.
unfoldable pub process_queue : ℕ → Machine → Machine
process_queue now m =
    let (n, next) = next_message m.network in
    elim next [
      | none ↦ record m { network = n }
      | some (msg, handler) ↦ elim handler [
        | none ↦ record m { network = n }
        | some h ↦ dispatch h msg now (record m { network = n })
      ]
    ]
