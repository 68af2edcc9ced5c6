-- ===== src/System/Steps/Handling.antt =====
-- Messages, joins and leaves against what holds of a process.
use distributed_group_member.Common.{
  ◌≡◌, refl, ℕ, ◌<◌, ◌≤◌, Bool, List, [], ◌∷◌, Option, none, some, arith, inl, inr, length,
  length-append, Option-cases, ◌⊎◌,
}
use distributed_group_member.Types.{Text, DetectionMode, gossip_mode, ping_ack_mode, Message}
use distributed_group_member.Node.{Node, Callback}
use distributed_group_member.Suspicion.Entries.{Inv}
use distributed_group_member.Network.{NetworkLayer, capacity, receive, enqueue, next_message}
use distributed_group_member.Gossip.Handlers.{
  handle_heartbeat-Keeps, handle_suspect_message-Keeps, handle_alive_message-Keeps,
  handle_confirm_message-Keeps,
}
use distributed_group_member.Gossip.Invariant.{
  handle_join-Inv, handle_join_response-Keeps, handle_leave-Inv, join_group-Inv, leave_group-Inv,
}
use distributed_group_member.PingAck.Invariant.{handle_ping-Keeps, handle_ack-Keeps}
use distributed_group_member.PingAck.Invariant.Probes.{
  handle_indirect_ping-Inv, handle_indirect_ack-Inv,
}
use distributed_group_member.PingAck.Invariant.Group.{
  group_handlers-Inv, ping_join_group-Inv, ping_leave_group-Inv,
}
use distributed_group_member.System.{
  Handler, gossip_heartbeat, gossip_suspect, gossip_alive, gossip_confirm, gossip_join,
  gossip_join_response, gossip_leave, ping_ping, ping_ack, ping_indirect_ping, ping_indirect_ack,
  ping_join, ping_join_response, ping_alive, ping_suspect, ping_leave, Machine, join_group,
  leave_group, process_queue, dispatch,
}

-- The node is well-formed and the receive queue is within its capacity.
pub record IsSafe (m : Machine) : Type 0 where
  pub kept : Inv m.node
  pub bounded : length m.network.message_queue ≤ capacity

dispatch-Inv :
    (h : Handler) (msg : Message) (now : ℕ) (m : Machine)
    → 0 < now
    → IsSafe m
    → Inv (dispatch h msg now m).node
unfolding dispatch
dispatch-Inv gossip_heartbeat msg now m t v =
    (handle_heartbeat-Keeps m.gossip msg now m.node t v.kept).inv
dispatch-Inv gossip_suspect msg now m t v =
    (handle_suspect_message-Keeps m.gossip msg now m.node t v.kept).inv
dispatch-Inv gossip_alive msg now m t v =
    (handle_alive_message-Keeps m.gossip msg now m.node t v.kept).inv
dispatch-Inv gossip_confirm msg now m t v =
    (handle_confirm_message-Keeps m.gossip msg now m.node t v.kept).inv
dispatch-Inv gossip_join msg now m t v = handle_join-Inv m.gossip msg now m.node v.kept
dispatch-Inv gossip_join_response msg now m t v =
    (handle_join_response-Keeps m.gossip msg now m.node v.kept).inv
dispatch-Inv gossip_leave msg now m t v = handle_leave-Inv msg now m.node v.kept
dispatch-Inv ping_ping msg now m t v = (handle_ping-Keeps m.pinger msg now m.node t v.kept).inv
dispatch-Inv ping_ack msg now m t v = (handle_ack-Keeps m.pinger msg now m.node v.kept).inv
dispatch-Inv ping_indirect_ping msg now m t v =
    handle_indirect_ping-Inv msg now m.pinger m.node t v.kept
dispatch-Inv ping_indirect_ack msg now m t v =
    handle_indirect_ack-Inv msg now m.pinger m.node v.kept
dispatch-Inv ping_join msg now m t v =
    (group_handlers-Inv m.pinger msg now m.node t v.kept).join_kept
dispatch-Inv ping_join_response msg now m t v =
    (group_handlers-Inv m.pinger msg now m.node t v.kept).response_kept
dispatch-Inv ping_alive msg now m t v =
    (group_handlers-Inv m.pinger msg now m.node t v.kept).alive_kept
dispatch-Inv ping_suspect msg now m t v =
    (group_handlers-Inv m.pinger msg now m.node t v.kept).suspect_kept
dispatch-Inv ping_leave msg now m t v =
    (group_handlers-Inv m.pinger msg now m.node t v.kept).gone_kept

pub dispatch-network :
    (h : Handler) (msg : Message) (now : ℕ) (m : Machine)
    → (dispatch h msg now m).network ≡ m.network
unfolding dispatch
dispatch-network gossip_heartbeat msg now m = refl
dispatch-network gossip_suspect msg now m = refl
dispatch-network gossip_alive msg now m = refl
dispatch-network gossip_confirm msg now m = refl
dispatch-network gossip_join msg now m = refl
dispatch-network gossip_join_response msg now m = refl
dispatch-network gossip_leave msg now m = refl
dispatch-network ping_ping msg now m = refl
dispatch-network ping_ack msg now m = refl
dispatch-network ping_indirect_ping msg now m = refl
dispatch-network ping_indirect_ack msg now m = refl
dispatch-network ping_join msg now m = refl
dispatch-network ping_join_response msg now m = refl
dispatch-network ping_alive msg now m = refl
dispatch-network ping_suspect msg now m = refl
dispatch-network ping_leave msg now m = refl

dispatch-IsSafe :
    (h : Handler) (msg : Message) (now : ℕ) (m : Machine)
    → 0 < now
    → IsSafe m
    → IsSafe (dispatch h msg now m)
dispatch-IsSafe h msg now m t v = record {
  kept = dispatch-Inv h msg now m t v;
  bounded = rw (dispatch-network h msg now m) v.bounded;
}

pub spawned-Inv : (nd : Node) (l : List Callback) → Inv nd → Inv (record nd { spawned = l })
spawned-Inv nd l v = record {
  formed = v.formed;
  unique = v.unique;
  sound = v.sound;
  positive = v.positive;
}

pub receive_bounded :
    (decode : Text → Option Message) (drops : Bool) (packet : Text) (n : NetworkLayer Handler)
    → length n.message_queue ≤ capacity
    → length (receive decode drops packet n).message_queue ≤ capacity
unfolding receive enqueue
receive_bounded decode drops packet n b = elim (Option-cases (decode packet)) [
  | inl e ↦ ground arith
  | inr (msg, e) ↦ ground (arith, length-append n.message_queue (msg ∷ []))
]

next_message_bounded :
    (n : NetworkLayer Handler)
    → length n.message_queue ≤ capacity
    → length (next_message n).0.message_queue ≤ capacity
unfolding next_message
next_message_bounded n b = ground arith

pub process_queue-IsSafe :
    (now : ℕ) (m : Machine) → 0 < now → IsSafe m → IsSafe (process_queue now m)
unfolding process_queue
process_queue-IsSafe now m t v = go (next_message m.network).1 refl
  where
    waits : IsSafe (record m { network = (next_message m.network).0 })
    waits = record { kept = v.kept; bounded = next_message_bounded m.network v.bounded }

    go :
        (next : Option (Message × Option Handler))
        → (next_message m.network).1 ≡ next
        → IsSafe (process_queue now m)
    go none e = rw (process_queue, e) waits
    go (some (msg, none)) e = rw (process_queue, e) waits
    go (some (msg, some h)) e =
        rw (process_queue, e)
          (dispatch-IsSafe h msg now (record m { network = (next_message m.network).0 }) t waits)

pub mode_cases : (d : DetectionMode) → (d ≡ gossip_mode) ⊎ (d ≡ ping_ack_mode)
mode_cases gossip_mode = inl refl
mode_cases ping_ack_mode = inr refl

pub join_group-IsSafe :
    (addr : Text) (now : ℕ) (m : Machine) → IsSafe m → IsSafe (join_group addr now m)
unfolding join_group
join_group-IsSafe addr now m v = elim (mode_cases m.mode) [
  | inl e ↦
      rw (e, join_group)
        (record { kept = join_group-Inv m.gossip addr now m.node v.kept; bounded = v.bounded })
  | inr e ↦
      rw (e, join_group)
        (record { kept = ping_join_group-Inv m.pinger now m.node v.kept addr; bounded = v.bounded })
]

pub leave_group-IsSafe : (now : ℕ) (m : Machine) → IsSafe m → IsSafe (leave_group now m)
unfolding leave_group
leave_group-IsSafe now m v = elim (mode_cases m.mode) [
  | inl e ↦
      rw (e, leave_group)
        (record { kept = leave_group-Inv m.gossip now m.node v.kept; bounded = v.bounded })
  | inr e ↦
      rw (e, leave_group)
        (record { kept = ping_leave_group-Inv m.pinger now m.node v.kept; bounded = v.bounded })
]

abbrev pub Unchanged : Machine → Machine → Type 0
Unchanged m m' = (m'.node ≡ m.node) × (m'.network.message_queue ≡ m.network.message_queue)
