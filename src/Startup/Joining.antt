-- ===== src/Startup/Joining.antt =====
-- A process that has started with `Start` of main.go, and its `JoinGroup`: ready for joins and answers.
use distributed_group_member.Common.{◌≡◌, refl, ℕ, pos, [], ◌∷◌, inl, inr}
use distributed_group_member.Types.{
  Text, NodeId, DetectionMode, gossip_mode, ping_ack_mode, join, join_response, plain, zero_id,
}
use distributed_group_member.Membership.{unix, refresh_local_node, new_membership_list}
use distributed_group_member.Node.{send}
use distributed_group_member.Suspicion.{new_suspicion_manager}
use distributed_group_member.Controller.{new_controller}
use distributed_group_member.Network.{register_handler, new_network_layer}
use distributed_group_member.Gossip
use distributed_group_member.Gossip.{GossipManager}
use distributed_group_member.Gossip.Group as G
use distributed_group_member.PingAck
use distributed_group_member.PingAck.Group as P
use distributed_group_member.System.{
  Machine, new_machine, start, start_gossip, start_ping, register_gossip, register_ping, join_group,
}
use distributed_group_member.System.Handlers.{
  answer_of, handler_of-register_gossip, handler_of-register_ping,
}
use distributed_group_member.System.Delivery.{IsIdle, IsReady}

start-IsIdle :
    (mode : DetectionMode) (id : NodeId) (now : ℕ) → IsIdle (start (new_machine mode id now))
unfolding start start_gossip start_ping new_machine register_gossip register_ping new_network_layer
    register_handler Gossip.new_gossip_manager
start-IsIdle gossip_mode id now = record { up = refl; empty = refl }
start-IsIdle ping_ack_mode id now = record { up = refl; empty = refl }

-- A machine that has started, in either mode, is ready.
pub start-IsReady :
    (mode : DetectionMode) (id : NodeId) (now : ℕ) → IsReady (start (new_machine mode id now))
unfolding start start_gossip start_ping new_machine answer_of Gossip.new_gossip_manager
    PingAck.new_ping_ack_manager
start-IsReady gossip_mode id now = record {
  idle = start-IsIdle gossip_mode id now;
  serving = inl (
    (
      handler_of-register_gossip join new_network_layer,
      handler_of-register_gossip join_response new_network_layer,
    ),
    refl,
  );
}
start-IsReady ping_ack_mode id now = record {
  idle = start-IsIdle ping_ack_mode id now;
  serving = inr (
    (
      handler_of-register_ping join new_network_layer,
      handler_of-register_ping join_response new_network_layer,
    ),
    refl,
  );
}

-- A join writes the flag of one detector, and leaves the network as it is.
join_group-IsReady :
    (c : ℕ) (addr : Text) (now : ℕ) (m : Machine)
    → IsReady m
    → IsReady (join_group (c ∷ addr) now m)
unfolding join_group G.join_group P.join_group
join_group-IsReady c addr now m ready = go m.mode refl
  where
    go : (mode : DetectionMode) → m.mode ≡ mode → IsReady (join_group (c ∷ addr) now m)
    go gossip_mode e =
        rw (e, join_group)
          (record {
            idle = record { up = ready.idle.up; empty = ready.idle.empty };
            serving = elim ready.serving [ inl (s, on) ↦ inl (s, refl) | inr s ↦ inr s ];
          })
    go ping_ack_mode e =
        rw (e, join_group)
          (record {
            idle = record { up = ready.idle.up; empty = ready.idle.empty };
            serving = elim ready.serving [ inl s ↦ inl s | inr (s, on) ↦ inr (s, refl) ];
          })

-- It stays ready when it joins, and has then sent the Join of its local node, renewed.
pub join_group-started :
    (mode : DetectionMode) (id : NodeId) (created c : ℕ) (addr : Text) (now : ℕ)
    → let m = join_group (c ∷ addr) now (start (new_machine mode id created)) in
      IsReady m
      × (m.node.membership ≡ refresh_local_node now (new_membership_list id created))
      × (m.node.sent
          ≡ (
            c ∷ addr,
            record (plain join (record id { timestamp = unix now }) zero_id (pos 0)) {
              timestamp = unix now;
            },
          )
            ∷ [])
unfolding start start_gossip start_ping new_machine join_group G.join_group P.join_group send
    new_controller new_suspicion_manager refresh_local_node new_membership_list
    Gossip.new_gossip_manager
join_group-started gossip_mode id created c addr now =
    (join_group-IsReady c addr now _ (start-IsReady gossip_mode id created), refl, refl)
join_group-started ping_ack_mode id created c addr now =
    (join_group-IsReady c addr now _ (start-IsReady ping_ack_mode id created), refl, refl)
