-- ===== src/System/Delivery.antt =====
-- A packet that an idle process receives, and the handler that it runs in the end.
use distributed_group_member.Common.{
  ◌≡◌, refl, ap, ◌∙◌, ℕ, true, false, [], ◌∷◌, Option, some, ◌⊎◌, inl, inr, arith,
}
use distributed_group_member.Types.{Text, Message, join, join_response}
use distributed_group_member.Network.{NetworkLayer, receive, enqueue, next_message, handler_of}
use distributed_group_member.Gossip.{GossipManager}
use distributed_group_member.Gossip.Group as G
use distributed_group_member.PingAck.Group.Agreement.{group_handlers-Gossip}
use distributed_group_member.System.{
  Handler, gossip_join, gossip_join_response, ping_join, ping_join_response, Machine, dispatch,
  process_queue,
}

-- The packet comes, and is processed next.
abbrev pub delivered : (Text → Option Message) → Text → ℕ → Machine → Machine
delivered decode packet now m =
    process_queue now (record m { network = receive decode false packet m.network })

-- The process is up, and no message waits.
pub record IsIdle (m : Machine) : Type 0 where
  pub up : m.network.closed ≡ false
  pub empty : m.network.message_queue ≡ []

receive_alone :
    (decode : Text → Option Message) (packet : Text) (msg : Message) (n : NetworkLayer Handler)
    → n.closed ≡ false
    → n.message_queue ≡ []
    → decode packet ≡ some msg
    → receive decode false packet n ≡ record n { message_queue = msg ∷ [] }
unfolding receive enqueue
receive_alone decode packet msg n up empty decoded = ground arith

next_alone :
    (now : ℕ) (m : Machine) (msg : Message) (h : Handler)
    → m.network.closed ≡ false
    → handler_of msg.type m.network ≡ some h
    → process_queue now (record m { network = record m.network { message_queue = msg ∷ [] } })
      ≡ dispatch h msg now (record m { network = record m.network { message_queue = [] } })
unfolding process_queue next_message handler_of
next_alone now m msg h up handled = ground arith

-- With the queue as it was the handler runs.
pub delivered_lem :
    (decode : Text → Option Message) (packet : Text) (now : ℕ) (m : Machine) (msg : Message)
    (h : Handler)
    → IsIdle m
    → decode packet ≡ some msg
    → handler_of msg.type m.network ≡ some h
    → delivered decode packet now m
      ≡ dispatch h msg now (record m { network = record m.network { message_queue = [] } })
unfolding process_queue receive enqueue next_message handler_of
delivered_lem decode packet now m msg h idle decoded handled =
    ap (λ n. process_queue now (record m { network = n }))
      (receive_alone decode packet msg m.network idle.up idle.empty decoded)
    ∙ next_alone now m msg h idle.up handled

-- The detector that answers joins is active, with the gossip detector's handlers or the other's.
abbrev Serves : Handler → Handler → Machine → Type 0
Serves h k m = (handler_of join m.network ≡ some h) × (handler_of join_response m.network ≡ some k)

pub record IsReady (m : Machine) : Type 0 where
  pub idle : IsIdle m
  pub serving :
      (Serves gossip_join gossip_join_response m × (m.gossip.active ≡ true))
      ⊎ (Serves ping_join ping_join_response m × (m.pinger.active ≡ true))

-- The gossip detector with the settings of the machine's other one.
abbrev likened : Machine → GossipManager
likened m = record m.gossip {
  active = m.pinger.active;
  enable_suspicion = m.pinger.enable_suspicion;
}

-- A join that comes to a ready process is handled as an active gossip detector does it.
pub join_delivered :
    (decode : Text → Option Message) (packet : Text) (now : ℕ) (m : Machine) (msg : Message)
    → IsReady m
    → decode packet ≡ some msg
    → msg.type ≡ join
    → (g : GossipManager) × (g.active ≡ true)
      × ((delivered decode packet now m).node ≡ G.handle_join g msg now m.node)
unfolding dispatch
join_delivered decode packet now m msg ready decoded is_join = elim ready.serving [
  | inl (serves, on) ↦ (
    m.gossip,
    on,
    ap (λ (x : Machine). x.node)
        (delivered_lem decode packet now m msg gossip_join ready.idle decoded
          (ap (λ t. handler_of t m.network) is_join ∙ serves.0)),
  )
  | inr (serves, on) ↦ (
    likened m,
    on,
    ap (λ (x : Machine). x.node)
          (delivered_lem decode packet now m msg ping_join ready.idle decoded
            (ap (λ t. handler_of t m.network) is_join ∙ serves.0))
        ∙ (group_handlers-Gossip (likened m) m.pinger msg [] now m.node refl refl).0,
  )
]

-- So is the answer to a join.
pub join_response_delivered :
    (decode : Text → Option Message) (packet : Text) (now : ℕ) (m : Machine) (msg : Message)
    → IsReady m
    → decode packet ≡ some msg
    → msg.type ≡ join_response
    → (g : GossipManager) × (g.active ≡ true)
      × ((delivered decode packet now m).node ≡ G.handle_join_response g msg now m.node)
unfolding dispatch
join_response_delivered decode packet now m msg ready decoded is_answer = elim ready.serving [
  | inl (serves, on) ↦ (
    m.gossip,
    on,
    ap (λ (x : Machine). x.node)
        (delivered_lem decode packet now m msg gossip_join_response ready.idle decoded
          (ap (λ t. handler_of t m.network) is_answer ∙ serves.1)),
  )
  | inr (serves, on) ↦ (
    likened m,
    on,
    ap (λ (x : Machine). x.node)
          (delivered_lem decode packet now m msg ping_join_response ready.idle decoded
            (ap (λ t. handler_of t m.network) is_answer ∙ serves.1))
        ∙ (group_handlers-Gossip (likened m) m.pinger msg [] now m.node refl refl).1,
  )
]
