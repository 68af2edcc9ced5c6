-- ===== src/System/Handlers.antt =====
-- Which detector answers which message.
use distributed_group_member.Common.{
  ◌≡◌, refl, sym, ap, ◌∙◌, ℕ, false, List, ◌∷◌, Option, none, some, ite,
}
use distributed_group_member.Common.Dict.{lookup, lookup-insert}
use distributed_group_member.Types.{
  NodeId, DetectionMode, gossip_mode, ping_ack_mode, MessageType, other_type, Message, heartbeat,
  ping, ack, indirect_ping, indirect_ack, join, join_response, leave, suspect, alive_msg, confirm,
}
use distributed_group_member.Network.{
  MessageType-discrete, NetworkLayer, new_network_layer, register_handler, handler_of, next_message,
}
use distributed_group_member.Gossip
use distributed_group_member.System.{
  Handler, gossip_heartbeat, gossip_suspect, gossip_alive, gossip_confirm, gossip_join,
  gossip_join_response, gossip_leave, ping_ping, ping_ack, ping_indirect_ping, ping_indirect_ack,
  ping_join, ping_join_response, ping_alive, ping_suspect, ping_leave, Machine, new_machine,
  register_gossip, register_ping, start_gossip, start_ping, stop_gossip, start, switch_mode,
  process_queue, stop_ping,
}

handler_of-register_handler :
    (t u : MessageType) (h : Handler) (n : NetworkLayer Handler)
    → handler_of u (register_handler t h n)
      ≡ ite (MessageType-discrete t u) (some h) (handler_of u n)
unfolding handler_of register_handler
handler_of-register_handler t u h n = lookup-insert MessageType-discrete t u h n.handlers

-- The handler that a detector has for a type of message, or else another one.
unfoldable pub answer_of : DetectionMode → MessageType → Option Handler → Option Handler
answer_of gossip_mode heartbeat other = some gossip_heartbeat
answer_of gossip_mode suspect other = some gossip_suspect
answer_of gossip_mode alive_msg other = some gossip_alive
answer_of gossip_mode confirm other = some gossip_confirm
answer_of gossip_mode join other = some gossip_join
answer_of gossip_mode join_response other = some gossip_join_response
answer_of gossip_mode leave other = some gossip_leave
answer_of gossip_mode _ other = other
answer_of ping_ack_mode ping other = some ping_ping
answer_of ping_ack_mode ack other = some ping_ack
answer_of ping_ack_mode indirect_ping other = some ping_indirect_ping
answer_of ping_ack_mode indirect_ack other = some ping_indirect_ack
answer_of ping_ack_mode join other = some ping_join
answer_of ping_ack_mode join_response other = some ping_join_response
answer_of ping_ack_mode alive_msg other = some ping_alive
answer_of ping_ack_mode suspect other = some ping_suspect
answer_of ping_ack_mode leave other = some ping_leave
answer_of ping_ack_mode _ other = other

pub handler_of-register_gossip :
    (t : MessageType) (n : NetworkLayer Handler)
    → handler_of t (register_gossip n) ≡ answer_of gossip_mode t (handler_of t n)
unfolding register_gossip answer_of MessageType-discrete
handler_of-register_gossip heartbeat n = simp handler_of-register_handler
handler_of-register_gossip ping n = simp handler_of-register_handler
handler_of-register_gossip ack n = simp handler_of-register_handler
handler_of-register_gossip indirect_ping n = simp handler_of-register_handler
handler_of-register_gossip indirect_ack n = simp handler_of-register_handler
handler_of-register_gossip join n = simp handler_of-register_handler
handler_of-register_gossip join_response n = simp handler_of-register_handler
handler_of-register_gossip leave n = simp handler_of-register_handler
handler_of-register_gossip suspect n = simp handler_of-register_handler
handler_of-register_gossip alive_msg n = simp handler_of-register_handler
handler_of-register_gossip confirm n = simp handler_of-register_handler
handler_of-register_gossip (other_type i) n = simp handler_of-register_handler

pub handler_of-register_ping :
    (t : MessageType) (n : NetworkLayer Handler)
    → handler_of t (register_ping n) ≡ answer_of ping_ack_mode t (handler_of t n)
unfolding register_ping answer_of MessageType-discrete
handler_of-register_ping heartbeat n = simp handler_of-register_handler
handler_of-register_ping ping n = simp handler_of-register_handler
handler_of-register_ping ack n = simp handler_of-register_handler
handler_of-register_ping indirect_ping n = simp handler_of-register_handler
handler_of-register_ping indirect_ack n = simp handler_of-register_handler
handler_of-register_ping join n = simp handler_of-register_handler
handler_of-register_ping join_response n = simp handler_of-register_handler
handler_of-register_ping leave n = simp handler_of-register_handler
handler_of-register_ping suspect n = simp handler_of-register_handler
handler_of-register_ping alive_msg n = simp handler_of-register_handler
handler_of-register_ping confirm n = simp handler_of-register_handler
handler_of-register_ping (other_type i) n = simp handler_of-register_handler

answer_of_again :
    (t : MessageType)
    → answer_of gossip_mode t (answer_of gossip_mode t none) ≡ answer_of gossip_mode t none
unfolding answer_of
answer_of_again heartbeat = refl
answer_of_again ping = refl
answer_of_again ack = refl
answer_of_again indirect_ping = refl
answer_of_again indirect_ack = refl
answer_of_again join = refl
answer_of_again join_response = refl
answer_of_again leave = refl
answer_of_again suspect = refl
answer_of_again alive_msg = refl
answer_of_again confirm = refl
answer_of_again (other_type i) = refl

-- After a node has started with a detector and has then been switched to a detector, the same one or the
-- other, a message of any type is answered by the latter's handler for the type; by the former's if the
-- latter has none; and by none if neither has.
pub handler_of-switch_mode :
    (first second : DetectionMode) (t : MessageType) (id : NodeId) (now : ℕ)
    → handler_of t (switch_mode second (start (new_machine first id now))).0.network
      ≡ answer_of second t (answer_of first t none)
unfolding stop_ping switch_mode start start_gossip start_ping stop_gossip new_machine
    Gossip.new_gossip_manager new_network_layer handler_of answer_of lookup
handler_of-switch_mode gossip_mode gossip_mode t id now =
    handler_of-register_gossip t new_network_layer ∙ sym (answer_of_again t)
handler_of-switch_mode gossip_mode ping_ack_mode t id now =
    handler_of-register_ping t (register_gossip new_network_layer)
    ∙ ap (answer_of ping_ack_mode t) (handler_of-register_gossip t new_network_layer)
handler_of-switch_mode ping_ack_mode gossip_mode t id now =
    handler_of-register_gossip t (register_ping new_network_layer)
    ∙ ap (answer_of gossip_mode t) (handler_of-register_ping t new_network_layer)
handler_of-switch_mode ping_ack_mode ping_ack_mode t id now =
    handler_of-register_ping t (register_ping new_network_layer)
    ∙ ap (answer_of ping_ack_mode t) (handler_of-register_ping t new_network_layer)

process_queue_unhandled :
    (m : Machine) (now : ℕ) (msg : Message) (rest : List Message)
    (hs : List (MessageType × Handler))
    → lookup MessageType-discrete msg.type hs ≡ none
    → (let holding = λ (q : List Message). record m {
      network = record { message_queue = q; handlers = hs; closed = false };
    } in
        process_queue now (holding (msg ∷ rest)) ≡ holding rest)
unfolding process_queue next_message handler_of
process_queue_unhandled m now msg rest hs unhandled = rw (process_queue, unhandled) refl

-- A node that has started with the SWIM detector drops a Confirm message: it takes the message from its
-- queue, and its membership list, its suspicion entries and what it has sent stay as they are.
pub confirm_dropped :
    (id : NodeId) (now now' : ℕ) (msg : Message) (rest : List Message)
    → msg.type ≡ confirm
    → (let m = start (new_machine ping_ack_mode id now) in
        process_queue now' (record m { network = record m.network { message_queue = msg ∷ rest } })
        ≡ record m { network = record m.network { message_queue = rest } })
unfolding start start_ping new_machine new_network_layer answer_of register_ping register_handler
    handler_of lookup
confirm_dropped id now now' msg rest same =
    process_queue_unhandled (start (new_machine ping_ack_mode id now)) now' msg rest _
      (rw same (handler_of-register_ping confirm new_network_layer))
