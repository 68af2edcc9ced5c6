-- ===== src/Network.antt =====
-- utils/network.go: the network layer. `handlers` holds what `RegisterHandler` was given, under the
-- type of the message; the channel `messageQueue` is the list of what it holds, oldest first. `H` is
-- the type of handlers. What `json.Unmarshal` makes of a packet is a parameter, `none` for an error;
-- so is whether the random number is below the drop rate.
pub mod Fifo
use distributed_group_member.Common.{
  ℕ, Bool, true, false, List, [], ◌∷◌, ◌++◌, Option, none, some, ltb, length, if◌then◌else◌,
  ℕ_discrete,
}
use distributed_group_member.Common.Dict.{lookup, insert}
use distributed_group_member.Types.{Text, MessageType, Message}

unfoldable pub MessageType-discrete : Discrete MessageType
MessageType-discrete = hlevel ℕ_discrete

-- The capacity of the channel.
abbrev pub capacity : ℕ
capacity = 1000

pub record NetworkLayer (H : Type 0) : Type 0 where
  pub message_queue : List Message
  pub handlers : List (MessageType × H)
  pub closed : Bool

module _ {H : Type 0} where
  unfoldable pub new_network_layer : NetworkLayer H
  new_network_layer = record { message_queue = []; handlers = []; closed = false }

  unfoldable pub register_handler : MessageType → H → NetworkLayer H → NetworkLayer H
  register_handler type handler n = record n {
    handlers = insert MessageType-discrete type handler n.handlers;
  }

  unfoldable pub handler_of : MessageType → NetworkLayer H → Option H
  handler_of type n = lookup MessageType-discrete type n.handlers

  -- The send to the channel that does not wait.
  unfoldable pub enqueue : Message → NetworkLayer H → NetworkLayer H
  enqueue msg n =
      if ltb (length n.message_queue) capacity
      then record n { message_queue = n.message_queue ++ msg ∷ [] }
      else n

  -- One round of `receiveLoop` that has read a packet.
  unfoldable pub receive : (Text → Option Message) → Bool → Text → NetworkLayer H → NetworkLayer H
  receive decode drops packet n = elim n.closed [
    | true ↦ n
    | false ↦ elim drops [
      | true ↦ n
      | false ↦ elim (decode packet) [ none ↦ n | some msg ↦ enqueue msg n ]
    ]
  ]

  -- One round of `processQueue`: the message that it takes and its handler.
  unfoldable pub next_message : NetworkLayer H → NetworkLayer H × Option (Message × Option H)
  next_message n = elim n.closed [
    | true ↦ (n, none)
    | false ↦ elim n.message_queue [
      | [] ↦ (n, none)
      | msg ∷ rest ↦ (record n { message_queue = rest }, some (msg, handler_of msg.type n))
    ]
  ]

  unfoldable pub stop : NetworkLayer H → NetworkLayer H
  stop n = record n { closed = true }
