-- ===== src/Startup/Meeting.antt =====
-- Two processes: one that `main` of main.go has started, and one that joins by it.
pub mod Handling
use distributed_group_member.Common.{
  ◌≡◌, refl, sym, ap, ◌∙◌, ◌≢◌, subst, subst₂, ℕ, Bool, true, false, List, [], ◌∷◌, ◌++◌, Option,
  none, some, ℤ, pos, ite, if_pos, if_neg, if◌then◌else◌, arith,
}
use distributed_group_member.Common.Dict.{lookup-insert_self}
use distributed_group_member.Common.Dict.Loops.{holds_at}
use distributed_group_member.Types.{
  Text, Text-discrete, NodeId, to_string, address, text_eqb, gossip_mode, ping_ack_mode,
  DetectionMode, Member, alive, Message, join, join_response, plain, zero_id,
}
use distributed_group_member.Types.Keys.{to_string-injective, text_eqb_iff}
use distributed_group_member.Membership.{
  MembershipList, member_at, local_key, fresh_member, unix, refresh_local_node, new_membership_list,
}
use distributed_group_member.Node.{Node}
use distributed_group_member.Suspicion.{new_suspicion_manager}
use distributed_group_member.Suspicion.Entries.{Inv}
use distributed_group_member.Controller.{new_controller}
use distributed_group_member.Gossip
use distributed_group_member.Gossip.{GossipManager}
use distributed_group_member.Gossip.Group as G
use distributed_group_member.Gossip.Group.{is_old_life, snapshot}
use distributed_group_member.Gossip.Effects.{handle_join_effect}
use distributed_group_member.Gossip.Joining.{join_exchange}
use distributed_group_member.System.{
  Machine, new_machine, start, start_gossip, start_ping, join_group,
}
use distributed_group_member.System.Steps.{Reaches, here, then_step, started_step, join_step}
use distributed_group_member.System.Steps.Handling.{IsSafe}
use distributed_group_member.System.Steps.Invariant.{reached-IsSafe}
use distributed_group_member.System.Delivery.{
  delivered, IsReady, join_delivered, join_response_delivered,
}
use distributed_group_member.LogQuerier.Server.{Config}
use distributed_group_member.Control.Client.{parse_mode}
use distributed_group_member.Startup.{
  Flags, Surroundings, as_node, node_id, started, join_at_start, main,
}
use distributed_group_member.Startup.Nodes.{main-machine}
use distributed_group_member.Startup.Joining.{start-IsReady, join_group-started}
use distributed_group_member.Startup.Meeting.Handling.{
  renewed_id, hello, welcome, Met, start-node, handled-Met, guest-foreign,
}

-- What comes of the Join and its answer, between these machines.
abbrev Exchange :
    NodeId
    → NodeId
    → ℕ
    → ℕ
    → ℕ
    → Text
    → (Text → Option Message)
    → Text
    → Text
    → Machine
    → Machine
    → Type 0
Exchange id id' joined now later addr decode packet packet' host guest =
    decode packet' ≡ some (welcome id now (delivered decode packet now host).node.membership)
    → (guest.node.sent ≡ (addr, hello id' joined) ∷ [])
      × Met id id' joined now (delivered decode packet now host).node
          (delivered decode packet' later guest).node

-- Machines in modes of their own, one that has started and one that has started and joined.
machines_meet :
    (mode mode' : DetectionMode) (id id' : NodeId) (created created' joined now later : ℕ)
    (addr : Text)
    → addr ≢ []
    → (decode : Text → Option Message) (packet packet' : Text) → address id ≢ address id'
    → decode packet ≡ some (hello id' joined)
    → Exchange id id' joined now later addr decode packet packet'
        (start (new_machine mode id created))
        (join_group addr joined (start (new_machine mode' id' created')))
machines_meet mode mode' id id' created created' joined now later [] named decode packet packet'
      apart decoded decoded' =
    absurd (named refl)
machines_meet mode mode' id id' created created' joined now later (c ∷ addr) named decode packet
      packet' apart decoded decoded' =
    let host = start (new_machine mode id created) in
    let guest = join_group (c ∷ addr) joined (start (new_machine mode' id' created')) in
    let host' = delivered decode packet now host in
    let new = start-node mode id created in
    let safe = reached-IsSafe mode id created (then_step here started_step) in
    let safe' =
      reached-IsSafe mode' id' created'
        (then_step (then_step here started_step) (join_step (c ∷ addr) joined)) in
    let (g, on, handled) =
      join_delivered decode packet now host (hello id' joined) (start-IsReady mode id created)
        decoded refl in
    let (ready, members, sent) = join_group-started mode' id' created' c addr joined in
    let (h, on', handled') =
      join_response_delivered decode packet' later guest (welcome id now host'.node.membership)
        ready decoded' refl in
    (
      sent,
      handled-Met id id' created joined now later guest.node apart (subst Inv new safe.kept)
          safe'.kept (guest-foreign id id' created' joined guest.node.membership apart members) g h
          on on' new handled handled',
    )

host_machine :
    (f : Flags) (s : Surroundings)
    → f.is_introducer ≡ true
    → join_at_start f s.joined (started f s)
      ≡ start (new_machine (parse_mode f.mode) (node_id f s) s.created)
unfolding join_at_start started
host_machine f s intro = rw intro refl

guest_machine :
    (f : Flags) (s : Surroundings)
    → f.is_introducer ≡ false
    → f.introducer ≢ []
    → join_at_start f s.joined (started f s)
      ≡ join_group f.introducer s.joined
          (start (new_machine (parse_mode f.mode) (node_id f s) s.created))
unfolding join_at_start started
guest_machine f s intro named =
    let given : text_eqb f.introducer [] ≡ false =
      ground (arith, (text_eqb_iff f.introducer []).0) in
    rw (intro, given) refl

-- Two nodes that `main` runs, with flags, modes and addresses of their own. The guest has sent one message,
-- its Join, to the introducer of its flags. If that comes to the host as its first packet, the host has
-- the guest as Alive, under the identity with which it joined, and has sent one message, the answer, to
-- the guest's address; and if the answer comes to the guest as its first packet, the guest has the host.
pub two_nodes_meet :
    (to_lower : Text → Text) (f f' : Flags) (s s' : Surroundings) (now later : ℕ)
    (decode : Text → Option Message) (packet packet' : Text) {host guest : Machine} {p p' : ℤ}
    {cfg cfg' : Config}
    → main to_lower f s ≡ as_node host p cfg
    → main to_lower f' s' ≡ as_node guest p' cfg'
    → f.is_introducer ≡ true
    → f'.is_introducer ≡ false
    → f'.introducer ≢ []
    → address (node_id f s) ≢ address (node_id f' s')
    → decode packet ≡ some (hello (node_id f' s') s'.joined)
    → decode packet'
      ≡ some (welcome (node_id f s) now (delivered decode packet now host).node.membership)
    → (guest.node.sent ≡ (f'.introducer, hello (node_id f' s') s'.joined) ∷ [])
      × Met
          (node_id f s)
          (node_id f' s')
          s'.joined
          now
          (delivered decode packet now host).node
          (delivered decode packet' later guest).node
two_nodes_meet to_lower f f' s s' now later decode packet packet' runs runs' intro intro' named
      apart decoded decoded' =
    subst₂
      (Exchange (node_id f s) (node_id f' s') s'.joined now later f'.introducer decode packet
        packet')
      (sym (main-machine to_lower f s runs ∙ host_machine f s intro))
      (sym (main-machine to_lower f' s' runs' ∙ guest_machine f' s' intro' named))
      (machines_meet (parse_mode f.mode) (parse_mode f'.mode) (node_id f s) (node_id f' s')
        s.created s'.created s'.joined now later f'.introducer named decode packet packet' apart
        decoded)
      decoded'
