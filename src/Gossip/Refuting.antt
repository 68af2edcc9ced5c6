-- ===== src/Gossip/Refuting.antt =====
-- A suspicion of a live node from both sides: the node that it is about refutes it, and a member that
-- suspects the node clears it.
use mathlib.Core.Option
use distributed_group_member.Common.{
  ◌≡◌, refl, ap, ◌∙◌, ℕ, ◌<◌, ℤ, ◌≤ℤ◌, ◌<ℤ◌, true, not, ◌&&◌, ◌||◌, ◌++◌, none, some, IsInt32,
  max_int32, ltb_ℤ, leb_ℤ, arith,
}
use distributed_group_member.Common.Dict.{lookup-insert_self}
use distributed_group_member.Types.{
  Text-discrete, NodeId, to_string, Member, MemberUpdate, alive, suspected, is_alive, Message,
  alive_msg, plain, zero_id,
}
use distributed_group_member.Types.Keys.{text_eqb_iff}
use distributed_group_member.Membership.{MembershipList, member_at, local_key, unix}
use distributed_group_member.Node.{Node, peers}
use distributed_group_member.Node.Sending.{mail}
use distributed_group_member.Suspicion.{
  entry_at, with_members, clear_member, process_suspicion, check,
}
use distributed_group_member.Suspicion.Cleared.{
  BoundedBy, BoundedBy-mono, clear_suspect_effect, unchecked,
}
use distributed_group_member.Suspicion.Entries.{Inv}
use distributed_group_member.Suspicion.Reports.{process_suspicion_refutes}
use distributed_group_member.Gossip.Handlers.{handle_alive_message-Keeps}
use distributed_group_member.Gossip.{
  GossipManager, process_update, update_self, renewed, alive_sender, handle_alive_message,
}

-- A member that hears of a higher incarnation from the node itself takes it over.
alive_sender_renews :
    (id : NodeId) (inc : ℤ) (now : ℕ) (ml : MembershipList) (m : Member)
    → member_at (to_string id) ml ≡ some m
    → m.incarnation <ℤ inc
    → member_at (to_string id) (alive_sender id inc now ml) ≡ some (renewed inc now m)
unfolding alive_sender
alive_sender_renews id inc now ml m found higher =
    let taken : (leb_ℤ m.incarnation inc && (not (is_alive m.status) || ltb_ℤ m.incarnation inc))
        ≡ true =
      ground arith in
    rw (found, alive_sender, taken)
      (lookup-insert_self Text-discrete (to_string id) (renewed inc now m) ml.members)

clear_member_same :
    (inc : ℤ) (m : Member) → m.status ≡ alive → m.incarnation ≡ inc → clear_member inc m ≡ m
clear_member_same inc m lives current = ground arith

-- An active detector that hears of a higher incarnation from a member itself has it Alive, and no entry.
pub alive_message_clears :
    (g : GossipManager) (msg : Message) (now : ℕ) (nd : Node) (m : Member)
    → g.active ≡ true
    → member_at (to_string msg.sender) nd.membership ≡ some m
    → m.incarnation <ℤ msg.incarnation
    → BoundedBy msg.incarnation (entry_at (to_string msg.sender) nd)
    → (member_at (to_string msg.sender) (handle_alive_message g msg now nd).membership
        ≡ some (renewed msg.incarnation now m))
      × (entry_at (to_string msg.sender) (handle_alive_message g msg now nd) ≡ none)
unfolding handle_alive_message
alive_message_clears g msg now nd m on found higher bounded =
    let nd' = with_members (alive_sender msg.sender msg.incarnation now) nd in
    let (members, entries) = clear_suspect_effect msg.sender msg.incarnation nd' bounded in
    let renews = alive_sender_renews msg.sender msg.incarnation now nd.membership m found higher in
    rw on (
      members
          ∙ ap (Option.map (clear_member msg.incarnation)) renews
          ∙ ap some (clear_member_same msg.incarnation (renewed msg.incarnation now m) refl refl),
      entries,
    )

-- A suspicion of the node itself that comes with a heartbeat is a report of it.
update_accused :
    (u : MemberUpdate) (reporter : NodeId) (now : ℕ) (nd : Node)
    → to_string u.node_id ≡ local_key nd.membership
    → u.status ≡ suspected
    → process_update true u reporter now nd
      ≡ process_suspicion reporter u.node_id u.incarnation now nd
unfolding process_update update_self
update_accused u reporter now nd self accuses =
    rw ((text_eqb_iff (to_string u.node_id) (local_key nd.membership)).1 self, accuses) refl

-- A suspicion of a node, below the greatest int32 like its own incarnation, comes to the node itself with
-- a heartbeat while suspicion is on. Its incarnation rises above the suspected one, and the node sends it as Alive to the addresses of all other members.
-- When that message comes, at a positive time, to an active detector with the invariant that has the node at no higher incarnation than the
-- suspected one, with or without an entry, the node is Alive there at its new incarnation, the entry is
-- gone, and the next check, whenever it comes, does not turn the node to Failed.
pub suspicion_refuted :
    (u : MemberUpdate) (reporter : NodeId) (now later : ℕ) (h : GossipManager)
    (accused witness : Node) (m : Member)
    → to_string u.node_id ≡ local_key accused.membership
    → u.status ≡ suspected
    → IsInt32 accused.membership.incarnation
    → IsInt32 u.incarnation
    → accused.membership.incarnation <ℤ max_int32
    → u.incarnation <ℤ max_int32
    → h.active ≡ true
    → Inv witness
    → 0 < later
    → member_at (local_key accused.membership) witness.membership ≡ some m
    → m.incarnation ≤ℤ u.incarnation
    → BoundedBy u.incarnation (entry_at (local_key accused.membership) witness)
    → let accused' = process_update true u reporter now accused in
      let key = local_key accused.membership in
      let inc = accused'.membership.incarnation in
      let refutation = plain alive_msg accused.membership.local_node zero_id inc in
      let witness' =
        handle_alive_message h (record refutation { timestamp = unix now }) later witness in
      (u.incarnation <ℤ inc)
      × (accused'.sent ≡ accused.sent ++ mail now refutation (peers accused.membership))
      × (member_at key witness'.membership ≡ some (renewed inc later m))
      × (entry_at key witness' ≡ none)
      × ((t : ℕ) → member_at key (check t witness').membership ≡ some (renewed inc later m))
suspicion_refuted u reporter now later h accused witness m self accuses a b p q on v positive found
      known bounded =
    rw (update_accused u reporter now accused self accuses) (
      let nd' = process_suspicion reporter u.node_id u.incarnation now accused in
      let (own, above, members, entries, sent) =
        process_suspicion_refutes reporter u.node_id u.incarnation now accused self a b p q in
      let inc = nd'.membership.incarnation in
      let msg = record (plain alive_msg accused.membership.local_node zero_id inc) {
        timestamp = unix now;
      } in
      let key = local_key accused.membership in
      let (lives, gone) =
        alive_message_clears h msg later witness m on found (omega arith)
          (BoundedBy-mono u.incarnation inc (entry_at key witness) (omega arith) bounded) in
      (
        above,
        sent,
        lives,
        gone,
        λ t.
            unchecked t (handle_alive_message h msg later witness) key
              (handle_alive_message-Keeps h msg later witness positive v).inv gone
            ∙ lives,
      ))
