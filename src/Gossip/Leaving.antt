-- ===== src/Gossip/Leaving.antt =====
-- What becomes of a member that leaves the group.
use distributed_group_member.Common.{
  ◌≡◌, refl, subst, ℕ, ◌<◌, true, List, [], ◌∷◌, ◌++◌, none, arith, map,
}
use distributed_group_member.Common.Dict.{lookup-delete}
use distributed_group_member.Types.{
  Text-discrete, NodeId, to_string, address, Member, Message, heartbeat, plain, zero_id,
}
use distributed_group_member.Membership.{
  MembershipList, member_at, local_key, unix, get_random_members, get_recent_updates,
}
use distributed_group_member.Node.{Node}
use distributed_group_member.Node.Sending.{mail, send_all_lem}
use distributed_group_member.Suspicion.Entries.{Inv}
use distributed_group_member.Gossip.{GossipManager, handle_heartbeat}
use distributed_group_member.Gossip.Group.{remove_sender, handle_leave, leave_group}
use distributed_group_member.Gossip.Invariant.{handle_leave-Inv}
use distributed_group_member.Gossip.Joining.{Has}
use distributed_group_member.Gossip.Rounds.{record_round, perform_gossip_round}
use distributed_group_member.Gossip.Spreading.{gossip_spreads}

pub left_none :
    (msg : Message) (now : ℕ) (nd : Node)
    → member_at (to_string msg.sender) (handle_leave msg now nd).membership ≡ none
unfolding handle_leave remove_sender
left_none msg now nd = ground (
  arith,
  lookup-delete Text-discrete (to_string msg.sender) (to_string msg.sender) nd.membership.members,
)

pub handle_leave-local :
    (msg : Message) (now : ℕ) (nd : Node)
    → (handle_leave msg now nd).membership.local_node ≡ nd.membership.local_node
unfolding handle_leave remove_sender
handle_leave-local msg now nd = ground arith

leave_group-members :
    (g : GossipManager) (now : ℕ) (nd : Node) → (leave_group g now nd).1.membership ≡ nd.membership
unfolding leave_group
leave_group-members g now nd = rw send_all_lem refl

-- A node leaves, and a member that has the invariant and an active detector gets its Leave: the
-- node is gone there. In a round of gossip after that, which still finds targets, the node that left sends
-- each of them a heartbeat with its recent updates; and where such a heartbeat comes to that member at a
-- positive time, the member has the node again, at no lower incarnation than the heartbeat says.
pub left_member_returns :
    (shuffle shuffle' : List Member → List Member) (g h : GossipManager) (bye : Message)
    (left heard now later : ℕ) (leaver nd : Node) (target : Member) (targets : List Member)
    → bye.sender ≡ leaver.membership.local_node
    → get_random_members shuffle g.fanout (local_key leaver.membership ∷ []) leaver.membership
      ≡ target ∷ targets
    → h.active ≡ true
    → 0 < later
    → Inv nd
    → let (g', leaver') = leave_group g left leaver in
      let ml = leaver.membership in
      let updates =
        (get_recent_updates 10 now (record_round shuffle' (target ∷ targets) now ml)).0 in
      let told = record (plain heartbeat ml.local_node zero_id ml.incarnation) {
        members = updates;
      } in
      let nd' = handle_leave bye heard nd in
      (member_at (local_key ml) nd'.membership ≡ none)
      × ((perform_gossip_round shuffle shuffle' g' now leaver').sent
          ≡ leaver'.sent ++ mail now told (map (λ m. address m.id) (target ∷ targets)))
      × Has
          (local_key ml)
          ml.incarnation
          (handle_heartbeat h (record told { timestamp = unix now }) later nd').membership
unfolding leave_group
left_member_returns shuffle shuffle' g h bye left heard now later leaver nd target targets same
      sampled on t v =
    let (g', leaver') = leave_group g left leaver in
    let kept = leave_group-members g left leaver in
    let (spread, has) =
      subst
        (λ (ml : MembershipList).
          let updates =
            (get_recent_updates 10 now (record_round shuffle' (target ∷ targets) now ml)).0 in
          let told = record (plain heartbeat ml.local_node zero_id ml.incarnation) {
            members = updates;
          } in
          ((perform_gossip_round shuffle shuffle' g' now leaver').sent
            ≡ leaver'.sent ++ mail now told (map (λ m. address m.id) (target ∷ targets)))
          × Has (local_key ml) ml.incarnation
              (handle_heartbeat h (record told { timestamp = unix now }) later
                (handle_leave bye heard nd)).membership)
        kept
        (let all =
            gossip_spreads shuffle shuffle' g' h now later leaver' (handle_leave bye heard nd)
              target targets (rw kept sampled) on t (handle_leave-Inv bye heard nd v) in
          (all.0, all.1)) in
    (
      subst (λ (n : NodeId). member_at (to_string n) (handle_leave bye heard nd).membership ≡ none)
          same (left_none bye heard nd),
      spread,
      has,
    )
