-- ===== src/PingAck/Group/Agreement.antt =====
-- The handlers of joins, answers, leaves and cleared suspicions of the two detectors, compared.
use distributed_group_member.Common.{◌≡◌, refl, ap, ℕ, List, [], ◌∷◌, arith, if◌then◌else◌}
use distributed_group_member.Types.{Text, Member, MemberUpdate, Message}
use distributed_group_member.Membership.{MembershipList, add_recent_update}
use distributed_group_member.Suspicion.{clear_suspect}
use distributed_group_member.Node.{Node}
use distributed_group_member.Gossip
use distributed_group_member.Gossip.{GossipManager}
use distributed_group_member.Gossip.Group as G
use distributed_group_member.PingAck.Group as P
use distributed_group_member.PingAck.{PingAckManager}
use distributed_group_member.PingAck.Group.{
  handle_join, handle_join_response, handle_alive_message, handle_suspect_message, handle_leave,
  join_group, leave_group,
}

absorb-Gossip :
    (u : MemberUpdate) (now : ℕ) (ml : MembershipList) → P.absorb u now ml ≡ G.absorb u now ml
unfolding P.absorb P.absorbed P.new_member G.absorb
absorb-Gossip u now ml = refl

absorb_all-Gossip :
    (us : List MemberUpdate) (now : ℕ) (ml : MembershipList)
    → P.absorb_all us now ml ≡ G.absorb_all us now ml
unfolding P.absorb_all G.absorb_all P.absorb P.absorbed P.new_member G.absorb
absorb_all-Gossip [] now ml = refl
absorb_all-Gossip (u ∷ us) now ml =
    let (ml', clears) = G.absorb u now ml in
    ap (λ (r : MembershipList × List MemberUpdate). (r.0, if clears then u ∷ r.1 else r.1))
      (absorb_all-Gossip us now ml')

clear_all-Gossip : (us : List MemberUpdate) (nd : Node) → P.clear_all us nd ≡ G.clear_all us nd
unfolding P.clear_all G.clear_all
clear_all-Gossip [] nd = refl
clear_all-Gossip (u ∷ us) nd = clear_all-Gossip us (clear_suspect u.node_id u.incarnation nd)

add_recent_updates-Gossip :
    (ms : List Member) (now : ℕ) (ml : MembershipList)
    → P.add_recent_updates ms now ml ≡ G.add_recent_updates ms now ml
unfolding P.add_recent_updates G.add_recent_updates
add_recent_updates-Gossip [] now ml = refl
add_recent_updates-Gossip (m ∷ ms) now ml =
    add_recent_updates-Gossip ms now (add_recent_update m now ml)

handle_join-Gossip :
    (g : GossipManager) (p : PingAckManager) (msg : Message) (now : ℕ) (nd : Node)
    → p.active ≡ g.active
    → handle_join p msg now nd ≡ G.handle_join g msg now nd
unfolding handle_join P.admit P.old_lives P.is_old_life P.failed_update P.snapshot G.handle_join
    G.admit G.old_lives G.is_old_life G.snapshot
handle_join-Gossip g p msg now nd on = simp (on, add_recent_updates-Gossip)

handle_join_response-Gossip :
    (g : GossipManager) (p : PingAckManager) (msg : Message) (now : ℕ) (nd : Node)
    → p.active ≡ g.active
    → handle_join_response p msg now nd ≡ G.handle_join_response g msg now nd
unfolding handle_join_response G.handle_join_response
handle_join_response-Gossip g p msg now nd on = simp (on, absorb_all-Gossip, clear_all-Gossip)

joined :
    (g : GossipManager) (p : PingAckManager) (a : Text) (now : ℕ) (nd : Node)
    → (join_group p a now nd).1 ≡ (G.join_group g a now nd).1
unfolding join_group G.join_group
joined g p [] now nd = refl
joined g p (c ∷ a) now nd = refl

-- Where both detectors are active or neither is, and suspicion is on for both or neither, every
-- handler of a Join, a JoinResponse, an AliveMsg, a Suspect and a Leave, and joining and leaving the
-- group, do the same to the node under both.
pub group_handlers-Gossip :
    (g : GossipManager) (p : PingAckManager) (msg : Message) (addr : Text) (now : ℕ) (nd : Node)
    → p.active ≡ g.active
    → p.enable_suspicion ≡ g.enable_suspicion
    → (handle_join p msg now nd ≡ G.handle_join g msg now nd)
      × (handle_join_response p msg now nd ≡ G.handle_join_response g msg now nd)
      × (handle_alive_message p msg now nd ≡ Gossip.handle_alive_message g msg now nd)
      × (handle_suspect_message p msg now nd ≡ Gossip.handle_suspect_message g msg now nd)
      × (handle_leave msg now nd ≡ G.handle_leave msg now nd)
      × ((join_group p addr now nd).1 ≡ (G.join_group g addr now nd).1)
      × ((leave_group p now nd).1 ≡ (G.leave_group g now nd).1)
group_handlers-Gossip g p msg addr now nd on enable = (
  handle_join-Gossip g p msg now nd on,
  handle_join_response-Gossip g p msg now nd on,
  unfold handle_alive_message in
      unfold P.alive_sender in
      unfold Gossip.handle_alive_message in unfold Gossip.alive_sender in simp on,
  unfold handle_suspect_message in
      unfold Gossip.handle_suspect_message in ground (arith, on, enable),
  unfold handle_leave in
      unfold P.remove_sender in
      unfold P.failed_update in unfold G.handle_leave in unfold G.remove_sender in refl,
  joined g p addr now nd,
  unfold leave_group in unfold G.leave_group in refl,
)
