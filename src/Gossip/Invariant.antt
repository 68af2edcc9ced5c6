-- ===== src/Gossip/Invariant.antt =====
-- The gossip handlers that remove members against the invariant of the node.
use distributed_group_member.Common.{
  refl, ℕ, ℤ, Bool, not, List, [], ◌∷◌, Option-cases, inl, inr, if_cases, ltb_ℤ, arith, map,
}
use distributed_group_member.Common.Dict.{delete_all-All, delete_all-IsUnique, keys}
use distributed_group_member.Types.{
  Text, Text-discrete, NodeId, to_string, text_eqb, Member, MemberUpdate, Message, alive,
}
use distributed_group_member.Membership.{
  MembershipList, member_at, local_key, fresh_member, add_recent_update,
}
use distributed_group_member.Membership.Invariant.{
  IsKeyed, IsWellFormed, store-IsWellFormed, remove-IsWellFormed, refresh_local_node-IsWellFormed,
}
use distributed_group_member.Node.{Node, send}
use distributed_group_member.Node.Sending.{send_all_lem}
use distributed_group_member.Suspicion.Entries.{Inv, Keeps, Keeps-refl, Keeps-trans}
use distributed_group_member.Suspicion.Clearing.{clear_suspect-Keeps}
use distributed_group_member.Gossip.{GossipManager, learned}
use distributed_group_member.Gossip.Group.{
  old_lives, admit, failed_member, add_recent_updates, handle_join, absorb, absorb_all, absorbed,
  clear_all, handle_join_response, remove_sender, handle_leave, join_group, leave_group,
}
use distributed_group_member.Gossip.Updates.{
  Moves, Moves-refl, updated_new-Moves, updated_over-Moves,
}
use distributed_group_member.Gossip.Handlers.{Moves-Keeps}

-- Another well-formed list under the same suspicions.
pub with_list-Inv :
    (nd : Node) (ml : MembershipList)
    → Inv nd
    → IsWellFormed ml
    → Inv (record nd { membership = ml })
with_list-Inv nd ml v w = record {
  formed = w;
  unique = v.unique;
  sound = v.sound;
  positive = v.positive;
}

pub sent-Inv : (nd : Node) (l : List (Text × Message)) → Inv nd → Inv (record nd { sent = l })
sent-Inv nd l v = record {
  formed = v.formed;
  unique = v.unique;
  sound = v.sound;
  positive = v.positive;
}

pub told-IsWellFormed :
    (ms : List Member) (now : ℕ) (ml : MembershipList)
    → IsWellFormed ml
    → IsWellFormed (add_recent_updates ms now ml)
unfolding add_recent_updates
told-IsWellFormed [] now ml w = w
told-IsWellFormed (m ∷ ms) now ml w =
    told-IsWellFormed ms now (add_recent_update m now ml)
      (record { keyed = w.keyed; unique = w.unique })

pub admit-IsWellFormed :
    (id : NodeId) (inc : ℤ) (now : ℕ) (ml : MembershipList)
    → IsWellFormed ml
    → IsWellFormed (admit id inc now ml)
unfolding admit
admit-IsWellFormed id inc now ml w =
    store-IsWellFormed (to_string id) (fresh_member id inc alive now) _ refl (record {
      keyed = delete_all-All Text-discrete IsKeyed (keys (old_lives id ml)) ml.members w.keyed;
      unique = delete_all-IsUnique Text-discrete (keys (old_lives id ml)) ml.members w.unique;
    })

pub handle_join-Inv :
    (g : GossipManager) (msg : Message) (now : ℕ) (nd : Node)
    → Inv nd
    → Inv (handle_join g msg now nd)
unfolding handle_join send
handle_join-Inv g msg now nd v =
    let w = admit-IsWellFormed msg.sender msg.incarnation now nd.membership v.formed in
    if_cases Inv (not g.active) (λ _. v)
      (λ _. record {
        formed =
            let t =
              told-IsWellFormed (map (λ e. failed_member e.1) (old_lives msg.sender nd.membership))
                now _ w in
            record { keyed = t.keyed; unique = t.unique };
        unique = v.unique;
        sound = v.sound;
        positive = v.positive;
      })

absorb-Moves :
    (u : MemberUpdate) (now : ℕ) (ml : MembershipList)
    → IsWellFormed ml
    → Moves ml (absorb u now ml).0
unfolding absorb
absorb-Moves u now ml w =
    let key = to_string u.node_id in
    if_cases (λ (r : MembershipList × Bool). Moves ml r.0) (text_eqb key (local_key ml))
      (λ _. Moves-refl ml w)
      (λ _. elim (Option-cases (member_at key ml)) [
        | inl e ↦ rw e (updated_new-Moves (learned u now) now ml w e)
        | inr (m, e) ↦ rw e (
            if_cases (λ (r : MembershipList × Bool). Moves ml r.0)
              (ltb_ℤ m.incarnation u.incarnation)
              (λ h. updated_over-Moves key (absorbed u now m) m now ml w e refl (ground arith))
              (λ _. Moves-refl ml w))
      ])

pub absorb-Keeps :
    (u : MemberUpdate) (now : ℕ) (nd : Node)
    → Inv nd
    → Keeps nd (record nd { membership = (absorb u now nd.membership).0 })
absorb-Keeps u now nd v =
    Moves-Keeps nd (absorb u now nd.membership).0 v (absorb-Moves u now nd.membership v.formed)

pub absorb_all-Moves :
    (us : List MemberUpdate) (now : ℕ) (nd : Node)
    → Inv nd
    → Keeps nd (record nd { membership = (absorb_all us now nd.membership).0 })
unfolding absorb_all
absorb_all-Moves [] now nd v = Keeps-refl nd v
absorb_all-Moves (u ∷ us) now nd v =
    let k = absorb-Keeps u now nd v in Keeps-trans nd _ _ k (absorb_all-Moves us now _ k.inv)

pub clear_all-Keeps : (us : List MemberUpdate) (nd : Node) → Inv nd → Keeps nd (clear_all us nd)
unfolding clear_all
clear_all-Keeps [] nd v = Keeps-refl nd v
clear_all-Keeps (u ∷ us) nd v =
    let k = clear_suspect-Keeps u.node_id u.incarnation nd v in
    Keeps-trans nd _ _ k (clear_all-Keeps us _ k.inv)

pub handle_join_response-Keeps :
    (g : GossipManager) (msg : Message) (now : ℕ) (nd : Node)
    → Inv nd
    → Keeps nd (handle_join_response g msg now nd)
unfolding handle_join_response
handle_join_response-Keeps g msg now nd v =
    let k = absorb_all-Moves msg.members now nd v in
    if_cases (Keeps nd) (not g.active) (λ _. Keeps-refl nd v)
      (λ _.
        Keeps-trans nd _ _ k (clear_all-Keeps (absorb_all msg.members now nd.membership).1 _ k.inv))

pub handle_leave-Inv :
    (msg : Message) (now : ℕ) (nd : Node) → Inv nd → Inv (handle_leave msg now nd)
unfolding handle_leave remove_sender
handle_leave-Inv msg now nd v =
    let key = to_string msg.sender in
    let w = remove-IsWellFormed key nd.membership v.formed in
    elim (Option-cases (member_at key nd.membership)) [
      | inl e ↦ rw (e, remove_sender) (with_list-Inv nd nd.membership v v.formed)
      | inr (m, e) ↦
          rw (e, remove_sender)
            (with_list-Inv nd _ v (record { keyed = w.keyed; unique = w.unique }))
    ]

pub join_group-Inv :
    (g : GossipManager) (addr : Text) (now : ℕ) (nd : Node)
    → Inv nd
    → Inv (join_group g addr now nd).1
unfolding join_group send
join_group-Inv g [] now nd v = v
join_group-Inv g (c ∷ addr) now nd v =
    sent-Inv _ _ (with_list-Inv nd _ v (refresh_local_node-IsWellFormed now nd.membership v.formed))

pub leave_group-Inv :
    (g : GossipManager) (now : ℕ) (nd : Node) → Inv nd → Inv (leave_group g now nd).1
unfolding leave_group
leave_group-Inv g now nd v = rw send_all_lem (sent-Inv nd _ v)
