-- ===== src/Gossip/Periodic.antt =====
-- The periodic rounds of the gossip detector against the invariant of the node.
use distributed_group_member.Common.{
  ◌≡◌, refl, ℕ, ◌<◌, Bool, List, [], ◌∷◌, Option-cases, inl, inr, if_cases, All, map,
}
use distributed_group_member.Common.Dict.{
  delete_all-All, delete_all-IsUnique, map_values, map_values-IsUnique,
}
use distributed_group_member.Types.{Text, Text-discrete, to_string, Member}
use distributed_group_member.Membership.{
  MembershipList, member_at, local_key, add_recent_update, get_random_members, get_recent_updates,
}
use distributed_group_member.Membership.Invariant.{IsKeyed, IsWellFormed}
use distributed_group_member.Node.{Node}
use distributed_group_member.Node.Sending.{send_all_lem}
use distributed_group_member.Suspicion.Entries.{Inv, process_suspicion-Keeps}
use distributed_group_member.Gossip.{GossipManager}
use distributed_group_member.Gossip.Rounds.{
  record_round, perform_gossip_round, mark, removal_candidates, suspect_updates, sweep,
  raise_suspicions, check_failures, verdict, is_suspects, removal_update,
}
use distributed_group_member.Gossip.Invariant.{with_list-Inv, sent-Inv, told-IsWellFormed}

record_round-IsWellFormed :
    (shuffle : List Member → List Member) (ms : List Member) (now : ℕ) (ml : MembershipList)
    → IsWellFormed ml
    → IsWellFormed (record_round shuffle ms now ml)
unfolding record_round
record_round-IsWellFormed shuffle ms now ml w = elim (Option-cases (member_at (local_key ml) ml)) [
  | inl e ↦ rw e (told-IsWellFormed _ now _ (told-IsWellFormed ms now ml w))
  | inr (m, e) ↦ rw e (
      told-IsWellFormed _ now _ (
        told-IsWellFormed ms now (add_recent_update m now ml)
          (record { keyed = w.keyed; unique = w.unique })))
]

pub perform_gossip_round-Inv :
    (shuffle shuffle' : List Member → List Member) (g : GossipManager) (now : ℕ) (nd : Node)
    → Inv nd
    → Inv (perform_gossip_round shuffle shuffle' g now nd)
unfolding perform_gossip_round get_recent_updates
perform_gossip_round-Inv shuffle shuffle' g now nd v =
    go (get_random_members shuffle g.fanout (local_key nd.membership ∷ []) nd.membership) refl
  where
    go :
        (ts : List Member)
        → get_random_members shuffle g.fanout (local_key nd.membership ∷ []) nd.membership ≡ ts
        → Inv (perform_gossip_round shuffle shuffle' g now nd)
    go [] e = rw (e, perform_gossip_round) v
    go (t ∷ ts) e =
        let w = record_round-IsWellFormed shuffle' (t ∷ ts) now nd.membership v.formed in
        rw (e, perform_gossip_round)
          (rw send_all_lem
            (sent-Inv _ _ (with_list-Inv nd _ v (record { keyed = w.keyed; unique = w.unique }))))

mark-IsKeyed :
    (g : GossipManager) (now : ℕ) (self : Text) (ms : List (Text × Member))
    → All IsKeyed ms
    → All IsKeyed (map_values (mark g now self) ms)
unfolding map_values mark
mark-IsKeyed g now self [] a = tt
mark-IsKeyed g now self ((k, m) ∷ ms) a = (
  if_cases (λ (m' : Member). k ≡ to_string m'.id) (is_suspects (verdict g now self k m)) (λ _. a.0)
      (λ _. a.0),
  mark-IsKeyed g now self ms a.1,
)

pub sweep-IsWellFormed :
    (g : GossipManager) (now : ℕ) (ml : MembershipList)
    → IsWellFormed ml
    → IsWellFormed (sweep g now ml)
unfolding sweep
sweep-IsWellFormed g now ml w =
    let gone = map (λ (m : Member). to_string m.id) (removal_candidates g now ml) in
    record {
      keyed =
          delete_all-All Text-discrete IsKeyed gone _
            (mark-IsKeyed g now (local_key ml) ml.members w.keyed);
      unique =
          delete_all-IsUnique Text-discrete gone _
            (map_values-IsUnique Text-discrete (mark g now (local_key ml)) ml.members w.unique);
    }

raise_suspicions-Inv :
    (enable : Bool) (ms : List Member) (now : ℕ) (nd : Node)
    → 0 < now
    → Inv nd
    → Inv (raise_suspicions enable ms now nd)
unfolding raise_suspicions
raise_suspicions-Inv enable [] now nd t v = v
raise_suspicions-Inv enable (m ∷ ms) now nd t v =
    let told =
      with_list-Inv nd (add_recent_update m now nd.membership) v
        (record { keyed = v.formed.keyed; unique = v.formed.unique }) in
    raise_suspicions-Inv enable ms now _ t (
      if_cases Inv enable
        (λ _.
          (process_suspicion-Keeps nd.membership.local_node m.id m.incarnation now _ t told).inv)
        (λ _. told))

pub check_failures-Inv :
    (g : GossipManager) (now : ℕ) (nd : Node) → 0 < now → Inv nd → Inv (check_failures g now nd)
unfolding check_failures
check_failures-Inv g now nd t v =
    let swept =
      with_list-Inv nd (sweep g now nd.membership) v
        (sweep-IsWellFormed g now nd.membership v.formed) in
    let raised =
      raise_suspicions-Inv g.enable_suspicion (suspect_updates g now nd.membership) now _ t swept in
    with_list-Inv _ _ raised (
      told-IsWellFormed (map (removal_update now) (removal_candidates g now nd.membership)) now _
        raised.formed)
