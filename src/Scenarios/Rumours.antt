-- ===== src/Scenarios/Rumours.antt =====
-- The theorems on rumours of two nodes at work: a round of gossip, a refutation, and a clearance in the
-- middle of a check.
use mathlib.Core.List.{Memᴰ}
use distributed_group_member.Common.{
  ◌≡◌, refl, ◌≢◌, ℕ, ◌*◌, pos, ◌<ℤ◌, true, [], ◌∷◌, ◌++◌, none, some, map, arith, subst, sym,
  saturate64,
}
use distributed_group_member.Types.{
  to_string, address, Member, MemberUpdate, alive, suspected, failed, heartbeat, alive_msg, plain,
  zero_id, second, sub_time,
}
use distributed_group_member.Membership.{member_at, unix, get_recent_updates}
use distributed_group_member.Node.{Node, peers}
use distributed_group_member.Node.Sending.{mail}
use distributed_group_member.Suspicion.{entry_at, clear_suspect, check, is_due, to_confirm}
use distributed_group_member.Suspicion.Cleared.{BoundedBy}
use distributed_group_member.Suspicion.Racing.{check_entries, check_members, check_race}
use distributed_group_member.Gossip.{
  process_update, handle_alive_message, handle_heartbeat, renewed,
}
use distributed_group_member.Gossip.Rounds.{record_round, perform_gossip_round}
use distributed_group_member.Gossip.Joining.{Has, Knows}
use distributed_group_member.Gossip.Refuting.{suspicion_refuted}
use distributed_group_member.Gossip.Spreading.{gossip_spreads}
use distributed_group_member.Scenarios.{
  self, peer, peer_member, suspected_peer, open_entry, two_members, calm, alarmed, detector,
}
use distributed_group_member.Scenarios.Facts.{
  calm-Inv, alarmed-Inv, peer_alarmed, entry_alarmed, keep, drawn_other,
}

gossip_spreads_example :
    let updates =
      (get_recent_updates 10 1000 (record_round keep (peer_member ∷ []) 1000 two_members)).0 in
    let told = record (plain heartbeat self zero_id (pos 0)) { members = updates } in
    let listener' = handle_heartbeat detector (record told { timestamp = unix 1000 }) 2000 calm in
    ((perform_gossip_round keep keep detector 1000 calm).sent
      ≡ [] ++ mail 1000 told (map (λ (m : Member). address m.id) (peer_member ∷ [])))
    × Has (to_string self) (pos 0) listener'.membership
    × ((u : MemberUpdate)
        → Memᴰ u updates
        → to_string u.node_id ≢ to_string self
        → Knows u listener'.membership)
gossip_spreads_example =
    gossip_spreads keep keep detector detector 1000 2000 calm calm peer_member []
      (drawn_other 3 (omega arith)) refl (omega arith) calm-Inv

-- The peer's own view, and the rumour about it.
abbrev accused : Node
accused = record calm { membership = record two_members { local_node = peer } }

abbrev rumour : MemberUpdate
rumour = record { node_id = peer; incarnation = pos 0; status = suspected; timestamp = 1000 }

rumour_bounded : BoundedBy (pos 0) (entry_at (to_string peer) alarmed)
rumour_bounded = subst (BoundedBy (pos 0)) (sym entry_alarmed) (omega arith)

suspicion_refuted_example :
    let accused' = process_update true rumour self 2000 accused in
    let inc = accused'.membership.incarnation in
    let refutation = plain alive_msg peer zero_id inc in
    let witness' =
      handle_alive_message detector (record refutation { timestamp = unix 2000 }) 3000 alarmed in
    (pos 0 <ℤ inc)
    × (accused'.sent ≡ [] ++ mail 2000 refutation (peers accused.membership))
    × (member_at (to_string peer) witness'.membership ≡ some (renewed inc 3000 suspected_peer))
    × (entry_at (to_string peer) witness' ≡ none)
    × ((t : ℕ)
        → member_at (to_string peer) (check t witness').membership
          ≡ some (renewed inc 3000 suspected_peer))
suspicion_refuted_example =
    suspicion_refuted rumour self 2000 3000 detector accused alarmed suspected_peer refl refl
      (omega arith, omega arith) (omega arith, omega arith) (omega arith) (omega arith) refl
      alarmed-Inv (omega arith) peer_alarmed (omega arith) rumour_bounded

abbrev late : ℕ
late = 3 * second

due_late : is_due alarmed.options late open_entry ≡ true
unfolding is_due sub_time saturate64
due_late = ground arith

check_race_example :
    let due = to_confirm alarmed.options late alarmed.entries in
    let raced = check_members due (clear_suspect peer (pos 1) (check_entries late alarmed)) in
    (check late alarmed ≡ check_members due (check_entries late alarmed))
    × (member_at (to_string peer) (check late (clear_suspect peer (pos 1) alarmed)).membership
        ≡ some (record suspected_peer { status = alive; incarnation = pos 1 }))
    × (member_at (to_string peer) (clear_suspect peer (pos 1) (check late alarmed)).membership
        ≡ some (record suspected_peer { status = alive; incarnation = pos 1 }))
    × (member_at (to_string peer) raced.membership
        ≡ some (record suspected_peer { status = failed; incarnation = pos 1 }))
    × (entry_at (to_string peer) raced ≡ none)
check_race_example =
    check_race late alarmed peer (pos 1) open_entry suspected_peer alarmed-Inv entry_alarmed
      due_late peer_alarmed (omega arith) (omega arith)
