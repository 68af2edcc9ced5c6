-- ===== src/Scenarios/Failures.antt =====
-- The theorems on lost refutations and stale news at work.
use distributed_group_member.Common.{
  ◌++◌, map, none, ◌≡◌, refl, ◌*◌, ◌^◌, ◌-◌, pos, negsuc, [], ◌∷◌, some, arith, max_int32,
}
use distributed_group_member.Gossip.Leaving.{left_member_returns}
use distributed_group_member.Gossip.Group.{leave_group, handle_leave}
use distributed_group_member.Gossip.Rounds.{record_round, perform_gossip_round}
use distributed_group_member.Types.{
  leave, zero_id, heartbeat, address, NodeId, to_string, Member, MemberUpdate, Message, alive,
  failed, confirm, plain, second,
}
use distributed_group_member.Types.Keys.{text_eqb_iff}
use distributed_group_member.Membership.{
  MembershipList, member_at, unix, get_recent_updates, get_random_members, candidates, is_candidate,
  contains,
}
use distributed_group_member.Node.Sending.{mail}
use distributed_group_member.Gossip.Joining.{Has}
use distributed_group_member.Node.{Node}
use distributed_group_member.Suspicion.{process_suspicion, check}
use distributed_group_member.Suspicion.Reports.{process_suspicion_wraps}
use distributed_group_member.Gossip.{renewed, handle_heartbeat}
use distributed_group_member.Gossip.Flaws.{refuted_member_fails}
use distributed_group_member.Common.Dict.{lookup}
use distributed_group_member.Scenarios.{
  self, peer, self_member, peer_member, two_members, calm, alarmed, suspected_peer, open_entry,
  detector, refutation,
}
use distributed_group_member.Scenarios.Facts.{
  keep, keys_apart, self-self, peer-self, calm-Inv, alarmed-Inv, peer_alarmed, entry_alarmed,
}

-- A heartbeat of the peer that refutes its suspicion, with an update about this node.
abbrev with_update : Message
with_update = record refutation {
  members = record { node_id = self; incarnation = pos 0; status = alive; timestamp = 0 } ∷ [];
}

refuted_member_fails_example :
    let nd' = handle_heartbeat detector with_update 2000 alarmed in
    (member_at (to_string peer) nd'.membership ≡ some (renewed (pos 1) 2000 suspected_peer))
    × (member_at (to_string peer) (check (3 * second) nd').membership
        ≡ some (record (renewed (pos 1) 2000 suspected_peer) { status = failed }))
refuted_member_fails_example =
    refuted_member_fails detector with_update 2000 (3 * second) (2 * second) alarmed suspected_peer
      open_entry alarmed-Inv (omega arith) refl (keys_apart, tt) peer_alarmed (omega arith)
      entry_alarmed (omega arith) refl refl (omega arith) refl (omega arith)

abbrev confirm_self : Message
confirm_self = plain confirm peer self (pos 0)

-- The peer is known at the incarnation 5, its suspicion is one of the incarnation 0.
abbrev renewed_peer : Member
renewed_peer = record peer_member { incarnation = pos 5 }

abbrev outdated : Node
outdated = record alarmed {
  membership = record two_members {
    members = (to_string self, self_member) ∷ (to_string peer, renewed_peer) ∷ [];
  };
}

peer_outdated : member_at (to_string peer) outdated.membership ≡ some renewed_peer
unfolding lookup
peer_outdated = ground (arith, keys_apart)

abbrev failed_peer : Member
failed_peer = record peer_member { status = failed }

abbrev mourning : Node
mourning = record calm {
  membership = record two_members {
    members = (to_string self, self_member) ∷ (to_string peer, failed_peer) ∷ [];
  };
}

peer_mourning : member_at (to_string peer) mourning.membership ≡ some failed_peer
unfolding lookup
peer_mourning = ground (arith, keys_apart)

abbrev alive_update : MemberUpdate
alive_update = record { node_id = peer; incarnation = pos 0; status = alive; timestamp = 0 }

process_suspicion_wraps_example :
    (process_suspicion peer self max_int32 1000 calm).membership.incarnation ≡ negsuc (2 ^ 31 - 1)
process_suspicion_wraps_example =
    process_suspicion_wraps peer self 1000 calm refl (omega arith, omega arith)

abbrev third : NodeId
third = record { ip = b'c' ∷ []; port = pos 3; timestamp = pos 1 }

abbrev busy : MembershipList
busy = record two_members { recent_updates = alive_update ∷ [] }

-- The peer's own node.
abbrev peer_node : Node
peer_node = record calm { membership = record two_members { local_node = peer } }

abbrev bye : Message
bye = plain leave peer zero_id (pos 0)

self_drawn : get_random_members keep 3 (to_string peer ∷ []) peer_node.membership ≡ self_member ∷ []
unfolding get_random_members candidates is_candidate contains
self_drawn = ground (
  arith,
  self-self,
  peer-self,
  (text_eqb_iff (to_string peer) (to_string peer)).1,
  (text_eqb_iff (to_string self) (to_string peer)).0,
  keys_apart,
)

left_member_returns_example :
    let (g', leaver') = leave_group detector 1000 peer_node in
    let updates =
      (get_recent_updates 10 1500
        (record_round keep (self_member ∷ []) 1500 peer_node.membership)).0 in
    let told = record (plain heartbeat peer zero_id (pos 0)) { members = updates } in
    let nd' = handle_leave bye 1200 calm in
    (member_at (to_string peer) nd'.membership ≡ none)
    × ((perform_gossip_round keep keep g' 1500 leaver').sent
        ≡ leaver'.sent ++ mail 1500 told (map (λ m. address m.id) (self_member ∷ [])))
    × Has
        (to_string peer)
        (pos 0)
        (handle_heartbeat detector (record told { timestamp = unix 1500 }) 2000 nd').membership
left_member_returns_example =
    left_member_returns keep keep detector detector bye 1000 1200 1500 2000 peer_node calm
      self_member [] refl self_drawn refl (omega arith) calm-Inv
