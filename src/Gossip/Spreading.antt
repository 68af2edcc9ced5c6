-- ===== src/Gossip/Spreading.antt =====
-- A round of gossip from both sides: the node that speaks, and a node that listens.
use mathlib.Core.List.{Memᴰ}
use distributed_group_member.Common.{
  ◌≡◌, ap, ◌∙◌, ◌≢◌, ℕ, ◌<◌, ℤ, ◌≤ℤ◌, Bool, true, false, ◌&&◌, List, [], ◌∷◌, ◌++◌, some, map,
  ltb_ℤ, eqb_ℤ, inl, inr, Option-cases, arith, subst, if_cases,
}
use distributed_group_member.Common.Dict.{lookup-insert_self}
use distributed_group_member.Types.{
  Text, Text-discrete, NodeId, to_string, address, Member, MemberUpdate, alive, is_alive,
  is_suspected, suspected, Message, heartbeat, plain, zero_id, text_eqb,
}
use distributed_group_member.Types.Keys.{text_eqb_iff}
use distributed_group_member.Membership.{
  MembershipList, member_at, local_key, fresh_member, unix, get_random_members, get_recent_updates,
}
use distributed_group_member.Node.{Node}
use distributed_group_member.Node.Sending.{mail, send_all_lem}
use distributed_group_member.Suspicion.{with_members}
use distributed_group_member.Suspicion.Entries.{Inv, Keeps}
use distributed_group_member.Gossip.{
  GossipManager, heartbeat_sender, learned, renewed, refuted, overtaken, update_known,
  process_update, process_updates, handle_heartbeat, store_updated,
}
use distributed_group_member.Gossip.Updates.{heartbeat_sender-Moves, update_known-Moves}
use distributed_group_member.Gossip.Handlers.{
  Moves-Keeps, process_update-Keeps, process_updates-Keeps, follow_up-Keeps,
}
use distributed_group_member.Gossip.Joining.{Has, Knows, Has-kept}
use distributed_group_member.Gossip.Rounds.{record_round, perform_gossip_round}

store_updated-Has :
    (key : Text) (inc : ℤ) (m : Member) (now : ℕ) (ml : MembershipList)
    → inc ≤ℤ m.incarnation
    → Has key inc (store_updated key m now ml)
store_updated-Has key inc m now ml h = (m, lookup-insert_self Text-discrete key m ml.members, h)

heartbeat_sender-Has :
    (id : NodeId) (inc : ℤ) (now : ℕ) (ml : MembershipList)
    → Has (to_string id) inc (heartbeat_sender id inc now ml)
unfolding heartbeat_sender
heartbeat_sender-Has id inc now ml =
    let key = to_string id in
    elim (Option-cases (member_at key ml)) [
      | inl e ↦
          rw (e, heartbeat_sender)
            (store_updated-Has key inc (fresh_member id inc alive now) now ml (omega arith))
      | inr (m, e) ↦
          rw (e, heartbeat_sender)
            (if_cases (Has key inc) (ltb_ℤ m.incarnation inc)
              (λ _. store_updated-Has key inc (renewed inc now m) now ml (omega arith))
              (λ h.
                if_cases (Has key inc) (eqb_ℤ inc m.incarnation)
                  (λ same.
                    if_cases (Has key inc) (is_suspected m.status)
                      (λ _. store_updated-Has key inc (refuted now m) now ml (ground arith))
                      (λ _. (
                        record m { last_heartbeat = now },
                        lookup-insert_self Text-discrete key (record m { last_heartbeat = now })
                            ml.members,
                        ground arith,
                      )))
                  (λ _. (m, e, ground arith))))
    ]

update_known-Has :
    (enable : Bool) (u : MemberUpdate) (now : ℕ) (m : Member) (ml : MembershipList)
    → member_at (to_string u.node_id) ml ≡ some m
    → Knows u (update_known enable u now (to_string u.node_id) m ml)
unfolding update_known
update_known-Has enable u now m ml e =
    let key = to_string u.node_id in
    let inc = u.incarnation in
    if_cases (Has key inc) (ltb_ℤ m.incarnation inc)
      (λ _. store_updated-Has key inc (overtaken enable u now m) now ml (ground arith))
      (λ older.
        if_cases (Has key inc) (eqb_ℤ inc m.incarnation)
          (λ same.
            if_cases (Has key inc) (is_alive u.status && is_suspected m.status)
              (λ _. store_updated-Has key inc (refuted now m) now ml (ground arith))
              (λ _.
                if_cases (Has key inc) (is_suspected u.status && is_alive m.status)
                  (λ _.
                    store_updated-Has key inc
                      (record m { status = suspected; suspicion_start = now }) now ml
                      (ground arith))
                  (λ _. (m, e, ground arith))))
          (λ _. (m, e, ground arith)))

-- A listener knows the member of an update that is not about itself.
process_update-Knows :
    (enable : Bool) (u : MemberUpdate) (reporter : NodeId) (now : ℕ) (nd : Node)
    → 0 < now
    → Inv nd
    → to_string u.node_id ≢ local_key nd.membership
    → Knows u (process_update enable u reporter now nd).membership
unfolding process_update
process_update-Knows enable u reporter now nd t v foreign =
    let key = to_string u.node_id in
    let no_self : text_eqb key (local_key nd.membership) ≡ false =
      ground (arith, (text_eqb_iff key (local_key nd.membership)).0) in
    rw no_self (elim (Option-cases (member_at key nd.membership)) [
      | inl e ↦
          rw e (store_updated-Has key u.incarnation (learned u now) now nd.membership (omega arith))
      | inr (m, e) ↦
          let k =
            Moves-Keeps nd (update_known enable u now key m nd.membership) v
              (update_known-Moves enable u now key m nd.membership e v.formed) in
          rw e (
            Has-kept key u.incarnation _ _ (follow_up-Keeps enable u reporter now t _ k.inv)
              (update_known-Has enable u now m nd.membership e))
    ])

process_updates-Knows :
    (enable : Bool) (u : MemberUpdate) (us : List MemberUpdate) (reporter : NodeId) (now : ℕ)
    (nd : Node)
    → 0 < now
    → Inv nd
    → Memᴰ u us
    → to_string u.node_id ≢ local_key nd.membership
    → Knows u (process_updates enable us reporter now nd).membership
unfolding process_updates
process_updates-Knows enable u [] reporter now nd t v told foreign = elim told [ ]
process_updates-Knows enable u (x ∷ us) reporter now nd t v (Memᴰ.head e) foreign =
    let k = process_update-Keeps enable x reporter now t nd v in
    Has-kept (to_string u.node_id) u.incarnation _ _
      (process_updates-Keeps enable us reporter now _ t k.inv)
      (subst (λ (y : MemberUpdate). Knows u (process_update enable y reporter now nd).membership) e
        (process_update-Knows enable u reporter now nd t v foreign))
process_updates-Knows enable u (x ∷ us) reporter now nd t v (Memᴰ.tail told) foreign =
    let k = process_update-Keeps enable x reporter now t nd v in
    process_updates-Knows enable u us reporter now _ t k.inv told
      (λ e. foreign (e ∙ ap to_string k.advances.local_kept))

-- An active listener with the invariant knows the sender of a heartbeat, and each member that it tells of
-- but itself.
module _ (g : GossipManager) (msg : Message) (now : ℕ) (nd : Node) (on : g.active ≡ true)
    (t : 0 < now) (v : Inv nd) where
  heard : Node
  heard = with_members (heartbeat_sender msg.sender msg.incarnation now) nd

  heard-Keeps : Keeps nd heard
  unfolding heard
  heard-Keeps =
      Moves-Keeps nd _ v
        (heartbeat_sender-Moves msg.sender msg.incarnation now nd.membership v.formed)

  handle_heartbeat-Has :
      Has (to_string msg.sender) msg.incarnation (handle_heartbeat g msg now nd).membership
  unfolding handle_heartbeat heard
  handle_heartbeat-Has = rw on (
      Has-kept (to_string msg.sender) msg.incarnation heard _
        (process_updates-Keeps g.enable_suspicion msg.members msg.sender now heard t
          heard-Keeps.inv)
        (heartbeat_sender-Has msg.sender msg.incarnation now nd.membership))

  handle_heartbeat-Knows :
      (u : MemberUpdate)
      → Memᴰ u msg.members
      → to_string u.node_id ≢ local_key nd.membership
      → Knows u (handle_heartbeat g msg now nd).membership
  unfolding handle_heartbeat heard
  handle_heartbeat-Knows u told foreign = rw on (
      process_updates-Knows g.enable_suspicion u msg.members msg.sender now heard t heard-Keeps.inv
        told (λ e. foreign (e ∙ ap to_string heard-Keeps.advances.local_kept)))

-- A round of gossip that has targets sends each of them one heartbeat, with the recent updates after
-- the round has recorded its own. When it comes to an active node with the invariant, at a positive time,
-- that node has the sender at no lower incarnation than the heartbeat says, and so it has each member that
-- the heartbeat tells of, but itself.
pub gossip_spreads :
    (shuffle shuffle' : List Member → List Member) (g h : GossipManager) (now later : ℕ)
    (speaker listener : Node) (target : Member) (targets : List Member)
    → get_random_members shuffle g.fanout (local_key speaker.membership ∷ []) speaker.membership
      ≡ target ∷ targets
    → h.active ≡ true
    → 0 < later
    → Inv listener
    → let ml = speaker.membership in
      let updates =
        (get_recent_updates 10 now (record_round shuffle' (target ∷ targets) now ml)).0 in
      let told = record (plain heartbeat ml.local_node zero_id ml.incarnation) {
        members = updates;
      } in
      let listener' = handle_heartbeat h (record told { timestamp = unix now }) later listener in
      ((perform_gossip_round shuffle shuffle' g now speaker).sent
        ≡ speaker.sent ++ mail now told (map (λ m. address m.id) (target ∷ targets)))
      × Has (local_key ml) ml.incarnation listener'.membership
      × ((u : MemberUpdate)
          → Memᴰ u updates
          → to_string u.node_id ≢ local_key listener.membership
          → Knows u listener'.membership)
unfolding perform_gossip_round
gossip_spreads shuffle shuffle' g h now later speaker listener target targets sampled on t v =
    let ml = speaker.membership in
    let recent = get_recent_updates 10 now (record_round shuffle' (target ∷ targets) now ml) in
    let told = record (plain heartbeat ml.local_node zero_id ml.incarnation) {
      members = recent.0;
    } in
    let msg = record told { timestamp = unix now } in
    (
      rw (sampled, perform_gossip_round)
          (ap (λ (n : Node). n.sent)
            (send_all_lem now told (map (λ m. address m.id) (target ∷ targets))
              (record speaker { membership = recent.1 }))),
      handle_heartbeat-Has h msg later listener on t v,
      handle_heartbeat-Knows h msg later listener on t v,
    )
