-- ===== src/Gossip/Handlers.antt =====
-- The gossip handlers against the invariant of the node, its members and its incarnations.
use distributed_group_member.Common.{
  ℕ, ◌<◌, Bool, List, [], ◌∷◌, Option-cases, inl, inr, if_cases, ◌&&◌, ◌||◌, not, if◌then◌else◌,
}
use distributed_group_member.Types.{
  NodeId, to_string, text_eqb, MemberUpdate, Message, is_alive, is_suspected,
}
use distributed_group_member.Membership.{MembershipList, member_at, local_key}
use distributed_group_member.Node.{Node}
use distributed_group_member.Suspicion.{process_suspicion, clear_suspect}
use distributed_group_member.Suspicion.Entries.{
  Inv, Keeps, Keeps-refl, Keeps-trans, process_suspicion-Keeps,
}
use distributed_group_member.Suspicion.Clearing.{clear_suspect-Keeps}
use distributed_group_member.Gossip.{
  GossipManager, learned, update_known, follow_up, update_self, process_update, process_updates,
  handle_heartbeat, handle_suspect_message, handle_alive_message, handle_confirm_message,
}
use distributed_group_member.Gossip.Updates.{
  Moves, updated_new-Moves, heartbeat_sender-Moves, update_known-Moves, alive_sender-Moves,
  confirm_target-Moves,
}

-- A step on the membership list is one on the node.
pub Moves-Keeps :
    (nd : Node) (ml : MembershipList)
    → Inv nd
    → Moves nd.membership ml
    → Keeps nd (record nd { membership = ml })
Moves-Keeps nd ml v m = record {
  inv = record { formed = m.formed; unique = v.unique; sound = v.sound; positive = v.positive };
  advances = m.advances;
}

module _ (enable : Bool) (u : MemberUpdate) (reporter : NodeId) (now : ℕ) (t : 0 < now) where
  suspected-Keeps :
      (nd : Node)
      → Inv nd
      → Keeps nd (
          if is_suspected u.status && enable
          then process_suspicion reporter u.node_id u.incarnation now nd
          else nd)
  suspected-Keeps nd v =
      if_cases (Keeps nd) (is_suspected u.status && enable)
        (λ _. process_suspicion-Keeps reporter u.node_id u.incarnation now nd t v)
        (λ _. Keeps-refl nd v)

  cleared-Keeps :
      (nd : Node)
      → Inv nd
      → Keeps nd (if is_alive u.status then clear_suspect u.node_id u.incarnation nd else nd)
  cleared-Keeps nd v =
      if_cases (Keeps nd) (is_alive u.status)
        (λ _. clear_suspect-Keeps u.node_id u.incarnation nd v) (λ _. Keeps-refl nd v)

  pub follow_up-Keeps : (nd : Node) → Inv nd → Keeps nd (follow_up enable u reporter now nd)
  unfolding follow_up
  follow_up-Keeps nd v =
      let s = suspected-Keeps nd v in Keeps-trans nd _ _ s (cleared-Keeps _ s.inv)

  update_self-Keeps : (nd : Node) → Inv nd → Keeps nd (update_self enable u reporter now nd)
  unfolding update_self
  update_self-Keeps nd v =
      if_cases (Keeps nd) (is_suspected u.status && enable)
        (λ _. process_suspicion-Keeps reporter u.node_id u.incarnation now nd t v)
        (λ _. cleared-Keeps nd v)

  -- An update that a message carries keeps the invariant, every member and every incarnation.
  pub process_update-Keeps :
      (nd : Node) → Inv nd → Keeps nd (process_update enable u reporter now nd)
  unfolding process_update
  process_update-Keeps nd v =
      let key = to_string u.node_id in
      if_cases (Keeps nd) (text_eqb key (local_key nd.membership)) (λ _. update_self-Keeps nd v)
        (λ _. elim (Option-cases (member_at key nd.membership)) [
          | inl e ↦
              rw e (
                Moves-Keeps nd _ v (updated_new-Moves (learned u now) now nd.membership v.formed e))
          | inr (m, e) ↦
              let k =
                Moves-Keeps nd (update_known enable u now key m nd.membership) v
                  (update_known-Moves enable u now key m nd.membership e v.formed) in
              rw e (Keeps-trans nd _ _ k (follow_up-Keeps _ k.inv))
        ])

-- All updates of a message likewise.
pub process_updates-Keeps :
    (enable : Bool) (us : List MemberUpdate) (reporter : NodeId) (now : ℕ) (nd : Node)
    → 0 < now
    → Inv nd
    → Keeps nd (process_updates enable us reporter now nd)
unfolding process_updates
process_updates-Keeps enable [] reporter now nd t v = Keeps-refl nd v
process_updates-Keeps enable (u ∷ us) reporter now nd t v =
    let k = process_update-Keeps enable u reporter now t nd v in
    Keeps-trans nd _ _ k (process_updates-Keeps enable us reporter now _ t k.inv)

module _ (g : GossipManager) (msg : Message) (now : ℕ) (nd : Node) (t : 0 < now) (v : Inv nd) where
  -- A heartbeat with all its updates, at a positive time, keeps the invariant of the node, keeps
  -- every member and lowers no incarnation on record.
  pub handle_heartbeat-Keeps : Keeps nd (handle_heartbeat g msg now nd)
  unfolding handle_heartbeat
  handle_heartbeat-Keeps =
      let k =
        Moves-Keeps nd _ v
          (heartbeat_sender-Moves msg.sender msg.incarnation now nd.membership v.formed) in
      if_cases (Keeps nd) (not g.active) (λ _. Keeps-refl nd v)
        (λ _.
          Keeps-trans nd _ _ k
            (process_updates-Keeps g.enable_suspicion msg.members msg.sender now _ t k.inv))

  pub handle_suspect_message-Keeps : Keeps nd (handle_suspect_message g msg now nd)
  unfolding handle_suspect_message
  handle_suspect_message-Keeps =
      if_cases (Keeps nd) (not g.enable_suspicion || not g.active) (λ _. Keeps-refl nd v)
        (λ _. process_suspicion-Keeps msg.sender msg.target msg.incarnation now nd t v)

  pub handle_alive_message-Keeps : Keeps nd (handle_alive_message g msg now nd)
  unfolding handle_alive_message
  handle_alive_message-Keeps =
      let k =
        Moves-Keeps nd _ v
          (alive_sender-Moves msg.sender msg.incarnation now nd.membership v.formed) in
      if_cases (Keeps nd) (not g.active) (λ _. Keeps-refl nd v)
        (λ _. Keeps-trans nd _ _ k (clear_suspect-Keeps msg.sender msg.incarnation _ k.inv))

  pub handle_confirm_message-Keeps : Keeps nd (handle_confirm_message g msg now nd)
  unfolding handle_confirm_message
  handle_confirm_message-Keeps =
      if_cases (Keeps nd) (not g.active) (λ _. Keeps-refl nd v)
        (λ _.
          Moves-Keeps nd _ v
            (confirm_target-Moves msg.target msg.incarnation now nd.membership v.formed))
