-- ===== src/Startup/Meeting/Handling.antt =====
-- A new node that handles the Join of another one, and that one with the answer: main.go with the
-- handlers of detectors/gossip.go.
use distributed_group_member.Common.{
  ◌≡◌, refl, sym, ap, ◌∙◌, ◌≢◌, subst, ℕ, Bool, true, false, [], ◌∷◌, Option, none, some, pos,
  if_neg, if◌then◌else◌, arith,
}
use distributed_group_member.Common.Dict.{lookup-insert_self}
use distributed_group_member.Common.Dict.Loops.{holds_at}
use distributed_group_member.Types.{
  Text, Text-discrete, NodeId, to_string, address, gossip_mode, ping_ack_mode, DetectionMode,
  Member, alive, Message, join, join_response, plain, zero_id,
}
use distributed_group_member.Types.Keys.{to_string-injective, text_eqb_iff}
use distributed_group_member.Membership.{
  MembershipList, member_at, local_key, fresh_member, unix, refresh_local_node, new_membership_list,
}
use distributed_group_member.Node.{Node}
use distributed_group_member.Suspicion.{new_suspicion_manager}
use distributed_group_member.Suspicion.Entries.{Inv}
use distributed_group_member.Controller.{new_controller}
use distributed_group_member.Gossip
use distributed_group_member.Gossip.{GossipManager}
use distributed_group_member.Gossip.Group as G
use distributed_group_member.Gossip.Group.{is_old_life, snapshot}
use distributed_group_member.Gossip.Effects.{handle_join_effect}
use distributed_group_member.Gossip.Joining.{join_exchange}
use distributed_group_member.System.{new_machine, start, start_gossip, start_ping}

-- What a node that starts with the given identity sends when it joins.
abbrev pub renewed_id : NodeId → ℕ → NodeId
renewed_id id now = record id { timestamp = unix now }

abbrev pub hello : NodeId → ℕ → Message
hello id now = record (plain join (renewed_id id now) zero_id (pos 0)) { timestamp = unix now }

-- The answer of a node of the given identity that has its first incarnation.
abbrev pub welcome : NodeId → ℕ → MembershipList → Message
welcome id now ml = record (plain join_response id zero_id (pos 0)) {
  members = snapshot now ml;
  timestamp = unix now;
}

passes_over :
    (p : Text × Member → Bool) (k : Text) (o : Option Member) (m : Member)
    → o ≡ some m
    → p (k, m) ≡ false
    → (if holds_at p k o then none else o) ≡ some m
passes_over p k none m e h = absurd (cc)
passes_over p k (some x) m e h = ground arith

other_address :
    (id : NodeId) (k : Text) (m : Member)
    → address m.id ≢ address id
    → is_old_life id (k, m) ≡ false
unfolding is_old_life
other_address id k m apart = ground (arith, (text_eqb_iff (address m.id) (address id)).0)

-- The node of a new machine stays in the list after a join from another address.
host_stays :
    (g : GossipManager) (id : NodeId) (created now : ℕ) (msg : Message)
    → g.active ≡ true
    → address id ≢ address msg.sender
    → Inv (new_controller id created)
    → member_at (to_string id) (G.handle_join g msg now (new_controller id created)).membership
      ≡ some (fresh_member id (pos 0) alive created)
unfolding new_controller new_suspicion_manager new_membership_list is_old_life
host_stays g id created now msg on apart v =
    let nd = new_controller id created in
    let entry = (handle_join_effect g msg now nd (to_string id) on v.formed).0 in
    let found : member_at (to_string id) nd.membership
        ≡ some (fresh_member id (pos 0) alive created) =
      lookup-insert_self Text-discrete (to_string id) (fresh_member id (pos 0) alive created) [] in
    entry
    ∙ if_neg (Text-discrete (to_string msg.sender) (to_string id))
        (λ e. apart (ap address (sym (to_string-injective msg.sender id e)))) _ _
    ∙ passes_over (is_old_life msg.sender) (to_string id) (member_at (to_string id) nd.membership)
        (fresh_member id (pos 0) alive created) found
        (other_address msg.sender (to_string id) (fresh_member id (pos 0) alive created) apart)

pub start-node :
    (mode : DetectionMode) (id : NodeId) (now : ℕ)
    → (start (new_machine mode id now)).node ≡ new_controller id now
unfolding start start_gossip start_ping new_machine Gossip.new_gossip_manager
start-node gossip_mode id now = refl
start-node ping_ack_mode id now = refl

address-renewed_id : (id : NodeId) (now : ℕ) → address (renewed_id id now) ≡ address id
unfolding address
address-renewed_id id now = refl

-- What the two nodes are like after the Join and the answer to it.
pub record Met (id id' : NodeId) (joined now : ℕ) (host guest : Node) : Type 0 where
  pub answered : host.sent ≡ (address id', welcome id now host.membership) ∷ []
  pub listed :
      member_at (to_string (renewed_id id' joined)) host.membership
      ≡ some (fresh_member (renewed_id id' joined) (pos 0) alive now)
  pub known : (m : Member) × (member_at (to_string id) guest.membership ≡ some m) × (m.id ≡ id)

module _ (id id' : NodeId) (created joined now later : ℕ) (guest : Node)
    (apart : address id ≢ address id') (safe : Inv (new_controller id created)) (safe' : Inv guest)
    (foreign : to_string id ≢ local_key guest.membership) where
  handlers-Met :
      (g h : GossipManager)
      → g.active ≡ true
      → h.active ≡ true
      → let host = G.handle_join g (hello id' joined) now (new_controller id created) in
        Met id id' joined now host
          (G.handle_join_response h (welcome id now host.membership) later guest)
  unfolding new_controller new_suspicion_manager new_membership_list
  handlers-Met g h on on' =
      let (listed, answered, known) =
        join_exchange g h (hello id' joined) now later (new_controller id created) guest
          (to_string id) (fresh_member id (pos 0) alive created) on on' safe safe'
          (host_stays g id created now (hello id' joined) on
            (λ e. apart (e ∙ address-renewed_id id' joined)) safe)
          foreign in
      record {
        answered =
            answered
            ∙ ap
                (λ x.
                  (
                    x,
                    welcome id now
                        (G.handle_join g (hello id' joined) now
                          (new_controller id created)).membership,
                  )
                  ∷ [])
                (address-renewed_id id' joined);
        listed = listed;
        known = (known.0, known.1, known.2);
      }

  -- The same for nodes that are what the handlers make.
  pub handled-Met :
      (g h : GossipManager) {host host' guest' : Node}
      → g.active ≡ true
      → h.active ≡ true
      → host ≡ new_controller id created
      → host' ≡ G.handle_join g (hello id' joined) now host
      → guest' ≡ G.handle_join_response h (welcome id now host'.membership) later guest
      → Met id id' joined now host' guest'
  handled-Met g h {guest' = guest'} on on' new handled handled' =
      let whole = handled ∙ ap (G.handle_join g (hello id' joined) now) new in
      subst (Met id id' joined now _) (sym handled') (
        subst
          (λ x.
            Met id id' joined now x
              (G.handle_join_response h (welcome id now x.membership) later guest))
          (sym whole) (handlers-Met g h on on'))

-- The guest's own key is that of its renewed identity.
pub guest-foreign :
    (id id' : NodeId) (created' joined : ℕ) (ml : MembershipList)
    → address id ≢ address id'
    → ml ≡ refresh_local_node joined (new_membership_list id' created')
    → to_string id ≢ local_key ml
unfolding refresh_local_node new_membership_list
guest-foreign id id' created' joined ml apart members e = apart (
    ap address (to_string-injective id (renewed_id id' joined) (e ∙ ap local_key members))
    ∙ address-renewed_id id' joined)
