-- ===== src/Gossip/Effects.antt =====
-- What a join leaves in the list.
use mathlib.Core.List.{Memᴰ}
use distributed_group_member.Common.{
  ◌≡◌, refl, sym, ap, ◌∙◌, subst, ℕ, ℤ, true, false, List, [], ◌∷◌, ◌++◌, none, some, arith, ite,
  if◌then◌else◌, map, Bool-cases, inl, inr, if_pos, if_neg, eq_of_parts, some-injective,
}
use distributed_group_member.Common.Dict.{lookup, lookup-insert, keys, values, delete_all}
use distributed_group_member.Common.Dict.Loops.{holds_at, lookup-delete_all, is_in-select}
use distributed_group_member.Types.{
  Text, Text-discrete, NodeId, to_string, address, Member, Message, alive, plain, join_response,
  zero_id,
}
use distributed_group_member.Types.Keys.{address-injective, text_eqb_iff}
use distributed_group_member.Membership.{
  MembershipList, member_at, fresh_member, update_of, add_recent_update, unix,
}
use distributed_group_member.Membership.Invariant.{IsWellFormed}
use distributed_group_member.Node.{Node, send}
use distributed_group_member.Gossip.{GossipManager}
use distributed_group_member.Gossip.Group.{
  is_old_life, old_lives, admit, failed_member, add_recent_updates, snapshot, handle_join,
}

-- The updates that are recorded leave the members alone.
pub told-members :
    (ms : List Member) (now : ℕ) (ml : MembershipList)
    → (add_recent_updates ms now ml).members ≡ ml.members
unfolding add_recent_updates
told-members [] now ml = refl
told-members (m ∷ ms) now ml = told-members ms now (add_recent_update m now ml)

pub member_at-admit :
    (id : NodeId) (inc : ℤ) (now : ℕ) (ml : MembershipList) (j : Text)
    → IsWellFormed ml
    → member_at j (admit id inc now ml)
      ≡ ite
          (Text-discrete (to_string id) j)
          (some (fresh_member id inc alive now))
          (if holds_at (is_old_life id) j (member_at j ml) then none else member_at j ml)
unfolding admit old_lives
member_at-admit id inc now ml j w =
    let rest = delete_all Text-discrete (keys (old_lives id ml)) ml.members in
    lookup-insert Text-discrete (to_string id) j (fresh_member id inc alive now) rest
    ∙ ap (ite (Text-discrete (to_string id) j) (some (fresh_member id inc alive now))) (
        lookup-delete_all Text-discrete j (keys (old_lives id ml)) ml.members
        ∙ ap (λ b. if b then none else member_at j ml)
            (is_in-select Text-discrete (is_old_life id) j ml.members w.unique))

not_old_life :
    (id : NodeId) (j : Text) (m : Member)
    → address m.id ≡ address id
    → is_old_life id (j, m) ≡ false
    → m.id ≡ id
unfolding is_old_life
not_old_life id j m same h =
    let (i, p) = address-injective m.id id same in
    let t : m.id.timestamp ≡ id.timestamp =
      eq_of_parts m.id.timestamp id.timestamp
        (ground (arith, (text_eqb_iff (address m.id) (address id)).1 same)) in
    λ k. record { ip = i k; port = p k; timestamp = t k }

admit_single :
    (id : NodeId) (inc : ℤ) (now : ℕ) (ml : MembershipList) (j : Text) (m : Member)
    → IsWellFormed ml
    → member_at j (admit id inc now ml) ≡ some m
    → address m.id ≡ address id
    → m.id ≡ id
admit_single id inc now ml j m w e same =
    let law = member_at-admit id inc now ml j w in
    elim (Text-discrete (to_string id) j) [
      | yes q ↦
          let at : some (fresh_member id inc alive now) ≡ some m =
            sym (law ∙ if_pos (Text-discrete (to_string id) j) q _ _) ∙ e in
          ap (λ (x : Member). x.id) (sym (some-injective _ _ at))
      | no q ↦ elim (Bool-cases (is_old_life id (j, m))) [
        | inl old ↦ absurd (ground (arith, law))
        | inr new ↦ not_old_life id j m same new
      ]
    ]

update_of-mem :
    (now : ℕ) (j : Text) (m : Member) (ms : List (Text × Member))
    → lookup Text-discrete j ms ≡ some m
    → Memᴰ (update_of m now) (map (λ (x : Member). update_of x now) (values ms))
unfolding lookup
update_of-mem now j m [] e = cc
update_of-mem now j m ((k, x) ∷ ms) e = elim (Text-discrete k j) [
  | yes q ↦ Memᴰ.head (
      ap (λ (y : Member). update_of y now)
        (some-injective m x
          (sym e ∙ if_pos (Text-discrete k j) q (some x) (lookup Text-discrete j ms))))
  | no q ↦ Memᴰ.tail (
      update_of-mem now j m ms
        (sym (if_neg (Text-discrete k j) q (some x) (lookup Text-discrete j ms)) ∙ e))
]

joined-members :
    (g : GossipManager) (msg : Message) (now : ℕ) (nd : Node)
    → g.active ≡ true
    → (handle_join g msg now nd).membership.members
      ≡ (admit msg.sender msg.incarnation now nd.membership).members
unfolding handle_join send
joined-members g msg now nd on = simp on (
    told-members (map (λ e. failed_member e.1) (old_lives msg.sender nd.membership)) now
      (admit msg.sender msg.incarnation now nd.membership))

sent_from :
    (g : GossipManager) (msg : Message) (now : ℕ) (nd : Node)
    → g.active ≡ true
    → (handle_join g msg now nd).sent
      ≡ nd.sent
        ++ (
          address msg.sender,
          record (plain join_response nd.membership.local_node zero_id nd.membership.incarnation) {
            members = snapshot now (admit msg.sender msg.incarnation now nd.membership);
            timestamp = unix now;
          },
        )
          ∷ []
unfolding handle_join send
sent_from g msg now nd on = simp on

joined-sent :
    (g : GossipManager) (msg : Message) (now : ℕ) (nd : Node)
    → g.active ≡ true
    → (handle_join g msg now nd).sent
      ≡ nd.sent
        ++ (
          address msg.sender,
          record (plain join_response nd.membership.local_node zero_id nd.membership.incarnation) {
            members = snapshot now (handle_join g msg now nd).membership;
            timestamp = unix now;
          },
        )
          ∷ []
unfolding snapshot
joined-sent g msg now nd on =
    sent_from g msg now nd on
    ∙ ap
        (λ ms.
          nd.sent
          ++ (
            address msg.sender,
            record (plain join_response nd.membership.local_node zero_id
                nd.membership.incarnation) {
                  members = map (λ (m : Member). update_of m now) (values ms);
                  timestamp = unix now;
                },
          )
            ∷ [])
        (sym (joined-members g msg now nd on))

-- After a join that an active detector handles, each key holds what it held, but the joiner's, which
-- is Alive at its incarnation, and those of other lives of its address, which are gone; and one answer
-- goes to the joiner, with the list as it is after the join.
pub handle_join_effect :
    (g : GossipManager) (msg : Message) (now : ℕ) (nd : Node) (j : Text)
    → g.active ≡ true
    → IsWellFormed nd.membership
    → let nd' = handle_join g msg now nd in
      (member_at j nd'.membership
        ≡ ite
            (Text-discrete (to_string msg.sender) j)
            (some (fresh_member msg.sender msg.incarnation alive now))
            (if holds_at (is_old_life msg.sender) j (member_at j nd.membership)
              then none
              else member_at j nd.membership))
      × (nd'.sent
          ≡ nd.sent
            ++ (
              address msg.sender,
              record (plain join_response nd.membership.local_node zero_id
                  nd.membership.incarnation) {
                    members = snapshot now nd'.membership;
                    timestamp = unix now;
                  },
            )
              ∷ [])
handle_join_effect g msg now nd j on w = (
  ap (lookup Text-discrete j) (joined-members g msg now nd on)
      ∙ member_at-admit msg.sender msg.incarnation now nd.membership j w,
  joined-sent g msg now nd on,
)

-- After a join that an active detector handles, a member with the address of the joiner is the joiner.
pub joined_life_lem :
    (g : GossipManager) (msg : Message) (now : ℕ) (nd : Node) (j : Text) (m : Member)
    → g.active ≡ true
    → IsWellFormed nd.membership
    → member_at j (handle_join g msg now nd).membership ≡ some m
    → address m.id ≡ address msg.sender
    → m.id ≡ msg.sender
joined_life_lem g msg now nd j m on w e same =
    admit_single msg.sender msg.incarnation now nd.membership j m w
      (subst (λ ms. lookup Text-discrete j ms ≡ some m) (joined-members g msg now nd on) e) same

-- The list that answers a join tells of every member on record.
pub snapshot-mem :
    (now : ℕ) (j : Text) (m : Member) (ml : MembershipList)
    → member_at j ml ≡ some m
    → Memᴰ (update_of m now) (snapshot now ml)
unfolding snapshot
snapshot-mem now j m ml e = update_of-mem now j m ml.members e
