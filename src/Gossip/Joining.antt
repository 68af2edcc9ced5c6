-- ===== src/Gossip/Joining.antt =====
-- A join from both sides: the member that joins, and the member that it joins by.
use mathlib.Core.List.{Memᴰ}
use distributed_group_member.Common.{
  ◌≡◌, refl, sym, ap, subst, ◌∙◌, ◌≢◌, ◌++◌, ℕ, ℤ, ◌≤ℤ◌, true, List, [], ◌∷◌, some, arith,
  Option-cases, inl, inr, if_pos, ltb_ℤ, Bool-cases, false,
}
use distributed_group_member.Common.Dict.{lookup-insert_self}
use distributed_group_member.Types.{
  Text, Text-discrete, to_string, address, Member, MemberUpdate, alive, Message, plain,
  join_response, zero_id, text_eqb,
}
use distributed_group_member.Types.Keys.{to_string-injective, text_eqb_iff}
use distributed_group_member.Membership.{
  MembershipList, member_at, local_key, fresh_member, update_of, unix,
}
use distributed_group_member.Membership.Invariant.{member_at-IsKeyed}
use distributed_group_member.Node.{Node}
use distributed_group_member.Suspicion.Entries.{Inv, Keeps}
use distributed_group_member.Gossip.{GossipManager, learned}
use distributed_group_member.Gossip.Group.{
  handle_join, handle_join_response, snapshot, absorb, absorb_all, absorbed, clear_all,
}
use distributed_group_member.Gossip.Invariant.{
  absorb-Keeps, absorb_all-Moves, clear_all-Keeps, handle_join_response-Keeps, handle_join-Inv,
}
use distributed_group_member.Gossip.Effects.{handle_join_effect, snapshot-mem}

-- The list has a member at the key, at no lower incarnation.
abbrev pub Has : Text → ℤ → MembershipList → Type 0
Has key inc ml = (m : Member) × (member_at key ml ≡ some m) × (inc ≤ℤ m.incarnation)

-- The list has the member of an update.
abbrev pub Knows : MemberUpdate → MembershipList → Type 0
Knows u = Has (to_string u.node_id) u.incarnation

absorb-Knows :
    (u : MemberUpdate) (now : ℕ) (ml : MembershipList)
    → to_string u.node_id ≢ local_key ml
    → Knows u (absorb u now ml).0
unfolding absorb
absorb-Knows u now ml foreign =
    let key = to_string u.node_id in
    let no_self : text_eqb key (local_key ml) ≡ false =
      ground (arith, (text_eqb_iff key (local_key ml)).0) in
    rw no_self (elim (Option-cases (member_at key ml)) [
      | inl e ↦ rw e (
        learned u now,
        lookup-insert_self Text-discrete key (learned u now) ml.members,
        omega arith,
      )
      | inr (m, e) ↦ elim (Bool-cases (ltb_ℤ m.incarnation u.incarnation)) [
        | inl newer ↦
            rw (e, newer)
              (
                absorbed u now m,
                lookup-insert_self Text-discrete key (absorbed u now m) ml.members,
                omega arith,
              )
        | inr older ↦ rw (e, older) (m, e, ground arith)
      ]
    ])

-- Knowledge is kept.
pub Has-kept :
    (key : Text) (inc : ℤ) (nd nd' : Node)
    → Keeps nd nd'
    → Has key inc nd.membership
    → Has key inc nd'.membership
Has-kept key inc nd nd' kept (m, found, h) =
    let (m', found', same, h') = kept.advances.kept key m found in (m', found', omega arith)

absorb_all-Knows :
    (u : MemberUpdate) (us : List MemberUpdate) (now : ℕ) (nd : Node)
    → Memᴰ u us
    → Inv nd
    → to_string u.node_id ≢ local_key nd.membership
    → Knows u (absorb_all us now nd.membership).0
unfolding absorb_all
absorb_all-Knows u [] now nd told v foreign = elim told [ ]
absorb_all-Knows u (x ∷ us) now nd (Memᴰ.head e) v foreign =
    let nd' = record nd { membership = (absorb x now nd.membership).0 } in
    let first = absorb-Keeps x now nd v in
    let learns : Knows u nd'.membership =
      subst (λ (y : MemberUpdate). Knows u (absorb y now nd.membership).0) e
        (absorb-Knows u now nd.membership foreign) in
    Has-kept (to_string u.node_id) u.incarnation nd' _ (absorb_all-Moves us now nd' first.inv)
      learns
absorb_all-Knows u (x ∷ us) now nd (Memᴰ.tail m) v foreign =
    let nd' = record nd { membership = (absorb x now nd.membership).0 } in
    let first = absorb-Keeps x now nd v in
    absorb_all-Knows u us now nd' m first.inv
      (λ e. foreign (e ∙ ap to_string first.advances.local_kept))

-- An active detector that takes in the answer to a join knows each member that it tells of.
handle_join_response-Knows :
    (g : GossipManager) (msg : Message) (now : ℕ) (nd : Node) (u : MemberUpdate)
    → g.active ≡ true
    → Memᴰ u msg.members
    → Inv nd
    → to_string u.node_id ≢ local_key nd.membership
    → Knows u (handle_join_response g msg now nd).membership
unfolding handle_join_response
handle_join_response-Knows g msg now nd u on told v foreign =
    let taken = record nd { membership = (absorb_all msg.members now nd.membership).0 } in
    let kept = absorb_all-Moves msg.members now nd v in
    let clears = (absorb_all msg.members now nd.membership).1 in
    rw on (
      Has-kept (to_string u.node_id) u.incarnation taken (clear_all clears taken)
        (clear_all-Keeps clears taken kept.inv)
        (absorb_all-Knows u msg.members now nd told v foreign))

-- A join between two active detectors whose nodes keep their invariants: the member that is asked has
-- the joiner as Alive at its incarnation and sends it one answer; and after that answer, whenever it
-- comes, the joiner has each member that the other had after the join, but for the joiner's own entry,
-- with the same identity and at no lower incarnation.
pub join_exchange :
    (g h : GossipManager) (msg : Message) (now later : ℕ) (nd joiner : Node) (k : Text) (m : Member)
    → g.active ≡ true
    → h.active ≡ true
    → Inv nd
    → Inv joiner
    → member_at k (handle_join g msg now nd).membership ≡ some m
    → k ≢ local_key joiner.membership
    → let nd' = handle_join g msg now nd in
      let answer =
        record (plain join_response nd.membership.local_node zero_id nd.membership.incarnation) {
          members = snapshot now nd'.membership;
          timestamp = unix now;
        } in
      let joiner' = handle_join_response h answer later joiner in
      (member_at (to_string msg.sender) nd'.membership
        ≡ some (fresh_member msg.sender msg.incarnation alive now))
      × (nd'.sent ≡ nd.sent ++ (address msg.sender, answer) ∷ [])
      × ((m' : Member) × (member_at k joiner'.membership ≡ some m')
          × (m'.id ≡ m.id)
          × (m.incarnation ≤ℤ m'.incarnation))
join_exchange g h msg now later nd joiner k m on on' v w found foreign =
    let nd' = handle_join g msg now nd in
    let answer : Message =
      record (plain join_response nd.membership.local_node zero_id nd.membership.incarnation) {
        members = snapshot now nd'.membership;
        timestamp = unix now;
      } in
    let (entry, sent) = handle_join_effect g msg now nd (to_string msg.sender) on v.formed in
    let keyed =
      member_at-IsKeyed k nd'.membership m (handle_join-Inv g msg now nd v).formed found in
    let (m', found', higher) =
      handle_join_response-Knows h answer later joiner (update_of m now) on'
        (snapshot-mem now k m nd'.membership found) w (λ e. foreign (keyed ∙ e)) in
    let joined = handle_join_response-Keeps h answer later joiner w in
    let keyed' =
      member_at-IsKeyed (to_string m.id) (handle_join_response h answer later joiner).membership m'
        joined.inv.formed found' in
    (
      entry ∙ if_pos (Text-discrete (to_string msg.sender) (to_string msg.sender)) refl _ _,
      sent,
      (
        m',
        ap (λ x. member_at x (handle_join_response h answer later joiner).membership) keyed
            ∙ found',
        to_string-injective m'.id m.id (sym keyed'),
        higher,
      ),
    )
