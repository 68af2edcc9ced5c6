-- ===== src/Gossip/Others.antt =====
-- What the messages about one member leave of another.
use distributed_group_member.Common.{
  ◌≡◌, refl, ap, ◌∙◌, ◌≢◌, ℕ, ℤ, Bool, ◌&&◌, List, [], ◌∷◌, arith, All, if_cases, if◌then◌else◌,
  Option-cases, inl, inr, ltb_ℤ, eqb_ℤ,
}
use distributed_group_member.Common.Dict.{lookup-insert, lookup-insert_ne, lookup-delete}
use distributed_group_member.Types.{
  Text, Text-discrete, NodeId, to_string, text_eqb, Member, MemberUpdate, suspected, is_alive,
  is_suspected,
}
use distributed_group_member.Membership.{MembershipList, member_at, local_key}
use distributed_group_member.Node.{Node}
use distributed_group_member.Node.Sending.{send_all_lem}
use distributed_group_member.Suspicion.{
  entry_at, with_members, notify, suspect_member, clear_member, clear_suspect, process_suspicion,
  handle_self_refutation,
}
use distributed_group_member.Suspicion.Members.{member_at-modify_member}
use distributed_group_member.Suspicion.Reports.{
  Outcome, ignored, counted, raised, process_suspicion-Outcome, process_suspicion_self,
}
use distributed_group_member.Gossip.{
  store_updated, learned, overtaken, refuted, renewed, alive_sender, update_known, follow_up,
  update_self, process_update, process_updates,
}

pub cleared-other :
    (id : NodeId) (inc : ℤ) (nd : Node) (j : Text)
    → to_string id ≢ j
    → member_at j (clear_suspect id inc nd).membership ≡ member_at j nd.membership
unfolding clear_suspect notify
cleared-other id inc nd j h =
    ground (arith, member_at-modify_member (to_string id) (clear_member inc) nd.membership j)

pub alive-other :
    (id : NodeId) (inc : ℤ) (now : ℕ) (ml : MembershipList) (j : Text)
    → to_string id ≢ j
    → member_at j (alive_sender id inc now ml) ≡ member_at j ml
unfolding alive_sender
alive-other id inc now ml j h = elim (Option-cases (member_at (to_string id) ml)) [
  | inl e ↦ rw (e, alive_sender) refl
  | inr (m, e) ↦
      rw (e, alive_sender)
        (ground
          (arith, lookup-insert Text-discrete (to_string id) j (renewed inc now m) ml.members))
]

-- The member and the entry under the key, and the options, stay as they are.
abbrev pub Leaves : Text → Node → Node → Type 0
Leaves j nd nd' =
    (member_at j nd'.membership ≡ member_at j nd.membership)
    × (entry_at j nd' ≡ entry_at j nd)
    × (nd'.options ≡ nd.options)

Leaves-trans : (j : Text) (a b c : Node) → Leaves j a b → Leaves j b c → Leaves j a c
Leaves-trans j a b c p q = (q.0 ∙ p.0, q.1 ∙ p.1, q.2 ∙ p.2)

Outcome-Leaves :
    {reporter target : NodeId} {inc : ℤ} {now : ℕ} {nd nd' : Node} (j : Text)
    → to_string target ≢ j
    → Outcome reporter target inc now nd nd'
    → Leaves j nd nd'
Outcome-Leaves j h (ignored _ e) =
    (ap (λ x. member_at j x.membership) e, ap (entry_at j) e, ap (λ x. x.options) e)
Outcome-Leaves {target} {nd} j h (counted _ _ _ e) = (
  ap (λ x. member_at j x.membership) e,
  ap (entry_at j) e ∙ lookup-insert_ne Text-discrete (to_string target) j _ nd.entries h,
  ap (λ x. x.options) e,
)
Outcome-Leaves {target} {now} {nd} j h (raised _ _ _ _ e) = (
  ap (λ x. member_at j x.membership) e
      ∙ ground
          (arith, member_at-modify_member (to_string target) (suspect_member now) nd.membership j),
  ap (entry_at j) e ∙ lookup-insert_ne Text-discrete (to_string target) j _ nd.entries h,
  ap (λ x. x.options) e,
)

cleared-Leaves :
    (id : NodeId) (inc : ℤ) (nd : Node) (j : Text)
    → to_string id ≢ j
    → Leaves j nd (clear_suspect id inc nd)
unfolding clear_suspect notify
cleared-Leaves id inc nd j h = (
  cleared-other id inc nd j h,
  ground (arith, lookup-delete Text-discrete (to_string id) j nd.entries),
  ground arith,
)

process_suspicion-Leaves :
    (reporter target : NodeId) (inc : ℤ) (now : ℕ) (nd : Node) (j : Text)
    → to_string target ≢ j
    → Leaves j nd (process_suspicion reporter target inc now nd)
unfolding handle_self_refutation
process_suspicion-Leaves reporter target inc now nd j h =
    elim (Text-discrete (to_string target) (local_key nd.membership)) [
      | yes self ↦
          rw (process_suspicion_self reporter target inc now nd self)
            (rw send_all_lem (refl, refl, refl))
      | no foreign ↦
          Outcome-Leaves j h (process_suspicion-Outcome reporter target inc now nd foreign)
    ]

update_known-other :
    (enable : Bool) (u : MemberUpdate) (now : ℕ) (k : Text) (m : Member) (ml : MembershipList)
    (j : Text)
    → k ≢ j
    → member_at j (update_known enable u now k m ml) ≡ member_at j ml
unfolding update_known
update_known-other enable u now k m ml j h =
    let stored : (x : Member) → member_at j (store_updated k x now ml) ≡ member_at j ml =
      λ x. lookup-insert_ne Text-discrete k j x ml.members h in
    let P : MembershipList → Type 0 = λ l. member_at j l ≡ member_at j ml in
    if_cases P (ltb_ℤ m.incarnation u.incarnation) (λ _. stored (overtaken enable u now m))
      (λ _.
        if_cases P (eqb_ℤ u.incarnation m.incarnation)
          (λ _.
            if_cases P (is_alive u.status && is_suspected m.status) (λ _. stored (refuted now m))
              (λ _.
                if_cases P (is_suspected u.status && is_alive m.status)
                  (λ _. stored (record m { status = suspected; suspicion_start = now }))
                  (λ _. refl)))
          (λ _. refl))

update_self-Leaves :
    (enable : Bool) (u : MemberUpdate) (reporter : NodeId) (now : ℕ) (nd : Node) (j : Text)
    → to_string u.node_id ≢ j
    → Leaves j nd (update_self enable u reporter now nd)
unfolding update_self
update_self-Leaves enable u reporter now nd j h =
    if_cases (Leaves j nd) (is_suspected u.status && enable)
      (λ _. process_suspicion-Leaves reporter u.node_id u.incarnation now nd j h)
      (λ _.
        if_cases (Leaves j nd) (is_alive u.status)
          (λ _. cleared-Leaves u.node_id u.incarnation nd j h) (λ _. (refl, refl, refl)))

follow_up-Leaves :
    (enable : Bool) (u : MemberUpdate) (reporter : NodeId) (now : ℕ) (nd : Node) (j : Text)
    → to_string u.node_id ≢ j
    → Leaves j nd (follow_up enable u reporter now nd)
unfolding follow_up
follow_up-Leaves enable u reporter now nd j h =
    let reported =
      if_cases (Leaves j nd) (is_suspected u.status && enable)
        (λ _. process_suspicion-Leaves reporter u.node_id u.incarnation now nd j h)
        (λ _. (refl, refl, refl)) in
    if_cases (Leaves j nd) (is_alive u.status)
      (λ _.
        let nd' =
          if is_suspected u.status && enable
          then process_suspicion reporter u.node_id u.incarnation now nd
          else nd in
        Leaves-trans j nd nd' (clear_suspect u.node_id u.incarnation nd') reported
          (cleared-Leaves u.node_id u.incarnation nd' j h))
      (λ _. reported)

process_update-Leaves :
    (enable : Bool) (u : MemberUpdate) (reporter : NodeId) (now : ℕ) (nd : Node) (j : Text)
    → to_string u.node_id ≢ j
    → Leaves j nd (process_update enable u reporter now nd)
unfolding process_update
process_update-Leaves enable u reporter now nd j h =
    let key = to_string u.node_id in
    if_cases (Leaves j nd) (text_eqb key (local_key nd.membership))
      (λ _. update_self-Leaves enable u reporter now nd j h)
      (λ _. elim (Option-cases (member_at key nd.membership)) [
        | inl e ↦ rw e (
          lookup-insert_ne Text-discrete key j (learned u now) nd.membership.members h,
          refl,
          refl,
        )
        | inr (m, e) ↦
            let known = with_members (update_known enable u now key m) nd in
            rw e (
              Leaves-trans j nd known (follow_up enable u reporter now known)
                (update_known-other enable u now key m nd.membership j h, refl, refl)
                (follow_up-Leaves enable u reporter now known j h))
      ])

-- The updates name other members.
pub process_updates-Leaves :
    (enable : Bool) (us : List MemberUpdate) (reporter : NodeId) (now : ℕ) (nd : Node) (j : Text)
    → All (λ (u : MemberUpdate). to_string u.node_id ≢ j) us
    → Leaves j nd (process_updates enable us reporter now nd)
unfolding process_updates
process_updates-Leaves enable [] reporter now nd j hs = (refl, refl, refl)
process_updates-Leaves enable (u ∷ us) reporter now nd j (h, hs) =
    Leaves-trans j nd (process_update enable u reporter now nd)
      (process_updates enable (u ∷ us) reporter now nd)
      (process_update-Leaves enable u reporter now nd j h)
      (process_updates-Leaves enable us reporter now (process_update enable u reporter now nd) j hs)
