-- ===== src/Gossip/Updates.antt =====
-- The steps of the gossip handlers on the membership list, and what they do to members and
-- incarnations.
use distributed_group_member.Common.{
  ◌≡◌, refl, sym, ap, ◌∙◌, subst, ℕ, ℤ, Bool, none, some, arith, ◌≤ℤ◌, Option-cases, inl, inr,
  ltb_ℤ, leb_ℤ, eqb_ℤ, if_cases, ◌&&◌, ◌||◌, not,
}
use distributed_group_member.Common.Dict.{lookup-insert_self, lookup-insert_ne}
use distributed_group_member.Types.{
  Text, Text-discrete, NodeId, to_string, Member, MemberUpdate, alive, suspected, failed, is_alive,
  is_suspected,
}
use distributed_group_member.Membership.{
  MembershipList, member_at, store, fresh_member, add_recent_update,
}
use distributed_group_member.Membership.Invariant.{
  IsWellFormed, store-IsWellFormed, member_at-IsKeyed,
}
use distributed_group_member.Suspicion.Members.{Advances, Advances-refl}
use distributed_group_member.Gossip.{
  store_updated, renewed, refuted, heartbeat_sender, overtaken, update_known, alive_sender,
  confirm_target,
}

-- The list stays well formed and advances.
pub record Moves (ml ml' : MembershipList) : Type 0 where
  pub formed : IsWellFormed ml'
  pub advances : Advances ml ml'

pub Moves-refl : (ml : MembershipList) → IsWellFormed ml → Moves ml ml
Moves-refl ml w = record { formed = w; advances = Advances-refl ml }

store_new-Advances :
    (k : Text) (m : Member) (ml : MembershipList)
    → member_at k ml ≡ none
    → Advances ml (store k m ml)
store_new-Advances k m ml e = record {
  local_kept = refl;
  kept = λ j x q. elim (Text-discrete k j) [
    | yes r ↦ absurd (ground arith)
    | no r ↦ (x, lookup-insert_ne Text-discrete k j m ml.members r ∙ q, refl, omega arith)
  ];
}

store_over-Advances :
    (k : Text) (m' m : Member) (ml : MembershipList)
    → member_at k ml ≡ some m
    → m'.id ≡ m.id
    → m.incarnation ≤ℤ m'.incarnation
    → Advances ml (store k m' ml)
store_over-Advances k m' m ml e i h = record {
  local_kept = refl;
  kept = λ j x q. elim (Text-discrete k j) [
    | yes r ↦
        let same : x ≡ m = ground arith in
        (
          m',
          subst (λ t. member_at t (store k m' ml) ≡ some m') r
              (lookup-insert_self Text-discrete k m' ml.members),
          i ∙ ap (λ (y : Member). y.id) (sym same),
          rw same h,
        )
    | no r ↦ (x, lookup-insert_ne Text-discrete k j m' ml.members r ∙ q, refl, omega arith)
  ];
}

-- A record of an update changes no member.
pub told_Moves :
    (ml ml' : MembershipList) (m : Member) (now : ℕ)
    → Moves ml ml'
    → Moves ml (add_recent_update m now ml')
told_Moves ml ml' m now v = record {
  formed = record { keyed = v.formed.keyed; unique = v.formed.unique };
  advances = record { local_kept = v.advances.local_kept; kept = v.advances.kept };
}

-- A new member under its own key.
pub store_new-Moves :
    (m : Member) (ml : MembershipList)
    → member_at (to_string m.id) ml ≡ none
    → IsWellFormed ml
    → Moves ml (store (to_string m.id) m ml)
store_new-Moves m ml e w = record {
  formed = store-IsWellFormed (to_string m.id) m ml refl w;
  advances = store_new-Advances (to_string m.id) m ml e;
}

-- A member in place of itself.
pub store_over-Moves :
    (k : Text) (m' m : Member) (ml : MembershipList)
    → IsWellFormed ml
    → member_at k ml ≡ some m
    → m'.id ≡ m.id
    → m.incarnation ≤ℤ m'.incarnation
    → Moves ml (store k m' ml)
store_over-Moves k m' m ml w e i h = record {
  formed = store-IsWellFormed k m' ml (member_at-IsKeyed k ml m w e ∙ ap to_string (sym i)) w;
  advances = store_over-Advances k m' m ml e i h;
}

-- The same with a record of the update.
pub updated_new-Moves :
    (m : Member) (now : ℕ) (ml : MembershipList)
    → IsWellFormed ml
    → member_at (to_string m.id) ml ≡ none
    → Moves ml (store_updated (to_string m.id) m now ml)
updated_new-Moves m now ml w e =
    told_Moves ml (store (to_string m.id) m ml) m now (store_new-Moves m ml e w)

pub updated_over-Moves :
    (k : Text) (m' m : Member) (now : ℕ) (ml : MembershipList)
    → IsWellFormed ml
    → member_at k ml ≡ some m
    → m'.id ≡ m.id
    → m.incarnation ≤ℤ m'.incarnation
    → Moves ml (store_updated k m' now ml)
updated_over-Moves k m' m now ml w e i h =
    told_Moves ml (store k m' ml) m' now (store_over-Moves k m' m ml w e i h)

pub heartbeat_sender-Moves :
    (id : NodeId) (inc : ℤ) (now : ℕ) (ml : MembershipList)
    → IsWellFormed ml
    → Moves ml (heartbeat_sender id inc now ml)
unfolding heartbeat_sender
heartbeat_sender-Moves id inc now ml w =
    let key = to_string id in
    elim (Option-cases (member_at key ml)) [
      | inl e ↦
          rw (e, heartbeat_sender) (updated_new-Moves (fresh_member id inc alive now) now ml w e)
      | inr (m, e) ↦
          rw (e, heartbeat_sender)
            (if_cases (Moves ml) (ltb_ℤ m.incarnation inc)
              (λ h. updated_over-Moves key (renewed inc now m) m now ml w e refl (ground arith))
              (λ h.
                if_cases (Moves ml) (eqb_ℤ inc m.incarnation)
                  (λ _.
                    if_cases (Moves ml) (is_suspected m.status)
                      (λ _. updated_over-Moves key (refuted now m) m now ml w e refl (omega arith))
                      (λ _.
                        store_over-Moves key (record m { last_heartbeat = now }) m ml w e refl
                          (omega arith)))
                  (λ _. Moves-refl ml w)))
    ]

overtaken-Forward :
    (enable : Bool) (u : MemberUpdate) (now : ℕ) (m : Member)
    → ((overtaken enable u now m).id ≡ m.id)
      × ((overtaken enable u now m).incarnation ≡ u.incarnation)
overtaken-Forward enable u now m = ground arith

pub update_known-Moves :
    (enable : Bool) (u : MemberUpdate) (now : ℕ) (key : Text) (m : Member) (ml : MembershipList)
    → member_at key ml ≡ some m
    → IsWellFormed ml
    → Moves ml (update_known enable u now key m ml)
unfolding update_known
update_known-Moves enable u now key m ml e w =
    let (same, inc) = overtaken-Forward enable u now m in
    if_cases (Moves ml) (ltb_ℤ m.incarnation u.incarnation)
      (λ h.
        updated_over-Moves key (overtaken enable u now m) m now ml w e same (rw inc (ground arith)))
      (λ h.
        if_cases (Moves ml) (eqb_ℤ u.incarnation m.incarnation)
          (λ _.
            if_cases (Moves ml) (is_alive u.status && is_suspected m.status)
              (λ _. updated_over-Moves key (refuted now m) m now ml w e refl (omega arith))
              (λ _.
                if_cases (Moves ml) (is_suspected u.status && is_alive m.status)
                  (λ _.
                    updated_over-Moves key (record m { status = suspected; suspicion_start = now })
                      m now ml w e refl (omega arith))
                  (λ _. Moves-refl ml w)))
          (λ _. Moves-refl ml w))

pub alive_sender-Moves :
    (id : NodeId) (inc : ℤ) (now : ℕ) (ml : MembershipList)
    → IsWellFormed ml
    → Moves ml (alive_sender id inc now ml)
unfolding alive_sender
alive_sender-Moves id inc now ml w =
    let key = to_string id in
    elim (Option-cases (member_at key ml)) [
      | inl e ↦ rw (e, alive_sender) (Moves-refl ml w)
      | inr (m, e) ↦
          rw (e, alive_sender)
            (if_cases (Moves ml)
              (leb_ℤ m.incarnation inc && (not (is_alive m.status) || ltb_ℤ m.incarnation inc))
              (λ h. updated_over-Moves key (renewed inc now m) m now ml w e refl (ground arith))
              (λ _. Moves-refl ml w))
    ]

pub confirm_target-Moves :
    (id : NodeId) (inc : ℤ) (now : ℕ) (ml : MembershipList)
    → IsWellFormed ml
    → Moves ml (confirm_target id inc now ml)
unfolding confirm_target
confirm_target-Moves id inc now ml w =
    let key = to_string id in
    elim (Option-cases (member_at key ml)) [
      | inl e ↦ rw (e, confirm_target) (Moves-refl ml w)
      | inr (m, e) ↦
          rw (e, confirm_target)
            (if_cases (Moves ml) (leb_ℤ m.incarnation inc)
              (λ h.
                updated_over-Moves key (record m { status = failed; incarnation = inc }) m now ml w
                  e refl (ground arith))
              (λ _. Moves-refl ml w))
    ]
