-- ===== src/Gossip/Detection.antt =====
-- detectors/gossip.go, `checkFailures` as a whole: what it leaves of a member.
pub mod Silence
pub mod Verdicts
use mathlib.Core.Option
use distributed_group_member.Common.{
  ◌≡◌, refl, sym, ap, subst, ◌∙◌, ◌≢◌, ℕ, ◌+◌, ◌<◌, ◌≤◌, ◌^◌, pos, ℤ, Bool, true, List, [], ◌∷◌,
  Option, none, some, arith, ◌⊎◌, inl, inr, if_cases, if◌then◌else◌, leb, map,
}
use distributed_group_member.Types.{
  Text, Text-discrete, NodeId, to_string, Member, alive, suspected,
}
use distributed_group_member.Types.Keys.{text_eqb_iff}
use distributed_group_member.Membership.{MembershipList, member_at, local_key, add_recent_update}
use distributed_group_member.Membership.Invariant.{IsWellFormed}
use distributed_group_member.Node.{Node}
use distributed_group_member.Node.Sending.{send_all_lem}
use distributed_group_member.Suspicion.{
  with_members, process_suspicion, handle_self_refutation, suspect_member,
}
use distributed_group_member.Suspicion.Members.{member_at-modify_member, modify_member-local}
use distributed_group_member.Suspicion.Entries.{Inv}
use distributed_group_member.Suspicion.Reports.{
  Outcome, ignored, counted, raised, process_suspicion-Outcome, process_suspicion_self,
}
use distributed_group_member.Gossip.{GossipManager}
use distributed_group_member.Gossip.Group.{add_recent_updates}
use distributed_group_member.Gossip.Effects.{told-members}
use distributed_group_member.Gossip.Rounds.{
  suspect_threshold, confirm_threshold, newly_suspected, suspect_updates, removal_candidates,
  removal_update, sweep, verdict, raise_suspicions, check_failures, suspects, removes,
}
use distributed_group_member.Gossip.Sweep.{member_at-sweep, verdict_by_lem, verdict_by, carried}
use distributed_group_member.Gossip.Periodic.{check_failures-Inv}

-- A node whose member under the key is as before, or suspected anew.
pub record Marks (now : ℕ) (k : Text) (nd nd' : Node) : Type 0 where
  pub local_same : nd'.membership.local_node ≡ nd.membership.local_node
  pub member_same :
      (member_at k nd'.membership ≡ member_at k nd.membership)
      ⊎ (member_at k nd'.membership ≡ Option.map (suspect_member now) (member_at k nd.membership))

Marks-refl :
    (now : ℕ) (k : Text) (nd nd' : Node)
    → nd'.membership.members ≡ nd.membership.members
    → nd'.membership.local_node ≡ nd.membership.local_node
    → Marks now k nd nd'
unfolding member_at
Marks-refl now k nd nd' e l = record { local_same = l; member_same = inl (rw e refl) }

Outcome-Marks :
    {reporter target : NodeId} {inc : ℤ} {now : ℕ} {nd nd' : Node} (k : Text)
    → Outcome reporter target inc now nd nd'
    → Marks now k nd nd'
Outcome-Marks {nd} {nd'} k (ignored _ e) =
    Marks-refl _ k nd nd' (ap (λ x. x.membership.members) e) (ap (λ x. x.membership.local_node) e)
Outcome-Marks {nd} {nd'} k (counted _ _ _ e) =
    Marks-refl _ k nd nd' (ap (λ x. x.membership.members) e) (ap (λ x. x.membership.local_node) e)
Outcome-Marks {target} {now} {nd} {nd'} k (raised _ _ _ _ e) = record {
  local_same =
      ap (λ x. x.membership.local_node) e
      ∙ modify_member-local (to_string target) (suspect_member now) nd.membership;
  member_same =
      let found =
        ap (λ x. member_at k x.membership) e
        ∙ member_at-modify_member (to_string target) (suspect_member now) nd.membership k in
      elim (Text-discrete (to_string target) k) [
        | yes q ↦ inr (ground (arith, found))
        | no q ↦ inl (ground (arith, found))
      ];
}

pub process_suspicion-Marks :
    (reporter target : NodeId) (inc : ℤ) (now : ℕ) (nd : Node) (k : Text)
    → Marks now k nd (process_suspicion reporter target inc now nd)
unfolding handle_self_refutation
process_suspicion-Marks reporter target inc now nd k =
    elim (Text-discrete (to_string target) (local_key nd.membership)) [
      | yes self ↦
          rw (process_suspicion_self reporter target inc now nd self)
            (rw send_all_lem (Marks-refl now k nd _ refl refl))
      | no foreign ↦ Outcome-Marks k (process_suspicion-Outcome reporter target inc now nd foreign)
    ]

told-local :
    (ms : List Member) (now : ℕ) (ml : MembershipList)
    → (add_recent_updates ms now ml).local_node ≡ ml.local_node
unfolding add_recent_updates
told-local [] now ml = refl
told-local (m ∷ ms) now ml = told-local ms now (add_recent_update m now ml)

-- What a new suspicion of the member does not end.
unfoldable pub IsLasting : ℕ → (Option Member → Type 0) → Type 0
IsLasting now P = (o : Option Member) → P o → P (Option.map (suspect_member now) o)

pub Marks-kept :
    (P : Option Member → Type 0) (now : ℕ) (k : Text) (nd nd' : Node)
    → IsLasting now P
    → Marks now k nd nd'
    → P (member_at k nd.membership)
    → P (member_at k nd'.membership)
unfolding IsLasting
Marks-kept P now k nd nd' lasting marks v = elim marks.member_same [
  | inl e ↦ subst P (sym e) v
  | inr e ↦ subst P (sym e) (lasting (member_at k nd.membership) v)
]

raise_suspicions-kept :
    (P : Option Member → Type 0) (enable : Bool) (ms : List Member) (now : ℕ) (k : Text) (nd : Node)
    → IsLasting now P
    → P (member_at k nd.membership)
    → P (member_at k (raise_suspicions enable ms now nd).membership)
unfolding raise_suspicions
raise_suspicions-kept P enable [] now k nd lasting v = v
raise_suspicions-kept P enable (m ∷ ms) now k nd lasting v =
    let told = with_members (add_recent_update m now) nd in
    raise_suspicions-kept P enable ms now k _ lasting (
      if_cases (λ (nd' : Node). P (member_at k nd'.membership)) enable
        (λ _.
          Marks-kept P now k told _ lasting
            (process_suspicion-Marks nd.membership.local_node m.id m.incarnation now told k) v)
        (λ _. v))

raise_suspicions-local :
    (enable : Bool) (ms : List Member) (now : ℕ) (nd : Node)
    → (raise_suspicions enable ms now nd).membership.local_node ≡ nd.membership.local_node
unfolding raise_suspicions
raise_suspicions-local enable [] now nd = refl
raise_suspicions-local enable (m ∷ ms) now nd =
    let told = with_members (add_recent_update m now) nd in
    raise_suspicions-local enable ms now _
    ∙ if_cases (λ (nd' : Node). nd'.membership.local_node ≡ nd.membership.local_node) enable
        (λ _.
          (process_suspicion-Marks nd.membership.local_node m.id m.incarnation now told
            (to_string m.id)).local_same)
        (λ _. refl)

-- What the locked part of a check has made of a member is still so at the end of the check.
pub check_failures-kept :
    (P : Option Member → Type 0) (g : GossipManager) (now : ℕ) (k : Text) (nd : Node)
    → IsLasting now P
    → P (member_at k (sweep g now nd.membership))
    → P (member_at k (check_failures g now nd).membership)
unfolding check_failures member_at
check_failures-kept P g now k nd lasting v = rw told-members (
    raise_suspicions-kept P g.enable_suspicion (suspect_updates g now nd.membership) now k
      (record nd { membership = sweep g now nd.membership }) lasting v)

pub check_failures-local :
    (g : GossipManager) (now : ℕ) (nd : Node)
    → (check_failures g now nd).membership.local_node ≡ nd.membership.local_node
unfolding check_failures sweep
check_failures-local g now nd =
    told-local (map (removal_update now) (removal_candidates g now nd.membership)) now _
    ∙ raise_suspicions-local g.enable_suspicion (suspect_updates g now nd.membership) now
        (record nd { membership = sweep g now nd.membership })
