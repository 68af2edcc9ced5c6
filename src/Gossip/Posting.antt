-- ===== src/Gossip/Posting.antt =====
-- What the handling of updates sends is added to what was sent before.
use mathlib.Core.List.{Memᴰ}
use mathlib.Core.List.Memᴰ
use distributed_group_member.Common.{
  ℕ, ℤ, Bool, true, false, ◌&&◌, List, [], ◌∷◌, Option-cases, inl, inr, if_cases, ltb_ℤ,
}
use distributed_group_member.Types.{
  Text, NodeId, to_string, MemberUpdate, Message, is_suspected, is_alive, text_eqb, alive_msg,
  plain, zero_id,
}
use distributed_group_member.Membership.{member_at, local_key}
use distributed_group_member.Node.{Node, SuspectEntry, Callback}
use distributed_group_member.Node.Sending.{send_all_lem}
use distributed_group_member.Suspicion.{
  entry_at, notify, clear_suspect, refuting, handle_self_refutation, process_suspicion, report,
  known_incarnation, new_entry, reaches_quorum, add_reporter,
}
use distributed_group_member.Gossip.{update_self, follow_up, process_update, process_updates}

-- Nothing that was sent is taken back.
abbrev pub Posts : Node → Node → Type 0
Posts nd nd' = (x : Text × Message) → Memᴰ x nd.sent → Memᴰ x nd'.sent

notify-Posts : (b : Bool) (c : Callback) (nd : Node) → Posts nd (notify b c nd)
unfolding notify
notify-Posts true c nd x m = m
notify-Posts false c nd x m = m

clear_suspect-Posts :
    (target : NodeId) (inc : ℤ) (nd : Node) → Posts nd (clear_suspect target inc nd)
unfolding clear_suspect
clear_suspect-Posts target inc nd = elim (Option-cases (entry_at (to_string target) nd)) [
  | inl e ↦ rw (e, clear_suspect) (λ x m. m)
  | inr (y, e) ↦
      rw (e, clear_suspect)
        (if_cases (Posts nd) (ltb_ℤ inc y.incarnation) (λ _ x m. m)
          (λ _. notify-Posts nd.options.on_clear _ _))
]

report-Posts :
    (reporter target : NodeId) (inc : ℤ) (now : ℕ) (e : SuspectEntry) (nd : Node)
    → Posts nd (report reporter target inc now e nd)
unfolding report
report-Posts reporter target inc now e nd =
    if_cases (Posts nd) (reaches_quorum nd.options (add_reporter reporter now e))
      (λ _. notify-Posts nd.options.on_suspect _ _) (λ _ x m. m)

refutation-Posts : (inc : ℤ) (now : ℕ) (nd : Node) → Posts nd (handle_self_refutation inc now nd)
unfolding handle_self_refutation
refutation-Posts inc now nd x m =
    rw
      (send_all_lem now
        (plain alive_msg nd.membership.local_node zero_id (refuting nd.membership.incarnation inc)))
      (Memᴰ.append_left _ m)

process_suspicion-Posts :
    (reporter target : NodeId) (inc : ℤ) (now : ℕ) (nd : Node)
    → Posts nd (process_suspicion reporter target inc now nd)
unfolding process_suspicion
process_suspicion-Posts reporter target inc now nd =
    if_cases (Posts nd) (text_eqb (to_string target) (local_key nd.membership))
      (λ _. refutation-Posts inc now nd)
      (λ _. elim (Option-cases (entry_at (to_string target) nd)) [
        | inl e ↦ rw e (
            if_cases (Posts nd)
              (ltb_ℤ inc (known_incarnation (member_at (to_string target) nd.membership)))
              (λ _ x m. m) (λ _. report-Posts reporter target inc now (new_entry target inc) nd))
        | inr (y, e) ↦ rw e (
            if_cases (Posts nd) (ltb_ℤ inc y.incarnation) (λ _ x m. m)
              (λ _.
                if_cases (Posts nd) (ltb_ℤ y.incarnation inc)
                  (λ _. report-Posts reporter target inc now (new_entry target inc) nd)
                  (λ _. report-Posts reporter target inc now y nd)))
      ])

update_self-Posts :
    (enable : Bool) (u : MemberUpdate) (reporter : NodeId) (now : ℕ) (nd : Node)
    → Posts nd (update_self enable u reporter now nd)
unfolding update_self
update_self-Posts enable u reporter now nd =
    if_cases (Posts nd) (is_suspected u.status && enable)
      (λ _. process_suspicion-Posts reporter u.node_id u.incarnation now nd)
      (λ _.
        if_cases (Posts nd) (is_alive u.status)
          (λ _. clear_suspect-Posts u.node_id u.incarnation nd) (λ _ x m. m))

follow_up-Posts :
    (enable : Bool) (u : MemberUpdate) (reporter : NodeId) (now : ℕ) (nd : Node)
    → Posts nd (follow_up enable u reporter now nd)
unfolding follow_up
follow_up-Posts enable u reporter now nd x m =
    let suspected =
      if_cases (Posts nd) (is_suspected u.status && enable)
        (λ _. process_suspicion-Posts reporter u.node_id u.incarnation now nd) (λ _ y n. n) in
    if_cases (λ (nd' : Node). Memᴰ x nd'.sent) (is_alive u.status)
      (λ _. clear_suspect-Posts u.node_id u.incarnation _ x (suspected x m)) (λ _. suspected x m)

process_update-Posts :
    (enable : Bool) (u : MemberUpdate) (reporter : NodeId) (now : ℕ) (nd : Node)
    → Posts nd (process_update enable u reporter now nd)
unfolding process_update
process_update-Posts enable u reporter now nd =
    if_cases (Posts nd) (text_eqb (to_string u.node_id) (local_key nd.membership))
      (λ _. update_self-Posts enable u reporter now nd)
      (λ _. elim (Option-cases (member_at (to_string u.node_id) nd.membership)) [
        | inl e ↦ rw e (λ x m. m)
        | inr (y, e) ↦ rw e (λ x m. follow_up-Posts enable u reporter now _ x m)
      ])

pub process_updates-Posts :
    (enable : Bool) (us : List MemberUpdate) (reporter : NodeId) (now : ℕ) (nd : Node)
    → Posts nd (process_updates enable us reporter now nd)
unfolding process_updates
process_updates-Posts enable [] reporter now nd x m = m
process_updates-Posts enable (u ∷ us) reporter now nd x m =
    process_updates-Posts enable us reporter now (process_update enable u reporter now nd) x
      (process_update-Posts enable u reporter now nd x m)
