-- ===== src/Gossip/Flaws.antt =====
-- Histories in which the detector loses what a member has said of itself.
use distributed_group_member.Common.{
  ◌≡◌, sym, ap, ◌∙◌, subst, ◌≢◌, ℕ, ◌+◌, ◌≤◌, ◌<◌, ◌^◌, ℤ, pos, Bool, true, false, none, some,
  arith, ◌≤ℤ◌, ◌<ℤ◌, All,
}
use distributed_group_member.Common.Dict.{insert, lookup-insert_self}
use distributed_group_member.Types.{
  Text-discrete, NodeId, to_string, Member, MemberUpdate, Message, alive, failed,
}
use distributed_group_member.Types.Keys.{text_eqb_iff}
use distributed_group_member.Membership.{member_at, local_key}
use distributed_group_member.Node.{Node, SuspectEntry}
use distributed_group_member.Suspicion.{
  entry_at, with_members, suspect_member, clear_member, notify, report, reaches_quorum,
  process_suspicion, clear_suspect, check,
}
use distributed_group_member.Suspicion.Members.{member_at-modify_member}
use distributed_group_member.Suspicion.Entries.{Inv}
use distributed_group_member.Suspicion.Expiry.{check_confirms}
use distributed_group_member.Gossip.{
  GossipManager, renewed, heartbeat_sender, update_known, follow_up, process_update,
  handle_heartbeat, confirm_target, handle_confirm_message,
}
use distributed_group_member.Gossip.Others.{process_updates-Leaves}
use distributed_group_member.Gossip.Handlers.{handle_heartbeat-Keeps}

-- A heartbeat from a known member at a higher incarnation, with updates about others, makes the member
-- Alive, and leaves the entry of its suspicion in place.
heartbeat_renews :
    (g : GossipManager) (msg : Message) (now : ℕ) (nd : Node) (m : Member)
    → g.active ≡ true
    → All (λ (u : MemberUpdate). to_string u.node_id ≢ to_string msg.sender) msg.members
    → member_at (to_string msg.sender) nd.membership ≡ some m
    → m.incarnation <ℤ msg.incarnation
    → (member_at (to_string msg.sender) (handle_heartbeat g msg now nd).membership
        ≡ some (renewed msg.incarnation now m))
      × (entry_at (to_string msg.sender) (handle_heartbeat g msg now nd)
          ≡ entry_at (to_string msg.sender) nd)
      × ((handle_heartbeat g msg now nd).options ≡ nd.options)
unfolding handle_heartbeat heartbeat_sender
heartbeat_renews g msg now nd m on others at newer =
    let key = to_string msg.sender in
    let heard = with_members (heartbeat_sender msg.sender msg.incarnation now) nd in
    let (members, entries, options) =
      process_updates-Leaves g.enable_suspicion msg.members msg.sender now heard key others in
    let renews : member_at key heard.membership ≡ some (renewed msg.incarnation now m) = ground (
      arith,
      at,
      newer,
      lookup-insert_self Text-discrete key (renewed msg.incarnation now m) nd.membership.members,
    ) in
    rw on (members ∙ renews, entries, options)

-- In a node with the invariant and an entry that was acted on, a heartbeat of the suspected member
-- with a higher incarnation and with updates about others makes it Alive, and the check after the timeout, which
-- is below 2 ^ 63 ns, with the callback set, turns it Failed all the same, at its new incarnation.
pub refuted_member_fails :
    (g : GossipManager) (msg : Message) (now later d : ℕ) (nd : Node) (m : Member)
    (e : SuspectEntry)
    → Inv nd
    → 0 < now
    → g.active ≡ true
    → All (λ (u : MemberUpdate). to_string u.node_id ≢ to_string msg.sender) msg.members
    → member_at (to_string msg.sender) nd.membership ≡ some m
    → m.incarnation <ℤ msg.incarnation
    → entry_at (to_string msg.sender) nd ≡ some e
    → e.first_report ≢ 0
    → e.confirmed ≡ false
    → nd.options.suspicion_timeout ≡ pos d
    → d < 2 ^ 63
    → nd.options.on_confirm ≡ true
    → e.first_report + d ≤ later
    → let nd' = handle_heartbeat g msg now nd in
      (member_at (to_string msg.sender) nd'.membership ≡ some (renewed msg.incarnation now m))
      × (member_at (to_string msg.sender) (check later nd').membership
          ≡ some (record (renewed msg.incarnation now m) { status = failed }))
refuted_member_fails g msg now later d nd m e v t on empty at newer at_e acted open_e timeout small
      confirms over =
    let (renews, entries, options) = heartbeat_renews g msg now nd m on empty at newer in
    let nd' = handle_heartbeat g msg now nd in
    let v' = (handle_heartbeat-Keeps g msg now nd t v).inv in
    (
      renews,
      (check_confirms later d nd' (to_string msg.sender) e (renewed msg.incarnation now m) v'
          (ap (λ o. o.suspicion_timeout) options ∙ timeout) small
          (ap (λ o. o.on_confirm) options ∙ confirms) (entries ∙ at_e) acted open_e over renews).0,
    )

confirm_fails :
    (g : GossipManager) (msg : Message) (now : ℕ) (nd : Node) (m : Member)
    → g.active ≡ true
    → member_at (to_string msg.target) nd.membership ≡ some m
    → m.incarnation ≤ℤ msg.incarnation
    → member_at (to_string msg.target) (handle_confirm_message g msg now nd).membership
      ≡ some (record m { status = failed; incarnation = msg.incarnation })
unfolding handle_confirm_message confirm_target
confirm_fails g msg now nd m on at h = ground (
  arith,
  lookup-insert_self Text-discrete (to_string msg.target)
      (record m { status = failed; incarnation = msg.incarnation }) nd.membership.members,
)

-- A Confirm about the local node itself, at its incarnation or above, makes an active node record
-- itself as Failed.
pub confirm_fails_self :
    (g : GossipManager) (msg : Message) (now : ℕ) (nd : Node) (m : Member)
    → g.active ≡ true
    → to_string msg.target ≡ local_key nd.membership
    → member_at (local_key nd.membership) nd.membership ≡ some m
    → m.incarnation ≤ℤ msg.incarnation
    → member_at (local_key nd.membership) (handle_confirm_message g msg now nd).membership
      ≡ some (record m { status = failed; incarnation = msg.incarnation })
confirm_fails_self g msg now nd m on self at h =
    subst
      (λ k.
        member_at k (handle_confirm_message g msg now nd).membership
        ≡ some (record m { status = failed; incarnation = msg.incarnation }))
      self
      (confirm_fails g msg now nd m on
        (subst (λ k. member_at k nd.membership ≡ some m) (sym self) at) h)

-- Where one report is required and the entry of a member, not the local node, is of an older
-- incarnation than a suspicion, the suspicion turns the member Suspected though its incarnation is
-- higher than the suspected.
pub stale_suspicion_suspects :
    (reporter target : NodeId) (inc : ℤ) (now : ℕ) (nd : Node) (m : Member) (e : SuspectEntry)
    → to_string target ≢ local_key nd.membership
    → nd.options.require_reports ≡ pos 1
    → member_at (to_string target) nd.membership ≡ some m
    → inc <ℤ m.incarnation
    → entry_at (to_string target) nd ≡ some e
    → e.incarnation <ℤ inc
    → member_at (to_string target) (process_suspicion reporter target inc now nd).membership
      ≡ some (suspect_member now m)
unfolding process_suspicion report reaches_quorum notify insert
stale_suspicion_suspects reporter target inc now nd m e foreign one at stale at_e older = ground (
  arith,
  (text_eqb_iff (to_string target) (local_key nd.membership)).0,
  member_at-modify_member (to_string target) (suspect_member now) nd.membership (to_string target),
)

-- A Failed member without a suspicion entry, not the local node, is Alive again after an Alive
-- update of the very incarnation at which it failed.
pub failed_member_revives :
    (enable : Bool) (u : MemberUpdate) (reporter : NodeId) (now : ℕ) (nd : Node) (m : Member)
    → to_string u.node_id ≢ local_key nd.membership
    → member_at (to_string u.node_id) nd.membership ≡ some m
    → m.status ≡ failed
    → u.status ≡ alive
    → u.incarnation ≡ m.incarnation
    → entry_at (to_string u.node_id) nd ≡ none
    → member_at (to_string u.node_id) (process_update enable u reporter now nd).membership
      ≡ some (record m { status = alive })
unfolding process_update follow_up update_known clear_suspect
failed_member_revives enable u reporter now nd m foreign at f a same none_e = ground (
  arith,
  (text_eqb_iff (to_string u.node_id) (local_key nd.membership)).0,
  member_at-modify_member (to_string u.node_id) (clear_member u.incarnation) nd.membership
      (to_string u.node_id),
)
