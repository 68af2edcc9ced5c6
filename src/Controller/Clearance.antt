-- ===== src/Controller/Clearance.antt =====
-- The message of `OnClear` of main.go at a node that receives it: the node that sends it is taken for the
-- one that was cleared.
use distributed_group_member.Common.{
  ◌≡◌, refl, ap, ◌∙◌, ◌≢◌, ℕ, ◌+◌, ◌<◌, ◌≤◌, ℤ, ◌<ℤ◌, true, false, not, List, [], ◌∷◌, ◌++◌, none,
  some, All, arith, ltb_ℤ, eqb_ℤ, if_cases,
}
use distributed_group_member.Types.{
  Text, NodeId, to_string, Member, MemberUpdate, Message, alive_msg, plain, zero_id,
}
use distributed_group_member.Membership.{MembershipList, member_at, local_key, unix}
use distributed_group_member.Node.{Node, on_clear}
use distributed_group_member.Node.Sending.{mail}
use distributed_group_member.Suspicion.{entry_at, with_members}
use distributed_group_member.Suspicion.Cleared.{BoundedBy}
use distributed_group_member.Suspicion.Entries.{Inv, Keeps, Keeps-refl, Keeps-trans}
use distributed_group_member.Gossip.{
  GossipManager, renewed, heartbeat_sender, handle_heartbeat, handle_alive_message,
}
use distributed_group_member.Gossip.Handlers.{handle_heartbeat-Keeps, handle_alive_message-Keeps}
use distributed_group_member.Gossip.Others.{process_updates-Leaves}
use distributed_group_member.Gossip.Refuting.{alive_message_clears}
use distributed_group_member.Gossip.Rounds.{check_failures}
use distributed_group_member.Gossip.Detection.Silence.{
  Thresholds, SuspectedSince, silent_member_removed,
}
use distributed_group_member.Controller.{recipients, run_callback}
use distributed_group_member.Controller.Callbacks.{callback_lem, target_of, message_of}

-- A heartbeat at its time: from the member of the key, below the incarnation, and not with updates
-- about that member.
pub record IsStale (key : Text) (inc : ℤ) (b : Message × ℕ) : Type 0 where
  pub spoken : to_string b.0.sender ≡ key
  pub lower : b.0.incarnation <ℤ inc
  pub others : All (λ (u : MemberUpdate). to_string u.node_id ≢ key) b.0.members
  pub positive : 0 < b.1

unfoldable pub hear_all : GossipManager → List (Message × ℕ) → Node → Node
hear_all g [] nd = nd
hear_all g ((msg, now) ∷ beats) nd = hear_all g beats (handle_heartbeat g msg now nd)

heartbeat_sender_stale :
    (id : NodeId) (inc : ℤ) (now : ℕ) (ml : MembershipList) (m : Member)
    → member_at (to_string id) ml ≡ some m
    → inc <ℤ m.incarnation
    → heartbeat_sender id inc now ml ≡ ml
unfolding heartbeat_sender
heartbeat_sender_stale id inc now ml m found lower =
    let older : ltb_ℤ m.incarnation inc ≡ false = ground arith in
    let apart : eqb_ℤ inc m.incarnation ≡ false = ground arith in
    rw (found, heartbeat_sender, older, apart) refl

stale_ignored :
    (g : GossipManager) (b : Message × ℕ) (key : Text) (nd : Node) (m : Member)
    → member_at key nd.membership ≡ some m
    → IsStale key m.incarnation b
    → member_at key (handle_heartbeat g b.0 b.1 nd).membership ≡ some m
unfolding handle_heartbeat
stale_ignored g (msg, now) key nd m found stale =
    let same =
      heartbeat_sender_stale msg.sender msg.incarnation now nd.membership m
        (ap (λ k. member_at k nd.membership) stale.spoken ∙ found) stale.lower in
    if_cases (λ (nd' : Node). member_at key nd'.membership ≡ some m) (not g.active) (λ _. found)
      (λ _.
        (process_updates-Leaves g.enable_suspicion msg.members msg.sender now
          (with_members (heartbeat_sender msg.sender msg.incarnation now) nd) key stale.others).0
        ∙ ap (member_at key) same
        ∙ found)

-- Stale heartbeats change nothing of the member.
hear_all_stale :
    (g : GossipManager) (beats : List (Message × ℕ)) (key : Text) (nd : Node) (m : Member)
    → Inv nd
    → member_at key nd.membership ≡ some m
    → All (IsStale key m.incarnation) beats
    → Keeps nd (hear_all g beats nd) × (member_at key (hear_all g beats nd).membership ≡ some m)
unfolding hear_all
hear_all_stale g [] key nd m v found stale = (Keeps-refl nd v, found)
hear_all_stale g ((msg, now) ∷ beats) key nd m v found (stale, rest) =
    let k = handle_heartbeat-Keeps g msg now nd stale.positive v in
    let (kept, at) =
      hear_all_stale g beats key (handle_heartbeat g msg now nd) m k.inv
        (stale_ignored g (msg, now) key nd m found stale) rest in
    (Keeps-trans nd _ _ k kept, at)

-- The callback of a cleared suspicion tells the other members in its message an incarnation that is the
-- cleared member's. Let another node have an active gossip detector with suspicion on and thresholds that fit
-- an int64, keep the invariant, and have the teller below that incarnation, with no entry above it. At a
-- positive time the message makes that the teller's incarnation there. Whatever heartbeats of the teller
-- below it then come at positive times, with updates about others, the teller stays as the message left
-- it; a check of failures that comes the suspect threshold after the message, or later, suspects it, and
-- one that comes the confirm threshold after that, or later, with nothing in between, removes it.
pub cleared_teller_removed :
    (target : NodeId) (inc : ℤ) (now later t t' : ℕ) (g : GossipManager) (s c d : ℕ)
    (teller nd : Node) (m : Member) (beats : List (Message × ℕ))
    → Thresholds g s c d
    → g.active ≡ true
    → g.enable_suspicion ≡ true
    → Inv nd
    → 0 < later
    → local_key teller.membership ≢ local_key nd.membership
    → member_at (local_key teller.membership) nd.membership ≡ some m
    → m.incarnation <ℤ inc
    → BoundedBy inc (entry_at (local_key teller.membership) nd)
    → All (IsStale (local_key teller.membership) inc) beats
    → 0 < t
    → later + s ≤ t
    → t + c ≤ t'
    → let key = local_key teller.membership in
      let teller' = run_callback (on_clear target inc) now teller in
      let told = plain alive_msg teller.membership.local_node zero_id inc in
      let nd' = handle_alive_message g (record told { timestamp = unix now }) later nd in
      let heard = hear_all g beats nd' in
      (teller'.sent ≡ teller.sent ++ mail now told (recipients target teller'.membership))
      × (member_at key nd'.membership ≡ some (renewed inc later m))
      × (member_at key heard.membership ≡ some (renewed inc later m))
      × SuspectedSince t (member_at key (check_failures g t heard).membership)
      × (member_at key (check_failures g t' (check_failures g t heard)).membership ≡ none)
unfolding target_of message_of
cleared_teller_removed target inc now later t t' g s c d teller nd m beats th on enabled v arrives
      foreign found lower bounded stale positive silent late =
    let key = local_key teller.membership in
    let told = record (plain alive_msg teller.membership.local_node zero_id inc) {
      timestamp = unix now;
    } in
    let (renews, gone) = alive_message_clears g told later nd m on found lower bounded in
    let nd' = handle_alive_message g told later nd in
    let k = handle_alive_message-Keeps g told later nd arrives v in
    let (kept, stays) = hear_all_stale g beats key nd' (renewed inc later m) k.inv renews stale in
    let own = (Keeps-trans nd nd' (hear_all g beats nd') k kept).advances.local_kept in
    let (suspect, removed) =
      silent_member_removed g s c d th t t' key (hear_all g beats nd') (renewed inc later m) enabled
        positive kept.inv (λ e. foreign (e ∙ ap to_string own)) stays refl silent late in
    ((callback_lem (on_clear target inc) now teller key).1, renews, stays, suspect, removed)
