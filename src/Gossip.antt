-- ===== src/Gossip.antt =====
-- detectors/gossip.go: the gossip detector. A handler runs as one step and reads the clock once; a
-- copy of a member (`cloneGossipMember`) is the member.
pub mod Rounds
pub mod Group
pub mod Updates
pub mod Handlers
pub mod Invariant
pub mod Periodic
pub mod Effects
pub mod Sweep
pub mod Flaws
pub mod Leaving
pub mod Detection
pub mod Joining
pub mod Refuting
pub mod Spreading
pub mod Posting
pub mod Others
pub mod Loops
use distributed_group_member.Common.{
  ℕ, Bool, true, false, ◌&&◌, ◌||◌, not, List, [], ◌∷◌, ◌++◌, Option, none, some, ℤ, pos, ltb_ℤ,
  leb_ℤ, eqb_ℤ, if◌then◌else◌,
}
use distributed_group_member.Types.{
  Text, NodeId, to_string, text_eqb, Member, MemberUpdate, MemberStatus, alive, suspected, failed,
  is_alive, is_suspected, Message, TimeoutConfig, optimal_timeout_config,
}
use distributed_group_member.Membership.{
  MembershipList, member_at, store, local_key, fresh_member, add_recent_update,
}
use distributed_group_member.Node.{Node}
use distributed_group_member.Suspicion.{with_members, process_suspicion, clear_suspect}

pub record GossipManager : Type 0 where
  pub fanout : ℕ
  pub enable_suspicion : Bool
  pub active : Bool
  pub timeouts : TimeoutConfig

unfoldable pub new_gossip_manager_with_timeouts : TimeoutConfig → GossipManager
new_gossip_manager_with_timeouts t = record {
  fanout = 3;
  enable_suspicion = false;
  active = false;
  timeouts = t;
}

unfoldable pub new_gossip_manager : GossipManager
unfolding new_gossip_manager_with_timeouts
new_gossip_manager = new_gossip_manager_with_timeouts optimal_timeout_config

-- A write of a member and a record of the update.
abbrev pub store_updated : Text → Member → ℕ → MembershipList → MembershipList
store_updated k m now ml = add_recent_update m now (store k m ml)

-- What a member becomes that speaks with a higher incarnation, and that refutes a suspicion.
abbrev pub renewed : ℤ → ℕ → Member → Member
renewed inc now m = record m {
  incarnation = inc;
  status = alive;
  last_heartbeat = now;
  suspicion_start = 0;
}

abbrev pub refuted : ℕ → Member → Member
refuted now m = record m { status = alive; last_heartbeat = now; suspicion_start = 0 }

-- The part of `handleHeartbeat` about the sender.
unfoldable pub heartbeat_sender : NodeId → ℤ → ℕ → MembershipList → MembershipList
heartbeat_sender id inc now ml =
    let key = to_string id in
    elim (member_at key ml) [
      | none ↦ store_updated key (fresh_member id inc alive now) now ml
      | some m ↦
          if ltb_ℤ m.incarnation inc
          then store_updated key (renewed inc now m) now ml
          else if eqb_ℤ inc m.incarnation
          then (if is_suspected m.status
              then store_updated key (refuted now m) now ml
              else store key (record m { last_heartbeat = now }) ml)
          else ml
    ]

-- A member that is first heard of in an update.
abbrev pub learned : MemberUpdate → ℕ → Member
learned u now = record {
  id = u.node_id;
  incarnation = u.incarnation;
  status = u.status;
  last_heartbeat = now;
  suspicion_start = if is_suspected u.status then now else 0;
}

-- A member that takes over an update with a higher incarnation.
abbrev pub overtaken : Bool → MemberUpdate → ℕ → Member → Member
overtaken enable u now m =
    let m' = record m { incarnation = u.incarnation; status = u.status } in
    if is_alive u.status
    then record m' { last_heartbeat = now; suspicion_start = 0 }
    else if is_suspected u.status && enable
    then record m' { suspicion_start = now }
    else m'

-- The part of `processUpdate` under the lock, for a member that is known.
unfoldable pub update_known :
    Bool → MemberUpdate → ℕ → Text → Member → MembershipList → MembershipList
update_known enable u now key m ml =
    if ltb_ℤ m.incarnation u.incarnation
    then store_updated key (overtaken enable u now m) now ml
    else if eqb_ℤ u.incarnation m.incarnation
    then (if is_alive u.status && is_suspected m.status
        then store_updated key (refuted now m) now ml
        else if is_suspected u.status && is_alive m.status
        then store_updated key (record m { status = suspected; suspicion_start = now }) now ml
        else ml)
    else ml

-- The part of `processUpdate` after the lock.
unfoldable pub follow_up : Bool → MemberUpdate → NodeId → ℕ → Node → Node
follow_up enable u reporter now nd =
    let nd' =
      if is_suspected u.status && enable
      then process_suspicion reporter u.node_id u.incarnation now nd
      else nd in
    if is_alive u.status then clear_suspect u.node_id u.incarnation nd' else nd'

-- The part of `processUpdate` about the local node.
unfoldable pub update_self : Bool → MemberUpdate → NodeId → ℕ → Node → Node
update_self enable u reporter now nd =
    if is_suspected u.status && enable
    then process_suspicion reporter u.node_id u.incarnation now nd
    else if is_alive u.status
    then clear_suspect u.node_id u.incarnation nd
    else nd

unfoldable pub process_update : Bool → MemberUpdate → NodeId → ℕ → Node → Node
process_update enable u reporter now nd =
    let key = to_string u.node_id in
    if text_eqb key (local_key nd.membership)
    then update_self enable u reporter now nd
    else elim (member_at key nd.membership) [
      | none ↦ with_members (store_updated key (learned u now) now) nd
      | some m ↦ follow_up enable u reporter now (with_members (update_known enable u now key m) nd)
    ]

unfoldable pub process_updates : Bool → List MemberUpdate → NodeId → ℕ → Node → Node
process_updates enable [] reporter now nd = nd
process_updates enable (u ∷ us) reporter now nd =
    process_updates enable us reporter now (process_update enable u reporter now nd)

unfoldable pub handle_heartbeat : GossipManager → Message → ℕ → Node → Node
handle_heartbeat g msg now nd =
    if not g.active
    then nd
    else process_updates g.enable_suspicion msg.members msg.sender now
        (with_members (heartbeat_sender msg.sender msg.incarnation now) nd)

unfoldable pub handle_suspect_message : GossipManager → Message → ℕ → Node → Node
handle_suspect_message g msg now nd =
    if not g.enable_suspicion || not g.active
    then nd
    else process_suspicion msg.sender msg.target msg.incarnation now nd

unfoldable pub alive_sender : NodeId → ℤ → ℕ → MembershipList → MembershipList
alive_sender id inc now ml =
    let key = to_string id in
    elim (member_at key ml) [
      | none ↦ ml
      | some m ↦
          if leb_ℤ m.incarnation inc && (not (is_alive m.status) || ltb_ℤ m.incarnation inc)
          then store_updated key (renewed inc now m) now ml
          else ml
    ]

unfoldable pub handle_alive_message : GossipManager → Message → ℕ → Node → Node
handle_alive_message g msg now nd =
    if not g.active
    then nd
    else clear_suspect msg.sender msg.incarnation
        (with_members (alive_sender msg.sender msg.incarnation now) nd)

unfoldable pub confirm_target : NodeId → ℤ → ℕ → MembershipList → MembershipList
confirm_target id inc now ml =
    let key = to_string id in
    elim (member_at key ml) [
      | none ↦ ml
      | some m ↦
          if leb_ℤ m.incarnation inc
          then store_updated key (record m { status = failed; incarnation = inc }) now ml
          else ml
    ]

unfoldable pub handle_confirm_message : GossipManager → Message → ℕ → Node → Node
handle_confirm_message g msg now nd =
    if not g.active then nd else with_members (confirm_target msg.target msg.incarnation now) nd
