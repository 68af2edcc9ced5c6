-- ===== src/Gossip/Rounds.antt =====
-- detectors/gossip.go: the periodic rounds, `performGossipRound` and `checkFailures`.
use distributed_group_member.Common.{
  wrap64, ℕ, ◌*◌, Bool, true, false, ◌&&◌, List, [], ◌∷◌, none, some, ℤ, pos, ◌+ℤ◌, ltb_ℤ, leb_ℤ,
  if◌then◌else◌, map, select,
}
use distributed_group_member.Common.Dict.{delete_all, map_values, values}
use distributed_group_member.Types.{
  Text, Text-discrete, to_string, address, text_eqb, Member, alive, suspected, failed, other,
  heartbeat, plain, zero_id, second, sub_time,
}
use distributed_group_member.Membership.{
  MembershipList, member_at, local_key, add_recent_update, get_random_members, get_recent_updates,
}
use distributed_group_member.Node.{Node, send_all}
use distributed_group_member.Suspicion.{with_members, process_suspicion}
use distributed_group_member.Gossip.{GossipManager}
use distributed_group_member.Gossip.Group.{add_recent_updates}

-- The updates that a round records before it speaks: the local member, the targets, two more peers.
unfoldable pub record_round :
    (List Member → List Member) → List Member → ℕ → MembershipList → MembershipList
record_round shuffle targets now ml =
    let me : MembershipList = elim (member_at (local_key ml) ml) [
      | none ↦ ml
      | some m ↦ add_recent_update m now ml
    ] in
    let told = add_recent_updates targets now me in
    add_recent_updates (get_random_members shuffle 2 (local_key ml ∷ []) told) now told

-- `shuffle` and `shuffle'` are what the generator makes of the first and the second sample.
unfoldable pub perform_gossip_round :
    (List Member → List Member) → (List Member → List Member) → GossipManager → ℕ → Node → Node
perform_gossip_round shuffle shuffle' g now nd =
    let ml = nd.membership in
    let targets = get_random_members shuffle g.fanout (local_key ml ∷ []) ml in
    elim targets [
      | [] ↦ nd
      | t ∷ ts ↦
          let (updates, ml') = get_recent_updates 10 now (record_round shuffle' (t ∷ ts) now ml) in
          let msg = record (plain heartbeat ml.local_node zero_id ml.incarnation) {
            members = updates;
          } in
          send_all now msg (map (λ m. address m.id) (t ∷ ts)) (record nd { membership = ml' })
    ]

unfoldable pub suspect_threshold : GossipManager → ℤ
suspect_threshold g =
    if leb_ℤ g.timeouts.failure_timeout (pos 0)
    then pos (3 * second)
    else g.timeouts.failure_timeout

-- A `time.Duration` is an int64.
unfoldable pub confirm_threshold : GossipManager → ℤ
unfolding suspect_threshold
confirm_threshold g =
    let sum = wrap64 (suspect_threshold g +ℤ g.timeouts.cleanup_timeout) in
    if leb_ℤ sum (suspect_threshold g) then wrap64 (suspect_threshold g +ℤ pos second) else sum

pub data Verdict : Type 0 where
  stays suspects removes : Verdict

-- The `switch` on the status of a member.
unfoldable pub judge : GossipManager → ℕ → Member → Verdict
judge g now m = elim m.status [
  | alive ↦
      if ltb_ℤ (pos 0) (suspect_threshold g)
        && leb_ℤ (suspect_threshold g) (sub_time now m.last_heartbeat)
      then (if g.enable_suspicion then suspects else removes)
      else stays
  | suspected ↦
      if leb_ℤ (confirm_threshold g) (sub_time now m.suspicion_start) then removes else stays
  | failed ↦
      if ltb_ℤ (pos 0) g.timeouts.cleanup_timeout
        && leb_ℤ g.timeouts.cleanup_timeout (sub_time now m.last_heartbeat)
      then removes
      else stays
  | other _ ↦ stays
]

-- The verdict in the loop, which passes over the local node.
unfoldable pub verdict : GossipManager → ℕ → Text → Text → Member → Verdict
verdict g now self k m = if text_eqb k self then stays else judge g now m

abbrev pub is_suspects : Verdict → Bool
is_suspects suspects = true
is_suspects _ = false

abbrev pub is_removes : Verdict → Bool
is_removes removes = true
is_removes _ = false

abbrev pub newly_suspected : ℕ → Member → Member
newly_suspected now m = record m { status = suspected; suspicion_start = now }

unfoldable pub mark : GossipManager → ℕ → Text → Text → Member → Member
mark g now self k m = if is_suspects (verdict g now self k m) then newly_suspected now m else m

unfoldable pub suspect_updates : GossipManager → ℕ → MembershipList → List Member
suspect_updates g now ml =
    map (λ e. newly_suspected now e.1)
      (select (λ e. is_suspects (verdict g now (local_key ml) e.0 e.1)) ml.members)

unfoldable pub removal_candidates : GossipManager → ℕ → MembershipList → List Member
removal_candidates g now ml =
    values (select (λ e. is_removes (verdict g now (local_key ml) e.0 e.1)) ml.members)

-- The part of `checkFailures` under the lock.
unfoldable pub sweep : GossipManager → ℕ → MembershipList → MembershipList
sweep g now ml = record ml {
  members =
      delete_all Text-discrete (map (λ m. to_string m.id) (removal_candidates g now ml))
        (map_values (mark g now (local_key ml)) ml.members);
}

unfoldable pub raise_suspicions : Bool → List Member → ℕ → Node → Node
raise_suspicions enable [] now nd = nd
raise_suspicions enable (m ∷ ms) now nd =
    let told = with_members (add_recent_update m now) nd in
    raise_suspicions enable ms now (
      if enable
      then process_suspicion nd.membership.local_node m.id m.incarnation now told
      else told)

abbrev pub removal_update : ℕ → Member → Member
removal_update now m = record m { status = failed; last_heartbeat = now; suspicion_start = 0 }

unfoldable pub check_failures : GossipManager → ℕ → Node → Node
check_failures g now nd =
    let ml = nd.membership in
    let raised =
      raise_suspicions g.enable_suspicion (suspect_updates g now ml) now
        (record nd { membership = sweep g now ml }) in
    with_members (add_recent_updates (map (removal_update now) (removal_candidates g now ml)) now)
      raised
