-- ===== src/Gossip/Detection/Silence.antt =====
-- detectors/gossip.go: a member that falls silent.
use distributed_group_member.Common.{
  ◌≡◌, refl, ap, ◌∙◌, ◌≢◌, ℕ, ◌+◌, ◌<◌, ◌≤◌, ◌^◌, pos, true, Option, none, some, arith,
}
use distributed_group_member.Types.{Text, to_string, Member, alive, suspected}
use distributed_group_member.Membership.{member_at, local_key}
use distributed_group_member.Node.{Node}
use distributed_group_member.Suspicion.{suspect_member}
use distributed_group_member.Suspicion.Entries.{Inv}
use distributed_group_member.Gossip.{GossipManager}
use distributed_group_member.Gossip.Rounds.{
  suspect_threshold, confirm_threshold, newly_suspected, verdict, check_failures, suspects, removes,
}
use distributed_group_member.Gossip.Sweep.{member_at-sweep, verdict_by_lem, verdict_by}
use distributed_group_member.Gossip.Periodic.{check_failures-Inv}
use distributed_group_member.Gossip.Detection.{IsLasting, check_failures-kept, check_failures-local}

-- The member is suspected, since the given time.
abbrev pub SuspectedSince : ℕ → Option Member → Type 0
SuspectedSince t o = (m : Member) × (o ≡ some m) × (m.status ≡ suspected) × (m.suspicion_start ≡ t)

pub SuspectedSince-IsLasting : (now : ℕ) → IsLasting now (SuspectedSince now)
unfolding IsLasting
SuspectedSince-IsLasting now none (m, e, s, t) = absurd (ground arith)
SuspectedSince-IsLasting now (some x) (m, e, s, t) = (suspect_member now x, refl, refl, refl)

none-IsLasting : (now : ℕ) → IsLasting now (λ o. o ≡ none)
unfolding IsLasting
none-IsLasting now none e = refl
none-IsLasting now (some x) e = absurd (ground arith)

-- The thresholds of the detector, in nanoseconds: silence, suspicion and cleanup.
pub record Thresholds (g : GossipManager) (s c d : ℕ) : Type 0 where
  pub suspecting : suspect_threshold g ≡ pos s
  pub confirming : confirm_threshold g ≡ pos c
  pub cleaning : g.timeouts.cleanup_timeout ≡ pos d
  pub suspects_later : 0 < s
  pub suspect_fits : s < 2 ^ 63
  pub confirm_fits : c < 2 ^ 63
  pub cleanup_fits : d < 2 ^ 63

silent_verdict :
    (g : GossipManager) (now s c d : ℕ) (m : Member)
    → g.enable_suspicion ≡ true
    → m.status ≡ alive
    → m.last_heartbeat + s ≤ now
    → verdict_by g.enable_suspicion now s c d m ≡ suspects
unfolding verdict_by
silent_verdict g now s c d m enabled is_up silent = ground arith

late_verdict :
    (g : GossipManager) (now s c d : ℕ) (m : Member)
    → m.status ≡ suspected
    → m.suspicion_start + c ≤ now
    → verdict_by g.enable_suspicion now s c d m ≡ removes
unfolding verdict_by
late_verdict g now s c d m is_suspect late = ground arith

module _ (g : GossipManager) (s c d : ℕ) (th : Thresholds g s c d) where
  suspected_at :
      (now : ℕ) (k : Text) (nd : Node) (m : Member)
      → g.enable_suspicion ≡ true
      → Inv nd
      → k ≢ local_key nd.membership
      → member_at k nd.membership ≡ some m
      → m.status ≡ alive
      → m.last_heartbeat + s ≤ now
      → SuspectedSince now (member_at k (check_failures g now nd).membership)
  suspected_at now k nd m enabled v foreign found is_up silent =
      let judged =
        verdict_by_lem g now s c d k (local_key nd.membership) m foreign th.suspecting th.confirming
          th.cleaning th.suspects_later th.suspect_fits th.confirm_fits th.cleanup_fits in
      let verdict_is : verdict g now (local_key nd.membership) k m ≡ suspects =
        judged ∙ silent_verdict g now s c d m enabled is_up silent in
      check_failures-kept (SuspectedSince now) g now k nd (SuspectedSince-IsLasting now) (
        rw (member_at-sweep g now nd.membership k v.formed, found, verdict_is)
          (newly_suspected now m, refl, refl, refl))

  removed_at :
      (t now : ℕ) (k : Text) (nd : Node)
      → Inv nd
      → k ≢ local_key nd.membership
      → SuspectedSince t (member_at k nd.membership)
      → t + c ≤ now
      → member_at k (check_failures g now nd).membership ≡ none
  removed_at t now k nd v foreign (m, found, is_suspect, since) late =
      let judged =
        verdict_by_lem g now s c d k (local_key nd.membership) m foreign th.suspecting th.confirming
          th.cleaning th.suspects_later th.suspect_fits th.confirm_fits th.cleanup_fits in
      let verdict_is : verdict g now (local_key nd.membership) k m ≡ removes =
        judged ∙ late_verdict g now s c d m is_suspect (rw since late) in
      check_failures-kept (λ o. o ≡ none) g now k nd (none-IsLasting now)
        (rw (member_at-sweep g now nd.membership k v.formed, found, verdict_is) refl)

  -- Under a gossip detector with suspicion on and thresholds that fit an int64, on a node that keeps the
  -- invariant: a member other than the local node that is Alive and from which nothing was heard for the
  -- suspect threshold is Suspected after a check of failures, since the time of the check; and after a
  -- check that comes the confirm threshold later or still later, with nothing in between, it is gone.
  pub silent_member_removed :
      (now later : ℕ) (k : Text) (nd : Node) (m : Member)
      → g.enable_suspicion ≡ true
      → 0 < now
      → Inv nd
      → k ≢ local_key nd.membership
      → member_at k nd.membership ≡ some m
      → m.status ≡ alive
      → m.last_heartbeat + s ≤ now
      → now + c ≤ later
      → SuspectedSince now (member_at k (check_failures g now nd).membership)
        × (member_at k (check_failures g later (check_failures g now nd)).membership ≡ none)
  silent_member_removed now later k nd m enabled t v foreign found is_up silent late =
      let suspect = suspected_at now k nd m enabled v foreign found is_up silent in
      let still_foreign : k ≢ local_key (check_failures g now nd).membership =
        λ e. foreign (e ∙ ap to_string (check_failures-local g now nd)) in
      (
        suspect,
        removed_at now later k (check_failures g now nd) (check_failures-Inv g now nd t v)
            still_foreign suspect late,
      )
