-- ===== src/PingAck/Detection.antt =====
-- detectors/pingack.go: a target that answers no probe, from the end of the period to its removal.
use distributed_group_member.Common.{
  ◌≡◌, refl, ap, ◌∙◌, ◌≢◌, ℕ, ◌+◌, ◌-◌, ◌<◌, ◌^◌, pos, Bool, true, none, some, arith, ℕ_discrete,
  if◌then◌else◌,
}
use distributed_group_member.Common.Dict.{lookup, delete_all, lookup-delete, lookup-insert_self}
use distributed_group_member.Common.Dict.Loops.{lookup-delete_all, is_in-select}
use distributed_group_member.Types.{
  Text, NodeId, Text-discrete, to_string, Member, alive, suspected, sub_time,
}
use distributed_group_member.Types.Keys.{text_eqb_iff}
use distributed_group_member.Membership.{member_at, local_key, store, add_recent_update}
use distributed_group_member.Membership.Invariant.{IsWellFormed}
use distributed_group_member.Node.{Node}
use distributed_group_member.Suspicion.{with_members, process_suspicion}
use distributed_group_member.Suspicion.Entries.{Inv}
use distributed_group_member.Gossip.Effects.{told-members}
use distributed_group_member.Gossip.Sweep.{keys-values}
use distributed_group_member.Gossip.Detection.{process_suspicion-Marks, Marks-kept}
use distributed_group_member.Gossip.Detection.Silence.{SuspectedSince, SuspectedSince-IsLasting}
use distributed_group_member.PingAck.{PingAckManager}
use distributed_group_member.PingAck.Updates.{
  declare_suspicion, is_expired, to_remove, check_failures,
}
use distributed_group_member.PingAck.Probes.{Period, end_silent, forget}
use distributed_group_member.PingAck.Invariant.{declare_suspicion-Inv}

-- What a check of failures leaves: all but the members that have been suspected for too long.
pub member_at-check_failures :
    (p : PingAckManager) (now : ℕ) (nd : Node) (k : Text) (m : Member)
    → IsWellFormed nd.membership
    → member_at k nd.membership ≡ some m
    → member_at k (check_failures p now nd).membership
      ≡ (if is_expired p now (local_key nd.membership) (k, m) then none else some m)
unfolding check_failures to_remove member_at
member_at-check_failures p now nd k m w found =
    let ml = nd.membership in
    let expired = is_expired p now (local_key ml) in
    rw told-members (
      ap (λ ks. lookup Text-discrete k (delete_all Text-discrete ks ml.members))
        (keys-values expired ml.members w.keyed)
      ∙ lookup-delete_all Text-discrete k _ ml.members
      ∙ ground (arith, is_in-select Text-discrete expired k ml.members w.unique))

expired_lem :
    (p : PingAckManager) (now c : ℕ) (self k : Text) (m : Member)
    → p.timeouts.suspicion_timeout ≡ pos c
    → c < 2 ^ 63 - 1
    → k ≢ self
    → m.status ≡ suspected
    → m.suspicion_start + c < now
    → is_expired p now self (k, m) ≡ true
unfolding is_expired sub_time
expired_lem p now c self k m e h foreign is_suspect late = ground (arith, (text_eqb_iff k self).0)

removed_late :
    (p : PingAckManager) (now c : ℕ) (nd : Node) (k : Text) (m : Member)
    → IsWellFormed nd.membership
    → p.timeouts.suspicion_timeout ≡ pos c
    → c < 2 ^ 63 - 1
    → k ≢ local_key nd.membership
    → member_at k nd.membership ≡ some m
    → m.status ≡ suspected
    → m.suspicion_start + c < now
    → member_at k (check_failures p now nd).membership ≡ none
removed_late p now c nd k m w timeout fits foreign found is_suspect late =
    member_at-check_failures p now nd k m w found
    ∙ ap (λ (b : Bool). if b then none else some m)
        (expired_lem p now c (local_key nd.membership) k m timeout fits foreign is_suspect late)

-- The members after a suspicion is declared, before it is reported.
abbrev doubted : Text → Member → ℕ → Node → Node
doubted key m now nd =
    let m' = record m { status = suspected; suspicion_start = now } in
    with_members (λ ml. add_recent_update m' now (store key m' ml)) nd

declare_suspicion_lem :
    (id : NodeId) (now : ℕ) (nd : Node) (m : Member)
    → member_at (to_string id) nd.membership ≡ some m
    → m.status ≡ alive
    → declare_suspicion true id now nd
      ≡ process_suspicion nd.membership.local_node id m.incarnation now
          (doubted (to_string id) m now nd)
unfolding declare_suspicion
declare_suspicion_lem id now nd m found is_up = rw (declare_suspicion, found, is_up) refl

declared_at :
    (id : NodeId) (now : ℕ) (nd : Node) (m : Member)
    → member_at (to_string id) nd.membership ≡ some m
    → m.status ≡ alive
    → SuspectedSince now (member_at (to_string id) (declare_suspicion true id now nd).membership)
      × ((declare_suspicion true id now nd).membership.local_node ≡ nd.membership.local_node)
unfolding store
declared_at id now nd m found is_up =
    let put = doubted (to_string id) m now nd in
    let m' = record m { status = suspected; suspicion_start = now } in
    let marks =
      process_suspicion-Marks nd.membership.local_node id m.incarnation now put (to_string id) in
    rw (declare_suspicion_lem id now nd m found is_up) (
      Marks-kept (SuspectedSince now) now (to_string id) put _ (SuspectedSince-IsLasting now) marks
          (
            m',
            lookup-insert_self Text-discrete (to_string id) m' nd.membership.members,
            refl,
            refl,
          ),
      marks.local_same,
    )

-- The SWIM detector with suspicion on and a suspicion timeout that fits an int64, on a node that keeps the
-- invariant: when no Ack has come for a probe of an Alive member other than the local node, the pending
-- probe is dropped and the member is Suspected, since that time; and a check of failures at which the
-- timeout is over, with nothing in between, removes it.
pub silent_target_removed :
    (now later c : ℕ) (period : Period) (p : PingAckManager) (nd : Node) (m : Member)
    → p.enable_suspicion ≡ true
    → p.timeouts.suspicion_timeout ≡ pos c
    → c < 2 ^ 63 - 1
    → 0 < now
    → Inv nd
    → to_string period.target ≢ local_key nd.membership
    → member_at (to_string period.target) nd.membership ≡ some m
    → m.status ≡ alive
    → now + c < later
    → let (p', nd') = end_silent now period p nd in
      (lookup ℕ_discrete period.seq_num p'.pending_acks ≡ none)
      × SuspectedSince now (member_at (to_string period.target) nd'.membership)
      × (member_at (to_string period.target) (check_failures p' later nd').membership ≡ none)
unfolding end_silent
silent_target_removed now later c period p nd m enabled timeout fits t v foreign found is_up late =
    let id = period.target in
    let nd' = declare_suspicion true id now nd in
    let p' = record (forget period.seq_num p) { enable_suspicion = true } in
    let ((m', there, is_suspect, since), same) = declared_at id now nd m found is_up in
    let kept = declare_suspicion-Inv true id now nd t v in
    rw enabled (
      ground (arith, lookup-delete ℕ_discrete period.seq_num period.seq_num p.pending_acks),
      (m', there, is_suspect, since),
      removed_late p' later c nd' (to_string id) m' kept.formed timeout fits
          (λ e. foreign (e ∙ ap to_string same)) there is_suspect (rw since late),
    )
