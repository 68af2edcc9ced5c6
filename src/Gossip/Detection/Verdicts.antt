-- ===== src/Gossip/Detection/Verdicts.antt =====
-- detectors/gossip.go, the locked part of `checkFailures`, by the thresholds and the state of each member.
use distributed_group_member.Common.{◌≡◌, sym, ap, ◌∙◌, ℕ, ite, if_pos, if_neg}
use distributed_group_member.Types.{Text, Text-discrete, Member}
use distributed_group_member.Membership.{MembershipList, member_at, local_key}
use distributed_group_member.Membership.Invariant.{IsWellFormed}
use distributed_group_member.Gossip.{GossipManager}
use distributed_group_member.Gossip.Rounds.{Verdict, sweep, verdict}
use distributed_group_member.Gossip.Sweep.{
  carried, member_at-sweep, sweep-local, verdict_by, verdict_by_lem,
}
use distributed_group_member.Gossip.Detection.Silence.{Thresholds}

-- On a well-formed list, with thresholds that fit an int64, a sweep leaves the local node as it is. Of the
-- other members, an Alive one that was silent for the suspect threshold turns Suspected
-- now, or is removed if suspicion is off; a Suspected one is removed if it has been so for the confirm
-- threshold, and a Failed one if its last heartbeat is as old as a positive cleanup timeout; all others stay
-- as they are, and none is added.
pub sweep_effect :
    (g : GossipManager) (now s c d : ℕ) (ml : MembershipList) (k : Text)
    → Thresholds g s c d
    → IsWellFormed ml
    → member_at k (sweep g now ml)
      ≡ ite
          (Text-discrete k (local_key ml))
          (member_at k ml)
          (carried now (verdict_by g.enable_suspicion now s c d) (member_at k ml))
sweep_effect g now s c d ml k th w = elim (Text-discrete k (local_key ml)) [
  | yes self ↦
      ap (λ j. member_at j (sweep g now ml)) self
      ∙ sweep-local g now ml w
      ∙ ap (λ j. member_at j ml) (sym self)
      ∙ sym (if_pos (Text-discrete k (local_key ml)) self _ _)
  | no foreign ↦
      let judged : (m : Member)
          → verdict g now (local_key ml) k m ≡ verdict_by g.enable_suspicion now s c d m =
        λ m.
          verdict_by_lem g now s c d k (local_key ml) m foreign th.suspecting th.confirming
            th.cleaning th.suspects_later th.suspect_fits th.confirm_fits th.cleanup_fits in
      member_at-sweep g now ml k w
      ∙ ap (λ (v : Member → Verdict). carried now v (member_at k ml)) (λ i m. judged m i)
      ∙ sym (if_neg (Text-discrete k (local_key ml)) foreign _ _)
]
