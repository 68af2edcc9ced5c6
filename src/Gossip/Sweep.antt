-- ===== src/Gossip/Sweep.antt =====
-- What a sweep of `checkFailures` leaves in the list.
use distributed_group_member.Common.{
  ltb, leb, ◌&&◌, ◌≡◌, refl, sym, ap, ap₂, ◌∙◌, ◌≢◌, ℕ, ◌+◌, ◌<◌, ◌^◌, pos, Bool, List, [], ◌∷◌,
  Option, none, some, arith, All, if◌then◌else◌, map, Bool-cases, inl, inr, select, select-pass,
  select-fail,
}
use distributed_group_member.Common.Dict.{
  lookup, keys, values, delete_all, map_values, lookup-map_values,
}
use distributed_group_member.Common.Dict.Loops.{lookup-delete_all, is_in-select}
use distributed_group_member.Types.{
  Text, Text-discrete, to_string, Member, alive, suspected, failed, other, sub_time,
}
use distributed_group_member.Types.Keys.{text_eqb_iff}
use distributed_group_member.Membership.{MembershipList, member_at, local_key}
use distributed_group_member.Membership.Invariant.{IsKeyed, IsWellFormed}
use distributed_group_member.Gossip.{GossipManager}
use distributed_group_member.Gossip.Rounds.{
  mark, removal_candidates, sweep, verdict, is_removes, judge, Verdict, stays, suspects, removes,
  suspect_threshold, confirm_threshold,
}

-- The keys of selected members, which the loop takes from their identities.
pub keys-values :
    (p : Text × Member → Bool) (ms : List (Text × Member))
    → All IsKeyed ms
    → map (λ (m : Member). to_string m.id) (values (select p ms)) ≡ keys (select p ms)
keys-values p [] a = refl
keys-values p ((k, m) ∷ ms) a = elim (Bool-cases (p (k, m))) [
  | inl e ↦ rw (select-pass p (k, m) ms e) (ap₂ ◌∷◌ (sym a.0) (keys-values p ms a.1))
  | inr e ↦ rw (select-fail p (k, m) ms e) (keys-values p ms a.1)
]

-- What a verdict makes of a member.
abbrev pub carry_out : ℕ → Verdict → Member → Option Member
carry_out now stays m = some m
carry_out now suspects m = some (record m { status = suspected; suspicion_start = now })
carry_out now removes m = none

abbrev pub carried : ℕ → (Member → Verdict) → Option Member → Option Member
carried now v none = none
carried now v (some m) = carry_out now (v m) m

-- A sweep of a well-formed list carries out its verdict on each member, and adds none.
pub member_at-sweep :
    (g : GossipManager) (now : ℕ) (ml : MembershipList) (k : Text)
    → IsWellFormed ml
    → member_at k (sweep g now ml) ≡ carried now (verdict g now (local_key ml) k) (member_at k ml)
unfolding sweep removal_candidates mark
member_at-sweep g now ml k w =
    let p = λ (e : Text × Member). is_removes (verdict g now (local_key ml) e.0 e.1) in
    let marked = map_values (mark g now (local_key ml)) ml.members in
    ap (λ ks. lookup Text-discrete k (delete_all Text-discrete ks marked))
      (keys-values p ml.members w.keyed)
    ∙ lookup-delete_all Text-discrete k (keys (select p ml.members)) marked
    ∙ ground (
      arith,
      is_in-select Text-discrete p k ml.members w.unique,
      lookup-map_values Text-discrete (mark g now (local_key ml)) k ml.members,
    )

-- A sweep never touches the local node.
pub sweep-local :
    (g : GossipManager) (now : ℕ) (ml : MembershipList)
    → IsWellFormed ml
    → member_at (local_key ml) (sweep g now ml) ≡ member_at (local_key ml) ml
unfolding verdict
sweep-local g now ml w =
    member_at-sweep g now ml (local_key ml) w
    ∙ ground (arith, (text_eqb_iff (local_key ml) (local_key ml)).1 refl)

-- The verdict on a member by the thresholds in nanoseconds: an Alive member is judged by its last
-- heartbeat, a Suspected one by the start of the suspicion.
unfoldable pub verdict_by : Bool → ℕ → ℕ → ℕ → ℕ → Member → Verdict
verdict_by enable now s c d m = elim m.status [
  | alive ↦ if leb (m.last_heartbeat + s) now then (if enable then suspects else removes) else stays
  | suspected ↦ if leb (m.suspicion_start + c) now then removes else stays
  | failed ↦ if ltb 0 d && leb (m.last_heartbeat + d) now then removes else stays
  | other _ ↦ stays
]

-- For thresholds that fit an int64, an Alive member other than the local node is suspected (or
-- removed, where suspicion is off) exactly when it was silent for the suspect threshold, a Suspected
-- one is removed exactly when it was suspected for the confirm threshold, a Failed one exactly when
-- its last heartbeat is older than the cleanup timeout, and all others stay.
pub verdict_by_lem :
    (g : GossipManager) (now s c d : ℕ) (k self : Text) (m : Member)
    → k ≢ self
    → suspect_threshold g ≡ pos s
    → confirm_threshold g ≡ pos c
    → g.timeouts.cleanup_timeout ≡ pos d
    → 0 < s
    → s < 2 ^ 63
    → c < 2 ^ 63
    → d < 2 ^ 63
    → verdict g now self k m ≡ verdict_by g.enable_suspicion now s c d m
unfolding verdict judge sub_time verdict_by
verdict_by_lem g now s c d k self m foreign es ec ed p hs hc hd =
    ground (arith, (text_eqb_iff k self).0)
