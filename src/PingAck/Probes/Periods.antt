-- ===== src/PingAck/Probes/Periods.antt =====
-- What the start of a protocol period does.
use mathlib.Core.List.{Perm, mem-cons_self}
use distributed_group_member.Common.{
  ◌≡◌, refl, subst, ℕ, ◌+◌, ◌%◌, ◌^◌, List, [], ◌∷◌, ◌++◌, some, arith, ℕ_discrete, some-injective,
}
use distributed_group_member.Common.Dict.{lookup, insert, lookup-insert_self}
use distributed_group_member.Types.{address, Member, ping}
use distributed_group_member.Membership.{local_key, get_random_members, get_recent_updates, unix}
use distributed_group_member.Membership.Invariant.{IsWellFormed}
use distributed_group_member.Membership.Sampling.{IsEligible, get_random_members-IsEligible}
use distributed_group_member.Node.{Node, send}
use distributed_group_member.PingAck.{PingAckManager}
use distributed_group_member.PingAck.Probes.{Period, probe, pending_ping, begin_period}

-- What a period that goes on has done: its target is eligible, its number is the next one and is
-- pending, and one Ping of that number went to the target.
pub record Begun (p p' : PingAckManager) (nd nd' : Node) (now : ℕ) (period : Period) : Type 0 where
  pub member : Member
  pub eligible : IsEligible (local_key nd.membership ∷ []) nd.membership member
  pub aimed : period.target ≡ member.id
  pub next : period.seq_num ≡ (p.seq_num + 1) % 2 ^ 64
  pub counted : p'.seq_num ≡ period.seq_num
  pub pending :
      lookup ℕ_discrete period.seq_num p'.pending_acks
      ≡ some (pending_ping member.id period.seq_num now)
  pub pinged :
      nd'.sent
      ≡ nd.sent
        ++ (
          address member.id,
          record (probe ping nd'.membership.local_node member.id nd'.membership.incarnation
              period.seq_num period.updates) { timestamp = unix now },
        )
          ∷ []

-- The node after the Ping.
abbrev pinged_node : Member → ℕ → ℕ → Node → Node
pinged_node t now seq nd =
    let (updates, ml) = get_recent_updates 5 now nd.membership in
    send now (probe ping ml.local_node t.id ml.incarnation seq updates) (address t.id)
      (record nd { membership = ml })

Begun-with :
    (now : ℕ) (p : PingAckManager) (nd : Node) (t : Member)
    → IsEligible (local_key nd.membership ∷ []) nd.membership t
    → let seq = (p.seq_num + 1) % 2 ^ 64 in
      Begun p
        (record p {
          seq_num = seq;
          pending_acks = insert ℕ_discrete seq (pending_ping t.id seq now) p.pending_acks;
        })
        nd
        (pinged_node t now seq nd)
        now
        (record {
          target = t.id;
          seq_num = seq;
          updates = (get_recent_updates 5 now nd.membership).0;
        })
unfolding get_recent_updates send
Begun-with now p nd t found = record {
  member = t;
  eligible = found;
  aimed = refl;
  next = refl;
  counted = refl;
  pending =
      lookup-insert_self ℕ_discrete ((p.seq_num + 1) % 2 ^ 64)
        (pending_ping t.id ((p.seq_num + 1) % 2 ^ 64) now) p.pending_acks;
  pinged = refl;
}

module _ (shuffle : List Member → List Member)
    (permutes : (ms : List Member) → Perm (shuffle ms) ms) where
  -- On a well-formed list, for every shuffle that permutes, a period that goes on has pinged one
  -- eligible member under the next number, which is pending.
  pub begin_period-Begun :
      (now : ℕ) (p : PingAckManager) (nd : Node) (period : Period)
      → IsWellFormed nd.membership
      → (begin_period shuffle now p nd).2 ≡ some period
      → Begun p (begin_period shuffle now p nd).0 nd (begin_period shuffle now p nd).1 now period
  unfolding begin_period get_recent_updates send
  begin_period-Begun now p nd period w goes =
      go (get_random_members shuffle 1 (local_key nd.membership ∷ []) nd.membership) refl goes
    where
      go :
          (ts : List Member)
          → get_random_members shuffle 1 (local_key nd.membership ∷ []) nd.membership ≡ ts
          → (begin_period shuffle now p nd).2 ≡ some period
          → Begun p
              (begin_period shuffle now p nd).0
              nd
              (begin_period shuffle now p nd).1
              now
              period
      go [] e h = absurd (ground (arith, e))
      go (t ∷ ts) e h =
          let seq = (p.seq_num + 1) % 2 ^ 64 in
          let found =
            get_random_members-IsEligible shuffle permutes 1 (local_key nd.membership ∷ [])
              nd.membership t w (rw e mem-cons_self) in
          rw (e, begin_period)
            (subst
              (λ (q : Period).
                Begun p
                  (record p {
                    seq_num = seq;
                    pending_acks = insert ℕ_discrete seq (pending_ping t.id seq now) p.pending_acks;
                  })
                  nd (pinged_node t now seq nd) now q)
              (some-injective _ _ (rw (e, begin_period) at h)) (Begun-with now p nd t found))
