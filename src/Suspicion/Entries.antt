-- ===== src/Suspicion/Entries.antt =====
-- The invariant of a node's suspicions, and the suspicion events against it.
use distributed_group_member.Common.{
  ◌≡◌, refl, ◌≢◌, ℕ, ◌≤◌, ◌<◌, true, List, [], ◌∷◌, arith, All, ℤ, pos, ◌≤ℤ◌, ◌<ℤ◌, length,
}
use distributed_group_member.Common.Dict.{IsUnique, insert, insert-All, lookup-All, insert-IsUnique}
use distributed_group_member.Types.{Text, Text-discrete, NodeId, NodeId-discrete, to_string}
use distributed_group_member.Membership.{local_key}
use distributed_group_member.Membership.Invariant.{IsWellFormed}
use distributed_group_member.Node.{Node, Options, SuspectEntry}
use distributed_group_member.Node.Sending.{send_all_lem}
use distributed_group_member.Suspicion.{
  handle_self_refutation, new_entry, add_reporter, suspect_member, process_suspicion,
}
use distributed_group_member.Suspicion.Members.{
  Advances, Advances-refl, Advances-trans, modify_member-Advances, modify_member-IsWellFormed,
  suspect_member-IsForward,
}
use distributed_group_member.Suspicion.Reports.{
  FallsOn, recorded, first, newer, Outcome, ignored, counted, raised, process_suspicion-Outcome,
  process_suspicion_self,
}

-- An entry stands under the key of its target; it was acted on exactly if enough have reported; it
-- is confirmed only if it was acted on.
pub record IsSound (o : Options) (e : Text × SuspectEntry) : Type 0 where
  pub keyed : e.0 ≡ to_string e.1.target
  pub acted : e.1.first_report ≢ 0 → o.require_reports ≤ℤ pos (length e.1.reporters)
  pub waiting : e.1.first_report ≡ 0 → pos (length e.1.reporters) <ℤ o.require_reports
  pub confirmed_acted : e.1.confirmed ≡ true → e.1.first_report ≢ 0

pub record Inv (nd : Node) : Type 0 where
  pub formed : IsWellFormed nd.membership
  pub unique : IsUnique nd.entries
  pub sound : All (IsSound nd.options) nd.entries
  pub positive : pos 1 ≤ℤ nd.options.require_reports

length-insert :
    (r : NodeId) (t : ℕ) (rs : List (NodeId × ℕ))
    → (length rs ≤ length (insert NodeId-discrete r t rs))
      × (1 ≤ length (insert NodeId-discrete r t rs))
unfolding insert
length-insert r t [] = omega arith
length-insert r t ((s, u) ∷ rs) = ground (arith, length-insert r t rs)

fresh-IsSound :
    (target : NodeId) (inc : ℤ) (o : Options)
    → pos 1 ≤ℤ o.require_reports
    → IsSound o (to_string target, new_entry target inc)
fresh-IsSound target inc o h = record {
  keyed = refl;
  acted = λ q. absurd (q refl);
  waiting = λ q. omega arith;
  confirmed_acted = λ q. cc;
}

FallsOn-IsSound :
    (target : NodeId) (inc : ℤ) (nd : Node) (e : SuspectEntry)
    → Inv nd
    → FallsOn target inc nd e
    → IsSound nd.options (to_string target, e)
FallsOn-IsSound target inc nd e v (recorded p q) =
    lookup-All Text-discrete (IsSound nd.options) (to_string target) nd.entries e v.sound p
FallsOn-IsSound target inc nd e v (first p q r) =
    rw r (fresh-IsSound target inc nd.options v.positive)
FallsOn-IsSound target inc nd e v (newer x p q r) =
    rw r (fresh-IsSound target inc nd.options v.positive)

-- What a step of the suspicion manager keeps: the invariant, the members and their incarnations.
pub record Keeps (nd nd' : Node) : Type 0 where
  pub inv : Inv nd'
  pub advances : Advances nd.membership nd'.membership

pub Keeps-refl : (nd : Node) → Inv nd → Keeps nd nd
Keeps-refl nd v = record { inv = v; advances = Advances-refl nd.membership }

-- A report writes a sound entry.
insert-Keeps :
    (k : Text) (e : SuspectEntry) (nd : Node)
    → Inv nd
    → IsSound nd.options (k, e)
    → Inv (record nd { entries = insert Text-discrete k e nd.entries })
insert-Keeps k e nd v s = record {
  formed = v.formed;
  unique = insert-IsUnique Text-discrete k e nd.entries v.unique;
  sound = insert-All Text-discrete (IsSound nd.options) k e nd.entries s v.sound;
  positive = v.positive;
}

Outcome-Keeps :
    (reporter target : NodeId) (inc : ℤ) (now : ℕ) (nd nd' : Node)
    → 0 < now
    → Inv nd
    → Outcome reporter target inc now nd nd'
    → Keeps nd nd'
Outcome-Keeps reporter target inc now nd nd' t v (ignored old p) = rw p (Keeps-refl nd v)
Outcome-Keeps reporter target inc now nd nd' t v (counted e f few p) =
    let s = FallsOn-IsSound target inc nd e v f in
    let n = length-insert reporter now e.reporters in
    rw p (record {
      inv = insert-Keeps (to_string target) (add_reporter reporter now e) nd v (record {
        keyed = s.keyed;
        acted = λ q. omega (arith, s.acted q);
        waiting = λ q. ground arith;
        confirmed_acted = s.confirmed_acted;
      });
      advances = Advances-refl nd.membership;
    })
Outcome-Keeps reporter target inc now nd nd' t v (raised e f enough zero_first p) =
    let s = FallsOn-IsSound target inc nd e v f in
    let key = to_string target in
    let e' = record (add_reporter reporter now e) { first_report = now } in
    let i = insert-Keeps key e' nd v (record {
      keyed = s.keyed;
      acted = λ q. enough;
      waiting = λ q. omega arith;
      confirmed_acted = λ q r. omega arith;
    }) in
    rw p (record {
      inv = record {
        formed =
            modify_member-IsWellFormed key (suspect_member now) nd.membership (λ m. refl) v.formed;
        unique = i.unique;
        sound = i.sound;
        positive = v.positive;
      };
      advances =
          modify_member-Advances key (suspect_member now) nd.membership
            (suspect_member-IsForward now);
    })

refutation-Keeps :
    (inc : ℤ) (now : ℕ) (nd : Node) → Inv nd → Keeps nd (handle_self_refutation inc now nd)
unfolding handle_self_refutation
refutation-Keeps inc now nd v = rw send_all_lem (record {
  inv = record {
    formed = record { keyed = v.formed.keyed; unique = v.formed.unique };
    unique = v.unique;
    sound = v.sound;
    positive = v.positive;
  };
  advances = record { local_kept = refl; kept = (Advances-refl nd.membership).kept };
})

-- `ProcessSuspicion` keeps the invariant, every member and every incarnation on record.
pub process_suspicion-Keeps :
    (reporter target : NodeId) (inc : ℤ) (now : ℕ) (nd : Node)
    → 0 < now
    → Inv nd
    → Keeps nd (process_suspicion reporter target inc now nd)
process_suspicion-Keeps reporter target inc now nd t v =
    elim (Text-discrete (to_string target) (local_key nd.membership)) [
      | yes e ↦
          rw (process_suspicion_self reporter target inc now nd e) (refutation-Keeps inc now nd v)
      | no e ↦
          Outcome-Keeps reporter target inc now nd _ t v
            (process_suspicion-Outcome reporter target inc now nd e)
    ]

pub Keeps-trans : (a b c : Node) → Keeps a b → Keeps b c → Keeps a c
Keeps-trans a b c p q = record {
  inv = q.inv;
  advances = Advances-trans a.membership b.membership c.membership p.advances q.advances;
}
