-- ===== src/Suspicion/Reports.antt =====
-- `ProcessSuspicion`: what a report does, on each branch.
use distributed_group_member.Common.{
  ◌≡◌, refl, ◌≢◌, ◌⊎◌, inl, inr, ℕ, true, false, [], ◌∷◌, ◌++◌, none, some, arith, ℤ, pos, negsuc,
  ◌≤ℤ◌, ◌<ℤ◌, ltb_ℤ, leb_ℤ, inc32_lem, inc32_max, IsInt32, max_int32, Bool-cases, Option-cases,
  eq_of_parts, length, map, if◌then◌else◌, ◌^◌, ◌-◌,
}
use distributed_group_member.Common.Dict.{insert}
use distributed_group_member.Types.{
  Text-discrete, NodeId, NodeId-discrete, to_string, text_eqb, alive_msg, plain, zero_id,
}
use distributed_group_member.Types.Keys.{text_eqb_iff}
use distributed_group_member.Membership.{member_at, local_key}
use distributed_group_member.Node.{Node, SuspectEntry, on_suspect, peers}
use distributed_group_member.Node.Sending.{mail, send_all_lem}
use distributed_group_member.Suspicion.{
  entry_at, modify_member, refuting, handle_self_refutation, new_entry, reaches_quorum,
  reporters_list, add_reporter, suspect_member, notify, report, known_incarnation,
  process_suspicion,
}

refuting_lem :
    (l i : ℤ)
    → IsInt32 l
    → IsInt32 i
    → l <ℤ max_int32
    → i <ℤ max_int32
    → (l <ℤ refuting l i) × (i <ℤ refuting l i)
unfolding refuting
refuting_lem l i a b p q = elim (Bool-cases (leb_ℤ l i)) [
  | inl e ↦ rw e (ground (arith, inc32_lem i), inc32_lem i b q)
  | inr e ↦ rw e (inc32_lem l a p, ground (arith, inc32_lem l))
]

refuting_max : (l : ℤ) → IsInt32 l → refuting l max_int32 ≡ negsuc (2 ^ 31 - 1)
unfolding refuting
refuting_max l a = ground (arith, inc32_max)

pub process_suspicion_self :
    (reporter target : NodeId) (inc : ℤ) (now : ℕ) (nd : Node)
    → to_string target ≡ local_key nd.membership
    → process_suspicion reporter target inc now nd ≡ handle_self_refutation inc now nd
unfolding process_suspicion
process_suspicion_self reporter target inc now nd e =
    rw ((text_eqb_iff (to_string target) (local_key nd.membership)).1 e)

-- A suspicion of the node itself, below the greatest int32, makes the node raise its incarnation
-- above both its own and the suspected one and send it, as Alive, to every other member; its
-- members and its entries stay as they are.
pub process_suspicion_refutes :
    (reporter target : NodeId) (inc : ℤ) (now : ℕ) (nd : Node)
    → to_string target ≡ local_key nd.membership
    → IsInt32 nd.membership.incarnation
    → IsInt32 inc
    → nd.membership.incarnation <ℤ max_int32
    → inc <ℤ max_int32
    → let nd' = process_suspicion reporter target inc now nd in
      (nd.membership.incarnation <ℤ nd'.membership.incarnation)
      × (inc <ℤ nd'.membership.incarnation)
      × (nd'.membership.members ≡ nd.membership.members)
      × (nd'.entries ≡ nd.entries)
      × (nd'.sent
          ≡ nd.sent
            ++ mail now
                (plain alive_msg nd.membership.local_node zero_id nd'.membership.incarnation)
                (peers nd.membership))
unfolding handle_self_refutation
process_suspicion_refutes reporter target inc now nd self a b p q =
    let (l, i) = refuting_lem nd.membership.incarnation inc a b p q in
    rw (process_suspicion_self reporter target inc now nd self) (
      rw
        (send_all_lem now (
          plain alive_msg nd.membership.local_node zero_id
            (refuting nd.membership.incarnation inc)))
        (l, i, refl, refl, refl))

-- A suspicion of the node itself at the greatest int32 wraps its incarnation to the least one.
pub process_suspicion_wraps :
    (reporter target : NodeId) (now : ℕ) (nd : Node)
    → to_string target ≡ local_key nd.membership
    → IsInt32 nd.membership.incarnation
    → (process_suspicion reporter target max_int32 now nd).membership.incarnation
      ≡ negsuc (2 ^ 31 - 1)
unfolding handle_self_refutation
process_suspicion_wraps reporter target now nd self a =
    rw (process_suspicion_self reporter target max_int32 now nd self) (
      rw
        (send_all_lem now (
          plain alive_msg nd.membership.local_node zero_id
            (refuting nd.membership.incarnation max_int32)))
        (refuting_max nd.membership.incarnation a))

-- The entry that a report falls on: the one on record at the same incarnation, or a new one where
-- there is none, or an older one.
pub data FallsOn (target : NodeId) (inc : ℤ) (nd : Node) (e : SuspectEntry) : Type 0 where
  recorded : entry_at (to_string target) nd ≡ some e → e.incarnation ≡ inc → FallsOn target inc nd e
  first :
      entry_at (to_string target) nd ≡ none
      → known_incarnation (member_at (to_string target) nd.membership) ≤ℤ inc
      → e ≡ new_entry target inc
      → FallsOn target inc nd e
  newer :
      (x : SuspectEntry)
      → entry_at (to_string target) nd ≡ some x
      → x.incarnation <ℤ inc
      → e ≡ new_entry target inc
      → FallsOn target inc nd e

-- The entry with the report: the reporter is on record with the time, and all others as before.
abbrev pub with_report : NodeId → ℕ → SuspectEntry → SuspectEntry
with_report reporter now e = record e {
  reporters = insert NodeId-discrete reporter now e.reporters;
}

-- What a report of another node may lead to.
pub data Outcome (reporter target : NodeId) (inc : ℤ) (now : ℕ) (nd nd' : Node) : Type 0 where
  -- It is older than the entry, or than the member where there is no entry.
  ignored :
      ((e : SuspectEntry) × (entry_at (to_string target) nd ≡ some e) × (inc <ℤ e.incarnation))
        ⊎ ((entry_at (to_string target) nd ≡ none)
            × (inc <ℤ known_incarnation (member_at (to_string target) nd.membership)))
      → nd' ≡ nd
      → Outcome reporter target inc now nd nd'
  -- It is counted, and the reports are too few, or the entry was acted on before.
  counted :
      (e : SuspectEntry)
      → FallsOn target inc nd e
      → (pos (length (with_report reporter now e).reporters) <ℤ nd.options.require_reports)
        ⊎ (e.first_report ≢ 0)
      → nd' ≡ record nd {
        entries = insert Text-discrete (to_string target) (with_report reporter now e) nd.entries;
      }
      → Outcome reporter target inc now nd nd'
  -- It completes the reports: the member turns Suspected.
  raised :
      (e : SuspectEntry)
      → FallsOn target inc nd e
      → nd.options.require_reports ≤ℤ pos (length (with_report reporter now e).reporters)
      → e.first_report ≡ 0
      → nd' ≡ record nd {
        entries =
            insert Text-discrete
              (to_string target)
              (record e { reporters = (with_report reporter now e).reporters; first_report = now })
              nd.entries;
        membership = modify_member (to_string target) (suspect_member now) nd.membership;
        spawned =
            if nd.options.on_suspect
            then nd.spawned
              ++ on_suspect target inc (map (λ r. r.0) (with_report reporter now e).reporters) ∷ []
            else nd.spawned;
      }
      → Outcome reporter target inc now nd nd'

report-raised :
    (reporter target : NodeId) (inc : ℤ) (now : ℕ) (e : SuspectEntry) (nd : Node)
    → reaches_quorum nd.options (add_reporter reporter now e) ≡ true
    → report reporter target inc now e nd ≡ record nd {
      entries =
          insert Text-discrete
            (to_string target)
            (record e { reporters = (add_reporter reporter now e).reporters; first_report = now })
            nd.entries;
      membership = modify_member (to_string target) (suspect_member now) nd.membership;
      spawned =
          if nd.options.on_suspect
          then nd.spawned
            ++ on_suspect target inc (reporters_list (add_reporter reporter now e)) ∷ []
          else nd.spawned;
    }
unfolding report notify
report-raised reporter target inc now e nd q = ground arith

report-Outcome :
    (reporter target : NodeId) (inc : ℤ) (now : ℕ) (e : SuspectEntry) (nd : Node)
    → FallsOn target inc nd e
    → Outcome reporter target inc now nd (report reporter target inc now e nd)
unfolding report reaches_quorum notify reporters_list
report-Outcome reporter target inc now e nd same =
    elim (Bool-cases (reaches_quorum nd.options (add_reporter reporter now e))) [
      | inl q ↦
          raised e same (ground arith) (ground arith) (report-raised reporter target inc now e nd q)
      | inr q ↦ counted e same (ground arith) (ground arith)
    ]

-- A report about another node is ignored if it is older than its entry, or, where there is no entry, than
-- the member. Otherwise the reporter and the time are recorded in the entry of that incarnation, which is a
-- new one where there is none or an older one; and where the reporters are as many as required and the
-- entry was not acted on before, the member turns Suspected and the callback starts, if it is set, with
-- the reporters.
pub process_suspicion-Outcome :
    (reporter target : NodeId) (inc : ℤ) (now : ℕ) (nd : Node)
    → to_string target ≢ local_key nd.membership
    → Outcome reporter target inc now nd (process_suspicion reporter target inc now nd)
unfolding process_suspicion
process_suspicion-Outcome reporter target inc now nd foreign =
    let fresh = report-Outcome reporter target inc now (new_entry target inc) nd in
    let no_self : text_eqb (to_string target) (local_key nd.membership) ≡ false =
      ground (arith, text_eqb_iff (to_string target) (local_key nd.membership)) in
    rw no_self (elim (Option-cases (entry_at (to_string target) nd)) [
      | inl e ↦
          elim (Bool-cases
            (ltb_ℤ inc (known_incarnation (member_at (to_string target) nd.membership)))) [
              | inl old ↦ rw (e, old) (ignored (inr (e, ground arith)) refl)
              | inr new ↦ rw (e, new) (fresh (first e (ground arith) refl))
            ]
      | inr (x, e) ↦ elim (Bool-cases (ltb_ℤ inc x.incarnation)) [
        | inl old ↦ rw (e, old) (ignored (inl (x, e, ground arith)) refl)
        | inr new ↦ elim (Bool-cases (ltb_ℤ x.incarnation inc)) [
          | inl later ↦ rw (e, new, later) (fresh (newer x e (ground arith) refl))
          | inr same ↦
              rw (e, new, same)
                (report-Outcome reporter target inc now x nd
                  (recorded e (eq_of_parts x.incarnation inc (ground arith))))
        ]
      ]
    ])
