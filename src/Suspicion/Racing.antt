-- ===== src/Suspicion/Racing.antt =====
-- `check` of utils/suspicion.go in its two parts: it has the lock of the entries first and that of the
-- members afterwards, and another goroutine can run in between.
use mathlib.Core.Option
use distributed_group_member.Common.{
  ◌≡◌, refl, sym, ap, ◌∙◌, ℕ, ℤ, ◌≤ℤ◌, true, List, [], ◌++◌, Option, none, some, some-injective,
  arith, subst, if◌then◌else◌, if_cases,
}
use distributed_group_member.Common.Dict.{delete_all, map_values}
use distributed_group_member.Types.{Text, Text-discrete, NodeId, to_string, Member, alive, failed}
use distributed_group_member.Membership.{member_at}
use distributed_group_member.Node.{Node, Options, SuspectEntry}
use distributed_group_member.Suspicion.{
  entry_at, clear_member, clear_suspect, check, is_due, is_over, fail_member, fail_all, to_cleanup,
  to_confirm, confirm_entry, confirmed_members,
}
use distributed_group_member.Suspicion.Clearing.{clear_suspect-Keeps}
use distributed_group_member.Suspicion.Entries.{Inv}
use distributed_group_member.Suspicion.Loops.{entry_holds, expire, member_at-fail_all}
use distributed_group_member.Suspicion.Expiry.{check_effect}
use distributed_group_member.Suspicion.Cleared.{BoundedBy, clear_suspect_effect, unchecked}

-- The part under the lock of the entries.
unfoldable pub check_entries : ℕ → Node → Node
check_entries now nd = record nd {
  entries =
      delete_all Text-discrete (to_cleanup nd.options now nd.entries)
        (map_values (confirm_entry nd.options now) nd.entries);
}

-- The part under the lock of the members, with the entries that the first part found due.
unfoldable pub check_members : List (NodeId × ℤ) → Node → Node
check_members due nd = record nd {
  membership = fail_all due nd.membership;
  spawned =
      nd.spawned ++ (if nd.options.on_confirm then confirmed_members nd.membership due else []);
}

check_parts :
    (now : ℕ) (nd : Node)
    → check now nd ≡ check_members (to_confirm nd.options now nd.entries) (check_entries now nd)
unfolding check check_members check_entries
check_parts now nd = refl

confirm_entry-incarnation :
    (o : Options) (now : ℕ) (k : Text) (e : SuspectEntry)
    → (confirm_entry o now k e).incarnation ≡ e.incarnation
unfolding confirm_entry
confirm_entry-incarnation o now k e = ground arith

expire-BoundedBy :
    (o : Options) (now : ℕ) (k : Text) (inc : ℤ) (e : SuspectEntry)
    → e.incarnation ≤ℤ inc
    → BoundedBy inc (expire o now k (some e))
expire-BoundedBy o now k inc e h =
    if_cases (BoundedBy inc) (is_over o now e) (λ _. tt)
      (λ _. subst (λ i. i ≤ℤ inc) (sym (confirm_entry-incarnation o now k e)) h)

clears :
    (inc : ℤ) (m : Member)
    → m.incarnation ≤ℤ inc
    → clear_member inc m ≡ record m { status = alive; incarnation = inc }
clears inc m h = ground arith

due_fails :
    (o : Options) (now : ℕ) (oe : Option SuspectEntry) (om : Option Member) (e : SuspectEntry)
    (m : Member)
    → oe ≡ some e
    → is_due o now e ≡ true
    → om ≡ some m
    → (if entry_holds (is_due o now) oe then Option.map fail_member om else om)
      ≡ some (fail_member m)
due_fails o now none om e m at due at_m = absurd (cc)
due_fails o now (some x) none e m at due at_m = absurd (cc)
due_fails o now (some x) (some n) e m at due at_m =
    let same : is_due o now x ≡ true =
      subst (λ y. is_due o now y ≡ true) (sym (some-injective _ _ at)) due in
    rw same (ap (Option.map fail_member) at_m)

-- An entry of a member on record is due, and a clearance of an incarnation that is not below theirs comes
-- with the same `check`. Where it comes before the whole `check`, or after it, the member is Alive at that
-- incarnation afterwards; but where it comes between the two parts of `check`, the member is Failed at the
-- incarnation that has cleared it, and has no entry any more.
pub check_race :
    (now : ℕ) (nd : Node) (target : NodeId) (inc : ℤ) (e : SuspectEntry) (m : Member)
    → Inv nd
    → entry_at (to_string target) nd ≡ some e
    → is_due nd.options now e ≡ true
    → member_at (to_string target) nd.membership ≡ some m
    → e.incarnation ≤ℤ inc
    → m.incarnation ≤ℤ inc
    → let key = to_string target in
      let due = to_confirm nd.options now nd.entries in
      let raced = check_members due (clear_suspect target inc (check_entries now nd)) in
      (check now nd ≡ check_members due (check_entries now nd))
      × (member_at key (check now (clear_suspect target inc nd)).membership
          ≡ some (record m { status = alive; incarnation = inc }))
      × (member_at key (clear_suspect target inc (check now nd)).membership
          ≡ some (record m { status = alive; incarnation = inc }))
      × (member_at key raced.membership ≡ some (record m { status = failed; incarnation = inc }))
      × (entry_at key raced ≡ none)
unfolding check check_members check_entries
check_race now nd target inc e m v at due at_m older older' =
    let key = to_string target in
    let o = nd.options in
    let (members, entries) = check_effect now nd key v in
    let expired : BoundedBy inc (entry_at key (check now nd)) =
      subst (BoundedBy inc) (sym (entries ∙ ap (expire o now key) at))
        (expire-BoundedBy o now key inc e older) in
    let first = clear_suspect_effect target inc nd (subst (BoundedBy inc) (sym at) older) in
    let last = clear_suspect_effect target inc (check now nd) expired in
    let between = clear_suspect_effect target inc (check_entries now nd) expired in
    let cleared =
      between.0 ∙ ap (Option.map (clear_member inc)) at_m ∙ ap some (clears inc m older') in
    (
      check_parts now nd,
      unchecked now (clear_suspect target inc nd) key (clear_suspect-Keeps target inc nd v).inv
            first.1
          ∙ first.0
          ∙ ap (Option.map (clear_member inc)) at_m
          ∙ ap some (clears inc m older'),
      last.0
          ∙ ap (Option.map (clear_member inc)) (members ∙ due_fails o now _ _ e m at due at_m)
          ∙ ap some (clears inc (fail_member m) older'),
      member_at-fail_all o now nd.entries
            (clear_suspect target inc (check_entries now nd)).membership key v.unique v.sound
          ∙ due_fails o now _ _ e (record m { status = alive; incarnation = inc }) at due cleared,
      between.1,
    )
