-- ===== src/Suspicion/Cleared.antt =====
-- What `ClearSuspect` of utils/suspicion.go leaves of a member and its entry.
use mathlib.Core.Option
use distributed_group_member.Common.{
  ◌≡◌, refl, ap, ◌∙◌, ℕ, ℤ, ◌≤ℤ◌, Bool, true, false, Option, none, some, if_pos, ltb_ℤ, inl, inr,
  Option-cases, arith, subst, if◌then◌else◌,
}
use distributed_group_member.Common.Dict.{delete, lookup-delete}
use distributed_group_member.Types.{Text, Text-discrete, NodeId, to_string}
use distributed_group_member.Membership.{member_at}
use distributed_group_member.Node.{Node, SuspectEntry, on_clear}
use distributed_group_member.Suspicion.{
  entry_at, with_members, notify, modify_member, clear_member, clear_suspect, check, is_due,
  fail_member,
}
use distributed_group_member.Suspicion.Members.{member_at-modify_member}
use distributed_group_member.Suspicion.Entries.{Inv}
use distributed_group_member.Suspicion.Loops.{entry_holds}
use distributed_group_member.Suspicion.Expiry.{check_effect}

-- No entry is of a higher incarnation.
abbrev pub BoundedBy : ℤ → Option SuspectEntry → Type 0
BoundedBy inc none = Unit
BoundedBy inc (some e) = e.incarnation ≤ℤ inc

pub BoundedBy-mono : (i j : ℤ) (e : Option SuspectEntry) → i ≤ℤ j → BoundedBy i e → BoundedBy j e
BoundedBy-mono i j none h b = tt
BoundedBy-mono i j (some e) h b = omega arith

member_at-notify :
    (b : Bool) (target : NodeId) (inc : ℤ) (nd : Node) (k : Text)
    → (member_at k (notify b (on_clear target inc) nd).membership ≡ member_at k nd.membership)
      × (entry_at k (notify b (on_clear target inc) nd) ≡ entry_at k nd)
unfolding notify
member_at-notify true target inc nd k = (refl, refl)
member_at-notify false target inc nd k = (refl, refl)

module _ (target : NodeId) (inc : ℤ) (nd : Node) where
  abbrev key : Text
  key = to_string target

  modified :
      member_at key (modify_member key (clear_member inc) nd.membership)
      ≡ Option.map (clear_member inc) (member_at key nd.membership)
  modified =
      member_at-modify_member key (clear_member inc) nd.membership key
      ∙ if_pos (Text-discrete key key) refl _ _

  deleted : entry_at key (record nd { entries = delete Text-discrete key nd.entries }) ≡ none
  deleted = lookup-delete Text-discrete key key nd.entries ∙ if_pos (Text-discrete key key) refl _ _

  -- A clearance that no entry is above clears the member, if there is one, and leaves no entry.
  pub clear_suspect_effect :
      BoundedBy inc (entry_at key nd)
      → (member_at key (clear_suspect target inc nd).membership
          ≡ Option.map (clear_member inc) (member_at key nd.membership))
        × (entry_at key (clear_suspect target inc nd) ≡ none)
  unfolding clear_suspect
  clear_suspect_effect bounded = elim (Option-cases (entry_at key nd)) [
    | inl e ↦ rw (e, clear_suspect) (modified, e)
    | inr (x, e) ↦
        let newer : ltb_ℤ inc x.incarnation ≡ false =
          ground (arith, subst (BoundedBy inc) e bounded) in
        let cleared =
          with_members (modify_member key (clear_member inc))
            (record nd { entries = delete Text-discrete key nd.entries }) in
        let (members, entries) = member_at-notify nd.options.on_clear target inc cleared key in
        rw (e, clear_suspect, newer) (members ∙ modified, entries ∙ deleted)
  ]

-- `check` leaves a member without an entry as it is.
pub unchecked :
    (now : ℕ) (nd : Node) (k : Text)
    → Inv nd
    → entry_at k nd ≡ none
    → member_at k (check now nd).membership ≡ member_at k nd.membership
unchecked now nd k v gone =
    (check_effect now nd k v).0
    ∙ ap
        (λ o.
          if entry_holds (is_due nd.options now) o
          then Option.map fail_member (member_at k nd.membership)
          else member_at k nd.membership)
        gone
