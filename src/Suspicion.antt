-- ===== src/Suspicion.antt =====
-- utils/suspicion.go: the suspicion manager. A method runs as one step; a callback that it starts
-- is put on the list `spawned`.
pub mod Members
pub mod Entries
pub mod Clearing
pub mod Reports
pub mod Loops
pub mod Expiry
pub mod Ticker
pub mod Cleared
pub mod Racing
use distributed_group_member.Common.{
  ℕ, ◌+◌, ◌*◌, Bool, true, false, ◌&&◌, not, List, [], ◌∷◌, ◌++◌, Option, none, some, ℤ, pos,
  pos_part, inc32, ltb, ◌==◌, ltb_ℤ, leb_ℤ, eqb_ℤ, if◌then◌else◌, length, map, select,
}
use distributed_group_member.Common.Dict.{lookup, insert, delete, delete_all, map_values, keys}
use distributed_group_member.Types.{
  Text, Text-discrete, NodeId, NodeId-discrete, to_string, text_eqb, Member, alive, suspected,
  failed, alive_msg, plain, zero_id, second, millisecond, sub_time,
}
use distributed_group_member.Membership.{MembershipList, member_at, store, local_key}
use distributed_group_member.Node.{
  Node, Options, SuspectEntry, Callback, on_suspect, on_confirm, on_clear, send_all, peers,
}

abbrev is_zero : ℤ → Bool
is_zero d = eqb_ℤ d (pos 0)

-- `NewSuspicionManager`: the options with their defaults.
unfoldable pub with_defaults : Options → Options
with_defaults o = record o {
  suspicion_timeout = if is_zero o.suspicion_timeout then pos (2 * second) else o.suspicion_timeout;
  check_interval = if is_zero o.check_interval then pos (200 * millisecond) else o.check_interval;
  require_reports = if leb_ℤ o.require_reports (pos 0) then pos 1 else o.require_reports;
  confirmed_retention =
      if is_zero o.confirmed_retention then pos (3 * second) else o.confirmed_retention;
}

unfoldable pub new_suspicion_manager : MembershipList → Options → Node
unfolding with_defaults
new_suspicion_manager ml o = record {
  membership = ml;
  options = with_defaults o;
  entries = [];
  spawned = [];
  sent = [];
}

abbrev pub entry_at : Text → Node → Option SuspectEntry
entry_at k nd = lookup Text-discrete k nd.entries

abbrev pub with_members : (MembershipList → MembershipList) → Node → Node
with_members f nd = record nd { membership = f nd.membership }

-- `if sm.opts.OnX != nil { go sm.opts.OnX(…) }`
unfoldable pub notify : Bool → Callback → Node → Node
notify true c nd = record nd { spawned = nd.spawned ++ c ∷ [] }
notify false c nd = nd

-- A write to the member at a key, if there is one.
unfoldable pub modify_member : Text → (Member → Member) → MembershipList → MembershipList
modify_member k f ml = elim (member_at k ml) [ none ↦ ml | some m ↦ store k (f m) ml ]

-- The incarnation that refutes a suspicion.
unfoldable pub refuting : ℤ → ℤ → ℤ
refuting local_inc incoming = if leb_ℤ local_inc incoming then inc32 incoming else inc32 local_inc

unfoldable pub handle_self_refutation : ℤ → ℕ → Node → Node
handle_self_refutation incoming now nd =
    let new_inc = refuting nd.membership.incarnation incoming in
    let nd' = with_members (λ ml. record ml { incarnation = new_inc }) nd in
    send_all now (plain alive_msg nd.membership.local_node zero_id new_inc) (peers nd.membership)
      nd'

abbrev pub new_entry : NodeId → ℤ → SuspectEntry
new_entry target inc = record {
  target = target;
  incarnation = inc;
  reporters = [];
  first_report = 0;
  confirmed = false;
  confirmed_at = 0;
  cleanup_after = 0;
}

-- Enough have reported and the entry has not been acted on: the node turns Suspected.
unfoldable pub reaches_quorum : Options → SuspectEntry → Bool
reaches_quorum o e = leb_ℤ o.require_reports (pos (length e.reporters)) && e.first_report == 0

unfoldable pub reporters_list : SuspectEntry → List NodeId
reporters_list e = map (λ r. r.0) e.reporters

abbrev pub add_reporter : NodeId → ℕ → SuspectEntry → SuspectEntry
add_reporter reporter now e = record e {
  reporters = insert NodeId-discrete reporter now e.reporters;
}

abbrev pub suspect_member : ℕ → Member → Member
suspect_member now m = record m { status = suspected; suspicion_start = now }

-- The part of `ProcessSuspicion` behind the choice of the entry.
unfoldable pub report : NodeId → NodeId → ℤ → ℕ → SuspectEntry → Node → Node
report reporter target inc now e nd =
    let key = to_string target in
    let e' = add_reporter reporter now e in
    let quiet = record nd { entries = insert Text-discrete key e' nd.entries } in
    let loud = with_members (modify_member key (suspect_member now)) (record nd {
      entries = insert Text-discrete key (record e' { first_report = now }) nd.entries;
    }) in
    if reaches_quorum nd.options e'
    then notify nd.options.on_suspect (on_suspect target inc (reporters_list e')) loud
    else quiet

-- The incarnation on record, 0 for an unknown node.
abbrev pub known_incarnation : Option Member → ℤ
known_incarnation none = pos 0
known_incarnation (some m) = m.incarnation

unfoldable pub process_suspicion : NodeId → NodeId → ℤ → ℕ → Node → Node
process_suspicion reporter target inc now nd =
    let key = to_string target in
    if text_eqb key (local_key nd.membership)
    then handle_self_refutation inc now nd
    else elim (entry_at key nd) [
      | none ↦
          if ltb_ℤ inc (known_incarnation (member_at key nd.membership))
          then nd
          else report reporter target inc now (new_entry target inc) nd
      | some e ↦
          if ltb_ℤ inc e.incarnation
          then nd
          else if ltb_ℤ e.incarnation inc
          then report reporter target inc now (new_entry target inc) nd
          else report reporter target inc now e nd
    ]

abbrev pub clear_member : ℤ → Member → Member
clear_member inc m =
    if leb_ℤ m.incarnation inc then record m { status = alive; incarnation = inc } else m

unfoldable pub clear_suspect : NodeId → ℤ → Node → Node
clear_suspect target inc nd =
    let key = to_string target in
    elim (entry_at key nd) [
      | none ↦ with_members (modify_member key (clear_member inc)) nd
      | some e ↦
          let dropped = record nd { entries = delete Text-discrete key nd.entries } in
          let cleared = with_members (modify_member key (clear_member inc)) dropped in
          if ltb_ℤ inc e.incarnation
          then nd
          else notify nd.options.on_clear (on_clear target inc) cleared
    ]

-- The entry has been suspected for the timeout and is not confirmed yet.
unfoldable pub is_due : Options → ℕ → SuspectEntry → Bool
is_due o now e =
    not (e.first_report == 0)
    && not e.confirmed
    && leb_ℤ o.suspicion_timeout (sub_time now e.first_report)

-- The entry was confirmed and its retention is over.
unfoldable pub is_over : Options → ℕ → SuspectEntry → Bool
is_over o now e =
    not (e.first_report == 0)
    && e.confirmed
    && ltb_ℤ (pos 0) o.confirmed_retention
    && not (e.cleanup_after == 0)
    && ltb e.cleanup_after now

unfoldable pub confirm_entry : Options → ℕ → Text → SuspectEntry → SuspectEntry
confirm_entry o now key e =
    let e' = record e { confirmed = true; confirmed_at = now } in
    if is_due o now e
    then (if ltb_ℤ (pos 0) o.confirmed_retention
        then record e' { cleanup_after = now + pos_part o.confirmed_retention }
        else e')
    else e

-- `toCleanup` and `toConfirm`
unfoldable pub to_cleanup : Options → ℕ → List (Text × SuspectEntry) → List Text
to_cleanup o now es = keys (select (λ e. is_over o now e.1) es)

unfoldable pub to_confirm : Options → ℕ → List (Text × SuspectEntry) → List (NodeId × ℤ)
to_confirm o now es = map (λ e. (e.1.target, e.1.incarnation)) (select (λ e. is_due o now e.1) es)

abbrev pub fail_member : Member → Member
fail_member m = record m { status = failed }

-- The loop that fails the members to confirm.
unfoldable pub fail_all : List (NodeId × ℤ) → MembershipList → MembershipList
fail_all [] ml = ml
fail_all ((target, inc) ∷ cs) ml = fail_all cs (modify_member (to_string target) fail_member ml)

-- `confirmedMembers`: those that are in the list. The loop removes none, so the list at its start
-- tells.
unfoldable pub confirmed_members : MembershipList → List (NodeId × ℤ) → List Callback
confirmed_members ml [] = []
confirmed_members ml ((target, inc) ∷ cs) = elim (member_at (to_string target) ml) [
  | none ↦ confirmed_members ml cs
  | some m ↦ on_confirm target inc ∷ confirmed_members ml cs
]

unfoldable pub check : ℕ → Node → Node
check now nd =
    let o = nd.options in
    let due = to_confirm o now nd.entries in
    record nd {
      entries =
          delete_all Text-discrete (to_cleanup o now nd.entries)
            (map_values (confirm_entry o now) nd.entries);
      membership = fail_all due nd.membership;
      spawned = nd.spawned ++ (if o.on_confirm then confirmed_members nd.membership due else []);
    }

unfoldable pub get_timeout : Node → ℤ
get_timeout nd = nd.options.suspicion_timeout
