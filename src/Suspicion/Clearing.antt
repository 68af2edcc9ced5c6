-- ===== src/Suspicion/Clearing.antt =====
-- `ClearSuspect` and `check` against the invariant of a node's suspicions.
use distributed_group_member.Common.{
  inl, inr, ℕ, Bool, true, false, List, [], ◌∷◌, arith, All, ℤ, ltb_ℤ, Bool-cases, Option-cases,
}
use distributed_group_member.Common.Dict.{
  IsUnique, delete, delete-All, delete_all-All, delete-IsUnique, delete_all-IsUnique, map_values,
  map_values-IsUnique,
}
use distributed_group_member.Types.{Text, Text-discrete, NodeId, to_string}
use distributed_group_member.Node.{Node, Options, SuspectEntry, Callback, on_clear}
use distributed_group_member.Suspicion.{
  entry_at, notify, modify_member, clear_member, clear_suspect, is_due, confirm_entry, to_confirm,
  check,
}
use distributed_group_member.Suspicion.Members.{
  modify_member-Advances, modify_member-IsWellFormed, fail_all-Advances, fail_all-IsWellFormed,
  clear_member-IsForward,
}
use distributed_group_member.Suspicion.Entries.{IsSound, Inv, Keeps, Keeps-refl}

cleared-Keeps :
    (k : Text) (inc : ℤ) (nd : Node) (es : List (Text × SuspectEntry))
    → IsUnique es
    → All (IsSound nd.options) es
    → Inv nd
    → Keeps nd
        (record nd { membership = modify_member k (clear_member inc) nd.membership; entries = es })
cleared-Keeps k inc nd es u s v = record {
  inv = record {
    formed =
        modify_member-IsWellFormed k (clear_member inc) nd.membership
          (λ m. (clear_member-IsForward inc m).0) v.formed;
    unique = u;
    sound = s;
    positive = v.positive;
  };
  advances = modify_member-Advances k (clear_member inc) nd.membership (clear_member-IsForward inc);
}

notify-Keeps : (b : Bool) (c : Callback) (nd nd' : Node) → Keeps nd nd' → Keeps nd (notify b c nd')
unfolding notify
notify-Keeps false c nd nd' k = k
notify-Keeps true c nd nd' k = record {
  inv = record {
    formed = k.inv.formed;
    unique = k.inv.unique;
    sound = k.inv.sound;
    positive = k.inv.positive;
  };
  advances = k.advances;
}

-- `ClearSuspect` keeps the invariant, every member and every incarnation on record.
pub clear_suspect-Keeps :
    (target : NodeId) (inc : ℤ) (nd : Node) → Inv nd → Keeps nd (clear_suspect target inc nd)
unfolding clear_suspect
clear_suspect-Keeps target inc nd v =
    let key = to_string target in
    let all = cleared-Keeps key inc nd nd.entries v.unique v.sound v in
    let fewer =
      cleared-Keeps key inc nd (delete Text-discrete key nd.entries)
        (delete-IsUnique Text-discrete key nd.entries v.unique)
        (delete-All Text-discrete (IsSound nd.options) key nd.entries v.sound) v in
    let same = Keeps-refl nd v in
    elim (Option-cases (entry_at key nd)) [
      | inl e ↦ rw (e, clear_suspect) all
      | inr (x, e) ↦ elim (Bool-cases (ltb_ℤ inc x.incarnation)) [
        | inl old ↦ rw (e, clear_suspect, old) same
        | inr new ↦
            rw (e, clear_suspect, new)
              (notify-Keeps nd.options.on_clear (on_clear target inc) nd _ fewer)
      ]
    ]

confirm_entry-IsSound :
    (o : Options) (now : ℕ) (k : Text) (e : SuspectEntry)
    → IsSound o (k, e)
    → IsSound o (k, confirm_entry o now k e)
unfolding confirm_entry is_due
confirm_entry-IsSound o now k e s = record {
  keyed = ground (arith, s.keyed);
  acted = λ q. ground (arith, s.acted);
  waiting = λ q. ground (arith, s.waiting);
  confirmed_acted = λ q r. ground (arith, s.confirmed_acted);
}

map_confirm-IsSound :
    (o : Options) (now : ℕ) (es : List (Text × SuspectEntry))
    → All (IsSound o) es
    → All (IsSound o) (map_values (confirm_entry o now) es)
unfolding map_values
map_confirm-IsSound o now [] a = tt
map_confirm-IsSound o now ((k, e) ∷ es) a =
    (confirm_entry-IsSound o now k e a.0, map_confirm-IsSound o now es a.1)

-- `check` keeps the invariant, every member and every incarnation on record.
pub check-Keeps : (now : ℕ) (nd : Node) → Inv nd → Keeps nd (check now nd)
unfolding check
check-Keeps now nd v =
    let o = nd.options in
    let due = to_confirm o now nd.entries in
    record {
      inv = record {
        formed = fail_all-IsWellFormed due nd.membership v.formed;
        unique =
            delete_all-IsUnique Text-discrete _ _
              (map_values-IsUnique Text-discrete (confirm_entry o now) nd.entries v.unique);
        sound =
            delete_all-All Text-discrete (IsSound o) _ _
              (map_confirm-IsSound o now nd.entries v.sound);
        positive = v.positive;
      };
      advances = fail_all-Advances due nd.membership;
    }
