-- ===== src/Suspicion/Expiry.antt =====
-- `check`: which members it fails and which entries it drops.
use distributed_group_member.Suspicion.Loops.{
  entry_holds, expire, member_at-fail_all, confirmed-mem,
}
use distributed_group_member.Common.Dict.Loops.{lookup-delete_all, is_in-select}
use mathlib.Core.List.{Memᴰ}
use mathlib.Core.Option
use distributed_group_member.Common.{
  ◌≡◌, ◌≢◌, ℕ, ◌+◌, ◌≤◌, ◌<◌, true, false, List, [], ◌∷◌, ◌++◌, some, arith, pos, if◌then◌else◌,
  ◌^◌,
}
use distributed_group_member.Common.Dict.{map_values, lookup-map_values}
use distributed_group_member.Types.{Text, Text-discrete, Member, failed, sub_time}
use distributed_group_member.Membership.{member_at}
use distributed_group_member.Node.{Node, Options, SuspectEntry, Callback, on_confirm}
use distributed_group_member.Suspicion.{
  entry_at, fail_member, is_due, is_over, confirm_entry, to_cleanup, check,
}
use distributed_group_member.Suspicion.Entries.{Inv}

pub check_effect :
    (now : ℕ) (nd : Node) (k : Text)
    → Inv nd
    → (member_at k (check now nd).membership ≡ (
        if entry_holds (is_due nd.options now) (entry_at k nd)
        then Option.map fail_member (member_at k nd.membership)
        else member_at k nd.membership))
      × (entry_at k (check now nd) ≡ expire nd.options now k (entry_at k nd))
unfolding check to_cleanup
check_effect now nd k v =
    let o = nd.options in
    let confirmed = map_values (confirm_entry o now) nd.entries in
    (
      member_at-fail_all o now nd.entries nd.membership k v.unique v.sound,
      ground (
        arith,
        lookup-delete_all Text-discrete k (to_cleanup o now nd.entries) confirmed,
        is_in-select Text-discrete (λ (x : Text × SuspectEntry). is_over o now x.1) k nd.entries
            v.unique,
        lookup-map_values Text-discrete (confirm_entry o now) k nd.entries,
      ),
    )

kept_if_open :
    (o : Options) (now : ℕ) (e : SuspectEntry) → e.confirmed ≡ false → is_over o now e ≡ false
unfolding is_over
kept_if_open o now e c = ground arith

confirm_entry_due :
    (o : Options) (now : ℕ) (k : Text) (e : SuspectEntry)
    → is_due o now e ≡ true
    → ((confirm_entry o now k e).confirmed ≡ true) × ((confirm_entry o now k e).confirmed_at ≡ now)
unfolding confirm_entry
confirm_entry_due o now k e h = ground arith

due_in_time :
    (o : Options) (now d : ℕ) (e : SuspectEntry)
    → o.suspicion_timeout ≡ pos d
    → d < 2 ^ 63
    → e.first_report ≢ 0
    → e.confirmed ≡ false
    → e.first_report + d ≤ now
    → is_due o now e ≡ true
unfolding is_due sub_time
due_in_time o now d e p h f c t = ground arith

mem_append_right : (c : Callback) (cs ds : List Callback) → Memᴰ c ds → Memᴰ c (cs ++ ds)
mem_append_right c [] ds h = h
mem_append_right c (x ∷ cs) ds h = Memᴰ.tail (mem_append_right c cs ds h)

-- In a node with the invariant, a timeout below 2 ^ 63 ns and the callback set, an entry that was
-- acted on, is not confirmed and is as old as the timeout, of a member on record, is confirmed by
-- `check`: the member is Failed with its incarnation as it was, the entry is confirmed, and the
-- callback is started.
pub check_confirms :
    (now d : ℕ) (nd : Node) (k : Text) (e : SuspectEntry) (m : Member)
    → Inv nd
    → nd.options.suspicion_timeout ≡ pos d
    → d < 2 ^ 63
    → nd.options.on_confirm ≡ true
    → entry_at k nd ≡ some e
    → e.first_report ≢ 0
    → e.confirmed ≡ false
    → e.first_report + d ≤ now
    → member_at k nd.membership ≡ some m
    → (member_at k (check now nd).membership ≡ some (record m { status = failed }))
      × ((e' : SuspectEntry) × (entry_at k (check now nd) ≡ some e')
          × (e'.confirmed ≡ true)
          × (e'.confirmed_at ≡ now))
      × Memᴰ (on_confirm e.target e.incarnation) (check now nd).spawned
check_confirms now d nd k e m v timeout small on at f c t at_m =
    let o = nd.options in
    let due = due_in_time o now d e timeout small f c t in
    let (members, entries) = check_effect now nd k v in
    (
      ground (arith, members, due),
      (
        confirm_entry o now k e,
        ground (arith, entries, kept_if_open o now e c),
        (confirm_entry_due o now k e due).0,
        (confirm_entry_due o now k e due).1,
      ),
      unfold check in
          simp on (
            mem_append_right (on_confirm e.target e.incarnation) nd.spawned _
              (confirmed-mem o now nd.membership k e m nd.entries v.sound at due at_m)),
    )
