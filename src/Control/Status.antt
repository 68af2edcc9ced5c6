-- ===== src/Control/Status.antt =====
-- main.go, `StartCLI`: the lines that each of its rounds logs. How a duration is printed is a parameter.
-- A round reads the clock once for each member; here it is one time.
pub mod Laws
use distributed_group_member.Common.{
  ◌≡◌, refl, ap, ◌∙◌, ℕ, suc, ◌+◌, ◌*◌, ◌/◌, ◌^◌, ◌≤◌, Bool, true, false, List, [], ◌∷◌, ◌++◌, map,
  ℤ, pos, negsuc, sub_ℕ, ltb_ℤ, if◌then◌else◌, length, select, arith,
}
use distributed_group_member.Types.{
  Text, codes, to_string, MemberStatus, alive, suspected, failed, other, is_alive, is_suspected,
  is_failed, Member, MemberUpdate, sub_time, second, millisecond,
}
use distributed_group_member.Types.Decimal.{decimal, decimal_ℤ}
use distributed_group_member.Membership.{
  MembershipList, get_all_members, get_recent_updates, copy_member,
}
use distributed_group_member.Control.{status_text}

-- The three counters.
pub record Counts : Type 0 where
  pub alive_count : ℕ
  pub suspected_count : ℕ
  pub failed_count : ℕ

-- The `switch` on the status, as far as it counts.
unfoldable pub count_member : MemberStatus → Counts → Counts
count_member alive c = record c { alive_count = c.alive_count + 1 }
count_member suspected c = record c { suspected_count = c.suspected_count + 1 }
count_member failed c = record c { failed_count = c.failed_count + 1 }
count_member (other _) c = c

unfoldable pub count_all : List Member → Counts → Counts
unfolding count_member
count_all [] c = c
count_all (m ∷ ms) c = count_all ms (count_member m.status c)

abbrev pub no_counts : Counts
no_counts = record { alive_count = 0; suspected_count = 0; failed_count = 0 }

-- `Duration.Truncate(time.Millisecond)`, which rounds toward zero.
unfoldable pub truncate : ℤ → ℤ
truncate (pos n) = pos (n / millisecond * millisecond)
truncate (negsuc n) = sub_ℕ 0 ((n + 1) / millisecond * millisecond)

unfoldable pub summary_line : Counts → Text
summary_line c =
    codes "Summary: "
    ++ decimal c.alive_count
    ++ codes " alive, "
    ++ decimal c.suspected_count
    ++ codes " suspected, "
    ++ decimal c.failed_count
    ++ codes " failed"

unfoldable pub update_line : MemberUpdate → Text
update_line u =
    to_string u.node_id
    ++ codes " -> "
    ++ status_text u.status
    ++ codes " (Inc:"
    ++ decimal_ℤ u.incarnation
    ++ codes ")"

-- The part on the recent updates, if there are any.
unfoldable pub update_lines : List MemberUpdate → List Text
unfolding update_line
update_lines [] = []
update_lines (u ∷ us) =
    (codes "Recent updates (piggybacking): " ++ decimal (length (u ∷ us)))
    ∷ map update_line (u ∷ us)

module _ (show : ℤ → Text) (now : ℕ) where
  -- `statusInfo`
  unfoldable pub status_info : Member → Text
  status_info m = elim m.status [
    | alive ↦
        let heard = sub_time now m.last_heartbeat in
        if ltb_ℤ (pos (5 * second)) heard then codes " (stale: " ++ show heard ++ codes ")" else []
    | suspected ↦ codes " (suspected for: " ++ show (sub_time now m.suspicion_start) ++ codes ")"
    | failed ↦ codes " (failed)"
    | other _ ↦ []
  ]

  unfoldable pub line_head : Member → Text
  unfolding truncate
  line_head m =
      codes "  "
      ++ to_string m.id
      ++ codes " | "
      ++ status_text m.status
      ++ codes " | Inc:"
      ++ decimal_ℤ m.incarnation
      ++ codes " | LastHB:"
      ++ show (truncate (sub_time now m.last_heartbeat))
      ++ codes " ago"

  unfoldable pub status_line : Member → Text
  unfolding status_info line_head
  status_line m = line_head m ++ status_info m

  -- One round: the lines, and the list of members after it.
  unfoldable pub report : MembershipList → List Text × MembershipList
  unfolding status_line summary_line update_lines count_all
  report ml =
      let members = get_all_members ml in
      let (recent, ml') = get_recent_updates 10 now ml in
      (
        codes "=== MEMBERSHIP STATUS ==="
            ∷ (codes "Total members: " ++ decimal (length members))
            ∷ (map status_line members
                ++ summary_line (count_all members no_counts)
                  ∷ (update_lines recent ++ codes "========================" ∷ [])),
        ml',
      )
