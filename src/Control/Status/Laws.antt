-- ===== src/Control/Status/Laws.antt =====
-- What the lines of `StartCLI` in main.go say of the membership list.
use mathlib.Core.List.{Memᴰ}
use mathlib.Core.List.Memᴰ
use distributed_group_member.Common.{
  ◌≡◌, refl, ap, ℕ, suc, ◌+◌, ◌-◌, ◌^◌, ◌≤◌, Bool, true, false, List, [], ◌∷◌, ◌++◌, map, ℤ, pos,
  saturate64, if◌then◌else◌, length, select, arith,
}
use distributed_group_member.Common.Dict.{values}
use distributed_group_member.Types.{
  Text, codes, MemberStatus, alive, suspected, failed, other, is_alive, is_suspected, is_failed,
  Member, sub_time,
}
use distributed_group_member.Types.Decimal.{decimal}
use distributed_group_member.Membership.{
  MembershipList, get_all_members, get_recent_updates, copy_member,
}
use distributed_group_member.Control.Status.{
  Counts, count_member, count_all, no_counts, status_info, line_head, status_line, summary_line,
  update_lines, report,
}

abbrev bit : Bool → ℕ
bit b = if b then 1 else 0

abbrev pub is_other : MemberStatus → Bool
is_other (other _) = true
is_other _ = false

count_member_adds :
    (s : MemberStatus) (c : Counts)
    → ((count_member s c).alive_count ≡ bit (is_alive s) + c.alive_count)
      × ((count_member s c).suspected_count ≡ bit (is_suspected s) + c.suspected_count)
      × ((count_member s c).failed_count ≡ bit (is_failed s) + c.failed_count)
unfolding count_member
count_member_adds alive c = omega arith
count_member_adds suspected c = omega arith
count_member_adds failed c = omega arith
count_member_adds (other _) c = omega arith

-- How many members have a status that passes the test.
abbrev pub with_status : (MemberStatus → Bool) → List Member → ℕ
with_status p ms = length (select (λ m. p m.status) ms)

with_status-cons :
    (p : MemberStatus → Bool) (m : Member) (ms : List Member)
    → with_status p (m ∷ ms) ≡ bit (p m.status) + with_status p ms
with_status-cons p m ms = ground arith

ruleset counting = (arith, with_status-cons)

count_all_adds :
    (ms : List Member) (c : Counts)
    → let d = count_all (map copy_member ms) c in
      (d.alive_count ≡ c.alive_count + with_status is_alive ms)
      × (d.suspected_count ≡ c.suspected_count + with_status is_suspected ms)
      × (d.failed_count ≡ c.failed_count + with_status is_failed ms)
unfolding count_all
count_all_adds [] c = omega arith
count_all_adds (m ∷ ms) c = omega (
  arith,
  with_status-cons is_alive m ms,
  with_status-cons is_suspected m ms,
  with_status-cons is_failed m ms,
  count_member_adds m.status c,
  count_all_adds ms (count_member m.status c),
)

one_status :
    (s : MemberStatus)
    → bit (is_alive s) + bit (is_suspected s) + bit (is_failed s) + bit (is_other s) ≡ 1
one_status alive = refl
one_status suspected = refl
one_status failed = refl
one_status (other _) = refl

with_status_adds :
    (ms : List Member)
    → with_status is_alive ms
        + with_status is_suspected ms
        + with_status is_failed ms
        + with_status is_other ms
      ≡ length ms
with_status_adds [] = refl
with_status_adds (m ∷ ms) = omega (
  arith,
  with_status-cons is_alive m ms,
  with_status-cons is_suspected m ms,
  with_status-cons is_failed m ms,
  with_status-cons is_other m ms,
  one_status m.status,
  with_status_adds ms,
)

length-map : (ms : List Member) → length (map copy_member ms) ≡ length ms
length-map [] = refl
length-map (m ∷ ms) = ap suc (length-map ms)

unfoldable pub counted : List Member → Counts
counted ms = record {
  alive_count = with_status is_alive ms;
  suspected_count = with_status is_suspected ms;
  failed_count = with_status is_failed ms;
}

count_all_lem : (ms : List Member) → count_all (map copy_member ms) no_counts ≡ counted ms
unfolding counted
count_all_lem ms = ground (arith, count_all_adds ms no_counts)

-- A round of the status log has the number of all members, one line for each, a summary with the number
-- of members of each status, and the recent updates. The numbers add up to that of all members if no
-- member has a status other than the three.
pub report_adds_up :
    (show : ℤ → Text) (now : ℕ) (ml : MembershipList)
    → let ms = values ml.members in
      ((report show now ml).0
        ≡ codes "=== MEMBERSHIP STATUS ==="
          ∷ (codes "Total members: " ++ decimal (length ms))
          ∷ (map (status_line show now) (map copy_member ms)
              ++ summary_line (counted ms)
                ∷ (update_lines (get_recent_updates 10 now ml).0
                    ++ codes "========================" ∷ [])))
      × (with_status is_other ms ≡ 0
          → (counted ms).alive_count + (counted ms).suspected_count + (counted ms).failed_count
            ≡ length ms)
unfolding report get_all_members counted
report_adds_up show now ml = (
  rw (count_all_lem (values ml.members), length-map (values ml.members)) refl,
  λ none. omega (arith, with_status_adds (values ml.members)),
)

sub_time_zero : (now : ℕ) → 2 ^ 63 ≤ now → sub_time now 0 ≡ pos (2 ^ 63 - 1)
unfolding sub_time saturate64
sub_time_zero now late = ground arith

status_info_suspected :
    (show : ℤ → Text) (now : ℕ) (m : Member)
    → 2 ^ 63 ≤ now
    → m.status ≡ suspected
    → status_info show now (copy_member m)
      ≡ codes " (suspected for: " ++ show (pos (2 ^ 63 - 1)) ++ codes ")"
unfolding status_info
status_info_suspected show now m late e = rw (e, status_info, sub_time_zero now late) refl

-- From 2 ^ 63 ns after the zero time on, which is in the year 293, every suspected member is logged as
-- suspected for the greatest duration, whenever its suspicion started.
pub suspected_forever :
    (show : ℤ → Text) (now : ℕ) (ml : MembershipList) (m : Member)
    → 2 ^ 63 ≤ now
    → Memᴰ m (values ml.members)
    → m.status ≡ suspected
    → Memᴰ
        (line_head show now (copy_member m)
          ++ (codes " (suspected for: " ++ show (pos (2 ^ 63 - 1)) ++ codes ")"))
        (report show now ml).0
unfolding report get_all_members status_line
suspected_forever show now ml m late recorded e =
    let line : Memᴰ (status_line show now (copy_member m))
        (map (status_line show now) (map copy_member (values ml.members))) =
      Memᴰ.map (status_line show now) (Memᴰ.map copy_member recorded) in
    rw (← (status_info_suspected show now m late e))
      (Memᴰ.tail (Memᴰ.tail (Memᴰ.append_left _ line)))
