-- ===== src/Membership.antt =====
-- utils/membership.go: the membership list. A method that writes returns the new list. The lock
-- makes each method atomic; the clock is read once for a method and is its argument `now`.
pub mod Invariant
pub mod Laws
pub mod Sampling
pub mod Recent
use distributed_group_member.Common.{
  ℕ, ◌+◌, ◌*◌, ◌/◌, Bool, true, false, ◌&&◌, not, List, [], ◌∷◌, ◌++◌, Option, none, some, ℤ, pos,
  sub_ℕ, inc32, ltb, leb, ltb_ℤ, leb_ℤ, if◌then◌else◌, select, take, length, map,
}
use distributed_group_member.Common.Dict.{lookup, insert, delete, values}
use distributed_group_member.Types.{
  Text, Text-discrete, NodeId, to_string, text_eqb, Member, MemberUpdate, MemberStatus, alive,
  suspected, failed, is_alive, is_suspected, second,
}

pub record MembershipList : Type 0 where
  pub local_node : NodeId
  pub members : List (Text × Member)
  pub incarnation : ℤ
  pub recent_updates : List MemberUpdate
  pub update_window : ℕ

-- `ml.Members[k]`, `ml.Members[k] = m` and `delete(ml.Members, k)`. A write through a pointer that
-- was read at the key `k` is a store at `k`.
abbrev pub member_at : Text → MembershipList → Option Member
member_at k ml = lookup Text-discrete k ml.members

abbrev pub store : Text → Member → MembershipList → MembershipList
store k m ml = record ml { members = insert Text-discrete k m ml.members }

abbrev pub remove : Text → MembershipList → MembershipList
remove k ml = record ml { members = delete Text-discrete k ml.members }

abbrev pub local_key : MembershipList → Text
local_key ml = to_string ml.local_node

-- `time.Time.Unix`: whole seconds since 1970, which is 62135596800 seconds after the zero time.
unfoldable pub unix : ℕ → ℤ
unix now = sub_ℕ (now / second) 62_135_596_800

-- A member that has just been heard of.
abbrev pub fresh_member : NodeId → ℤ → MemberStatus → ℕ → Member
fresh_member id inc status now = record {
  id = id;
  incarnation = inc;
  status = status;
  last_heartbeat = now;
  suspicion_start = 0;
}

unfoldable pub new_membership_list : NodeId → ℕ → MembershipList
new_membership_list local now = record {
  local_node = local;
  members = insert Text-discrete (to_string local) (fresh_member local (pos 0) alive now) [];
  incarnation = pos 0;
  recent_updates = [];
  update_window = 5 * second;
}

abbrev pub update_of : Member → ℕ → MemberUpdate
update_of m now = record {
  node_id = m.id;
  incarnation = m.incarnation;
  status = m.status;
  timestamp = now;
}

abbrev pub add_recent_update : Member → ℕ → MembershipList → MembershipList
add_recent_update m now ml = record ml {
  recent_updates = ml.recent_updates ++ update_of m now ∷ [];
}

unfoldable pub add_member : Member → ℕ → MembershipList → MembershipList
add_member m now ml =
    let added = add_recent_update m now (store (to_string m.id) m ml) in
    elim (member_at (to_string m.id) ml) [
      | none ↦ added
      | some existing ↦ if ltb_ℤ existing.incarnation m.incarnation then added else ml
    ]

-- What `UpdateMember` writes into the member.
unfoldable pub updated_member : MemberStatus → ℤ → ℕ → Member → Member
updated_member status inc now m =
    let m' = record m { status = status; incarnation = inc } in
    if is_alive status
    then record m' { last_heartbeat = now }
    else if is_suspected status && is_alive m.status
    then record m' { suspicion_start = now }
    else m'

unfoldable pub update_member : Text → MemberStatus → ℤ → ℕ → MembershipList → MembershipList
unfolding updated_member
update_member k status inc now ml = elim (member_at k ml) [
  | none ↦ ml
  | some m ↦
      if leb_ℤ m.incarnation inc
      then add_recent_update (updated_member status inc now m) now
          (store k (updated_member status inc now m) ml)
      else ml
]

unfoldable pub remove_member : Text → ℕ → MembershipList → MembershipList
remove_member k now ml = elim (member_at k ml) [
  | none ↦ ml
  | some m ↦ remove k (add_recent_update (record m { status = failed }) now ml)
]

unfoldable pub contains : Text → List Text → Bool
contains k [] = false
contains k (e ∷ es) = elim (text_eqb e k) [ true ↦ true | false ↦ contains k es ]

-- The test of the loop over the members in `GetRandomMembers`.
unfoldable pub is_candidate : List Text → MembershipList → Text × Member → Bool
unfolding contains
is_candidate exclude ml (k, m) =
    not (contains k exclude) && is_alive m.status && not (text_eqb k (local_key ml))

unfoldable pub candidates : List Text → MembershipList → List Member
candidates exclude ml = values (select (is_candidate exclude ml) ml.members)

-- `shuffle` is what the random generator makes of the candidates.
unfoldable pub get_random_members :
    (List Member → List Member) → ℕ → List Text → MembershipList → List Member
unfolding candidates
get_random_members shuffle n exclude ml =
    let found = candidates exclude ml in
    let count = if ltb (length found) n then length found else n in
    if leb (length found) 0 then [] else take count (shuffle found)

-- `update.Timestamp.After(now - window)`, with the window moved over so that nothing is truncated.
abbrev pub is_recent : ℕ → ℕ → MemberUpdate → Bool
is_recent window now u = ltb now (u.timestamp + window)

unfoldable pub get_recent_updates : ℕ → ℕ → MembershipList → List MemberUpdate × MembershipList
get_recent_updates limit now ml =
    let filtered = select (is_recent ml.update_window now) ml.recent_updates in
    let count = if ltb (length filtered) limit then length filtered else limit in
    (take count filtered, record ml { recent_updates = filtered })

-- The copies lack the start of the suspicion.
abbrev pub copy_member : Member → Member
copy_member m = record m { suspicion_start = 0 }

unfoldable pub get_all_members : MembershipList → List Member
get_all_members ml = map copy_member (values ml.members)

unfoldable pub get_suspected_members : MembershipList → List Member
get_suspected_members ml = select (λ m. is_suspected m.status) (values ml.members)

unfoldable pub increment_incarnation : MembershipList → MembershipList
increment_incarnation ml = record ml { incarnation = inc32 ml.incarnation }

unfoldable pub refresh_local_node : ℕ → MembershipList → MembershipList
refresh_local_node now ml =
    let node = record ml.local_node { timestamp = unix now } in
    store (to_string node) (fresh_member node ml.incarnation alive now)
      (record (remove (local_key ml) ml) { local_node = node })
