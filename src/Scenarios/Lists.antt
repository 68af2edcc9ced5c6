-- ===== src/Scenarios/Lists.antt =====
-- The theorems on the membership list at work.
use Prim.Native.Nat.{min}
use mathlib.Core.List.{Mem, mem-cons_self}
use distributed_group_member.Common.{
  ◌≡◌, ◌≢◌, Filters, List, ◌++◌, pos, [], ◌∷◌, arith, length, ◌*◌,
}
use distributed_group_member.Types.{Member, MemberUpdate, second}
use distributed_group_member.Membership.{
  MembershipList, update_of, unix, get_random_members, get_recent_updates,
}
use distributed_group_member.Membership.Recent.{IsYoung, get_recent_updates_effect}
use distributed_group_member.Scenarios.{peer_member, two_members}
use distributed_group_member.Scenarios.Facts.{keep, drawn}

later : pos 1 ≢ unix (7 * second)
unfolding unix
later = λ e. ground arith

abbrev newer_peer : Member
newer_peer = record peer_member { incarnation = pos 2 }

abbrev told : MembershipList
told = record two_members {
  recent_updates = update_of peer_member 1000 ∷ update_of peer_member 2000 ∷ [];
}

get_recent_updates_effect_example :
    let (us, ml') = get_recent_updates 1 3000 told in
    Filters (IsYoung told.update_window 3000) told.recent_updates ml'.recent_updates
    × ((rest : List MemberUpdate) × (ml'.recent_updates ≡ us ++ rest))
    × (length us ≡ min 1 (length ml'.recent_updates))
    × (get_recent_updates 1 3000 ml' ≡ (us, ml'))
    × (ml' ≡ record told { recent_updates = ml'.recent_updates })
get_recent_updates_effect_example = get_recent_updates_effect 1 3000 told

peer_drawn : Mem peer_member (get_random_members keep 3 [] two_members)
peer_drawn = rw (drawn 3 (omega arith)) mem-cons_self
