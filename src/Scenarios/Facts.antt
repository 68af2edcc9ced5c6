-- ===== src/Scenarios/Facts.antt =====
-- What holds of the states that the examples run on.
use mathlib.Core.List.{Perm}
use mathlib.Core.List.Perm
use distributed_group_member.Common.{
  zero, suc, ◌≡◌, refl, sym, ap, ◌≢◌, ℕ, ◌<◌, true, false, List, [], ◌∷◌, none, some, arith,
}
use distributed_group_member.Common.Dict.{lookup}
use distributed_group_member.Types.{NodeId, Member, to_string, text_eqb}
use distributed_group_member.Types.Keys.{to_string-injective, text_eqb_iff}
use distributed_group_member.Membership.{
  member_at, get_random_members, candidates, is_candidate, contains,
}
use distributed_group_member.Suspicion.{entry_at}
use distributed_group_member.Suspicion.Entries.{Inv}
use distributed_group_member.Scenarios.{
  self, peer, self_member, peer_member, two_members, calm, suspected_peer, open_entry, alarmed,
}

pub keys_apart : to_string self ≢ to_string peer
keys_apart e = ground (arith, ap (λ (n : NodeId). n.ip) (to_string-injective self peer e))

pub calm-Inv : Inv calm
calm-Inv = record {
  formed = record {
    keyed = (refl, (refl, tt));
    unique = ((λ e. keys_apart (sym e), tt), (tt, tt));
  };
  unique = tt;
  sound = tt;
  positive = omega arith;
}

pub alarmed-Inv : Inv alarmed
alarmed-Inv = record {
  formed = record {
    keyed = (refl, (refl, tt));
    unique = ((λ e. keys_apart (sym e), tt), (tt, tt));
  };
  unique = (tt, tt);
  sound = (
    record {
      keyed = refl;
      acted = λ h. omega arith;
      waiting = λ h. absurd (omega arith);
      confirmed_acted = λ h. omega arith;
    },
    tt,
  );
  positive = omega arith;
}

pub peer_calm : member_at (to_string peer) calm.membership ≡ some peer_member
unfolding lookup
peer_calm = ground (arith, keys_apart)

pub peer_alarmed : member_at (to_string peer) alarmed.membership ≡ some suspected_peer
unfolding lookup
peer_alarmed = ground (arith, keys_apart)

pub entry_alarmed : entry_at (to_string peer) alarmed ≡ some open_entry
unfolding lookup
entry_alarmed = ground arith

pub keys_apart_sym : to_string peer ≢ to_string self
keys_apart_sym e = keys_apart (sym e)

pub self_calm : member_at (to_string self) calm.membership ≡ some self_member
unfolding lookup
self_calm = ground arith

pub no_entry_calm : entry_at (to_string peer) calm ≡ none
unfolding lookup
no_entry_calm = refl

pub self-self : text_eqb (to_string self) (to_string self) ≡ true
self-self = (text_eqb_iff (to_string self) (to_string self)).1 refl

pub peer-self : text_eqb (to_string peer) (to_string self) ≡ false
peer-self = ground (arith, (text_eqb_iff (to_string peer) (to_string self)).0, keys_apart_sym)

-- A generator that keeps the order.
abbrev pub keep : List Member → List Member
keep ms = ms

pub keep-Perm : (ms : List Member) → Perm (keep ms) ms
keep-Perm ms = Perm.refl ms

pub drawn : (n : ℕ) → 0 < n → get_random_members keep n [] two_members ≡ peer_member ∷ []
unfolding get_random_members candidates is_candidate contains
drawn zero h = absurd (omega arith)
drawn (suc n) h = ground (arith, self-self, peer-self)

pub drawn_other :
    (n : ℕ) → 0 < n → get_random_members keep n (to_string self ∷ []) two_members ≡ peer_member ∷ []
unfolding get_random_members candidates is_candidate contains
drawn_other zero h = absurd (omega arith)
drawn_other (suc n) h =
    ground
      (arith, self-self, peer-self, (text_eqb_iff (to_string self) (to_string peer)).0, keys_apart)
