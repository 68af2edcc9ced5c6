-- ===== src/Membership/Recent.antt =====
-- The window of recent updates, which messages carry.
use Prim.Native.Nat.{min}
use distributed_group_member.Common.{
  ◌≡◌, refl, ap, ℕ, zero, suc, ◌+◌, ◌≤◌, ◌<◌, List, [], ◌∷◌, ◌++◌, arith, select, take, length,
  length-take, Filters, select-Filters, length-append, select-append, select_idem,
}
use distributed_group_member.Types.{MemberUpdate, Member}
use distributed_group_member.Membership.{
  MembershipList, is_recent, get_recent_updates, add_recent_update, update_of,
}

-- The update is younger than the window.
abbrev pub IsYoung : ℕ → ℕ → MemberUpdate → Type 0
IsYoung window now u = now < u.timestamp + window

take-rest : (n : ℕ) (us : List MemberUpdate) → (rest : List MemberUpdate) × (us ≡ take n us ++ rest)
take-rest zero us = (us, refl)
take-rest (suc n) [] = ([], refl)
take-rest (suc n) (u ∷ us) = let (rest, e) = take-rest n us in (rest, ap (◌∷◌ u) e)

-- `GetRecentUpdates` leaves in the list exactly the updates that are younger than the window, in
-- their order, and nothing else changes. It returns the first of those, `limit` of them or all if there are
-- fewer; and another call at that time returns the same and changes nothing.
pub get_recent_updates_effect :
    (limit now : ℕ) (ml : MembershipList)
    → let (us, ml') = get_recent_updates limit now ml in
      Filters (IsYoung ml.update_window now) ml.recent_updates ml'.recent_updates
      × ((rest : List MemberUpdate) × (ml'.recent_updates ≡ us ++ rest))
      × (length us ≡ min limit (length ml'.recent_updates))
      × (get_recent_updates limit now ml' ≡ (us, ml'))
      × (ml' ≡ record ml { recent_updates = ml'.recent_updates })
unfolding get_recent_updates
get_recent_updates_effect limit now ml =
    let young = select (is_recent ml.update_window now) ml.recent_updates in
    (
      select-Filters (IsYoung ml.update_window now) (is_recent ml.update_window now)
          (λ u e. ground (arith, e)) (λ u e young. ground (arith, e, young)) ml.recent_updates,
      take-rest _ young,
      ground (arith, length-take limit young, length-take (length young) young),
      rw (select_idem (is_recent ml.update_window now) ml.recent_updates),
      refl,
    )

take-append : (n : ℕ) (us vs : List MemberUpdate) → n ≤ length us → take n (us ++ vs) ≡ take n us
take-append zero us vs h = refl
take-append (suc n) [] vs h = absurd (omega arith)
take-append (suc n) (u ∷ us) vs h = ap (◌∷◌ u) (take-append n us vs (omega arith))

-- While at least `limit` updates are younger than the window, the answer of `GetRecentUpdates` is
-- the same with a new update as without it.
pub get_recent_updates-add_recent_update :
    (limit now t : ℕ) (m : Member) (ml : MembershipList)
    → limit ≤ length (select (is_recent ml.update_window now) ml.recent_updates)
    → (get_recent_updates limit now (add_recent_update m t ml)).0
      ≡ (get_recent_updates limit now ml).0
unfolding get_recent_updates
get_recent_updates-add_recent_update limit now t m ml h =
    let p = is_recent ml.update_window now in
    let old = select p ml.recent_updates in
    let new = select p (update_of m t ∷ []) in
    rw (select-append p ml.recent_updates (update_of m t ∷ []))
      (ground (arith, length-append old new, take-append limit old new))
