-- ===== src/Membership/Sampling.antt =====
-- `GetRandomMembers`: what a sample holds, whatever the random generator does.
use mathlib.Core.List.{Mem, Mem-prop, Perm, not-mem-nil, mem-cons, mem-cons_self}
use mathlib.Core.List.Perm
use mathlib.Core.Logic.Or
use Prim.Native.Nat.{min}
use native.Mathlib.Bridge.{from_ℕ}
use mathlib.Core.List as LibList
use distributed_group_member.Common.{
  ◌≡◌, refl, sym, ap, ◌∙◌, subst, subst₂, ◌≢◌, ℕ, zero, suc, Bool, true, List, [], ◌∷◌, Option,
  some, arith, All, select, select-pass, select-fail, take, length, length-take, Bool-cases, inl,
  inr, leb, if_pos, if_neg,
}
use distributed_group_member.Common.Dict.{IsUnique, IsFresh, lookup, values}
use distributed_group_member.Types.{Text, Text-discrete, to_string, text_eqb, Member, alive}
use distributed_group_member.Types.Keys.{text_eqb_iff}
use distributed_group_member.Membership.{
  MembershipList, member_at, local_key, contains, is_candidate, candidates, get_random_members,
}
use distributed_group_member.Membership.Invariant.{IsWellFormed, IsKeyed}

contains-mem : (k : Text) (es : List Text) → Mem k es → contains k es ≡ true
unfolding contains
contains-mem k [] h = absurd (not-mem-nil h)
contains-mem k (e ∷ es) h = elim (Bool-cases (text_eqb e k)) [
  | inl p ↦ rw (p, contains)
  | inr p ↦
      rw (p, contains)
        (Or.elim (hlevel) (mem-cons.0 h) (λ q. absurd (cc ((text_eqb_iff e k).1 (sym q))))
          (contains-mem k es))
]

-- What the loop of `GetRandomMembers` asks of a member.
pub record IsEligible (exclude : List Text) (ml : MembershipList) (m : Member) : Type 0 where
  pub is_alive : m.status ≡ alive
  pub not_local : to_string m.id ≢ local_key ml
  pub not_excluded : ¬ Mem (to_string m.id) exclude
  pub recorded : member_at (to_string m.id) ml ≡ some m

IsFresh-lookup-ne :
    (k j : Text) (v : Member) (m : List (Text × Member))
    → IsFresh k m
    → lookup Text-discrete j m ≡ some v
    → k ≢ j
unfolding lookup
IsFresh-lookup-ne k j v [] f e q = cc
IsFresh-lookup-ne k j v ((i, w) ∷ m) f e q = elim (Text-discrete i j) [
  | yes p ↦ f.0 (p ∙ sym q)
  | no p ↦ IsFresh-lookup-ne k j v m f.1 (sym (if_neg (Text-discrete i j) p (some w) _) ∙ e) q
]

Option-set : IsSet (Option Member)
Option-set = hlevel

abbrev Found : (Text × Member → Bool) → List (Text × Member) → Member → Type 0
Found p ms m = (lookup Text-discrete (to_string m.id) ms ≡ some m) × (p (to_string m.id, m) ≡ true)

Found-prop :
    (p : Text × Member → Bool) (ms : List (Text × Member)) (m : Member) → IsProp (Found p ms m)
Found-prop p ms m = hlevel Option-set

Found-head :
    (p : Text × Member → Bool) (m w : Member) (k : Text) (ms : List (Text × Member))
    → k ≡ to_string w.id
    → p (k, w) ≡ true
    → m ≡ w
    → Found p ((k, w) ∷ ms) m
unfolding lookup
Found-head p m w k ms a b e =
    let key : k ≡ to_string m.id = a ∙ ap (λ (x : Member). to_string x.id) (sym e) in
    (
      if_pos (Text-discrete k (to_string m.id)) key (some w) _ ∙ ap some (sym e),
      subst₂ (λ j (x : Member). p (j, x) ≡ true) key (sym e) b,
    )

Found-tail :
    (p : Text × Member → Bool) (m w : Member) (k : Text) (ms : List (Text × Member))
    → IsFresh k ms
    → Found p ms m
    → Found p ((k, w) ∷ ms) m
unfolding lookup
Found-tail p m w k ms f h = (
  if_neg (Text-discrete k (to_string m.id)) (IsFresh-lookup-ne k (to_string m.id) m ms f h.0)
        (some w) (lookup Text-discrete (to_string m.id) ms)
      ∙ h.0,
  h.1,
)

-- A value that a loop over a well-formed map selects is the entry at its own key.
select-Found :
    (p : Text × Member → Bool) (m : Member) (ms : List (Text × Member))
    → All IsKeyed ms
    → IsUnique ms
    → Mem m (values (select p ms))
    → Found p ms m
select-Found p m [] a u h = absurd (not-mem-nil h)
select-Found p m ((k, w) ∷ ms) a u h = elim (Bool-cases (p (k, w))) [
  | inl e ↦
      let h' = subst (λ l. Mem m (values l)) (select-pass p (k, w) ms e) h in
      Or.elim (Found-prop p ((k, w) ∷ ms) m) (mem-cons.0 h') (Found-head p m w k ms a.0 e)
        (λ r. Found-tail p m w k ms u.0 (select-Found p m ms a.1 u.1 r))
  | inr e ↦
      let h' = subst (λ l. Mem m (values l)) (select-fail p (k, w) ms e) h in
      Found-tail p m w k ms u.0 (select-Found p m ms a.1 u.1 h')
]

mem-take : (n : ℕ) (m : Member) (ms : List Member) → Mem m (take n ms) → Mem m ms
mem-take zero m ms h = absurd (not-mem-nil h)
mem-take (suc n) m [] h = h
mem-take (suc n) m (x ∷ ms) h =
    Or.elim Mem-prop (mem-cons.0 h) (λ e. mem-cons.1 (Or.inl e))
      (λ r. mem-cons.1 (Or.inr (mem-take n m ms r)))

-- The count of the library in native numbers.
length-from_ℕ : (ms : List Member) → length ms ≡ from_ℕ (LibList.length ms)
length-from_ℕ [] = refl
length-from_ℕ (m ∷ ms) = ap suc (length-from_ℕ ms)

module _ (shuffle : List Member → List Member)
    (permutes : (ms : List Member) → Perm (shuffle ms) ms) where
  sample-mem :
      (n : ℕ) (exclude : List Text) (ml : MembershipList) (m : Member)
      → Mem m (get_random_members shuffle n exclude ml)
      → Mem m (candidates exclude ml)
  unfolding get_random_members
  sample-mem n exclude ml m h =
      let found = candidates exclude ml in
      elim (Bool-cases (leb (length found) 0)) [
        | inl e ↦ absurd (not-mem-nil {a = m} (rw e at h))
        | inr e ↦ (Perm.mem_iff (permutes found)).0 (mem-take _ m (shuffle found) (rw e at h))
      ]

  -- On a well-formed list, for every shuffle that permutes, each member of a sample is alive, is
  -- recorded under its own key, is not the local node and is not excluded.
  pub get_random_members-IsEligible :
      (n : ℕ) (exclude : List Text) (ml : MembershipList) (m : Member)
      → IsWellFormed ml
      → Mem m (get_random_members shuffle n exclude ml)
      → IsEligible exclude ml m
  unfolding candidates is_candidate
  get_random_members-IsEligible n exclude ml m w h =
      let f =
        select-Found (is_candidate exclude ml) m ml.members w.keyed w.unique
          (sample-mem n exclude ml m h) in
      record {
        is_alive = ground (arith, f.1);
        not_local = λ e. ground (arith, f.1, (text_eqb_iff (to_string m.id) (local_key ml)).1 e);
        not_excluded = λ q. ground (arith, f.1, contains-mem (to_string m.id) exclude q);
        recorded = f.0;
      }

  -- For every shuffle that permutes, a sample has as many members as were asked for, or all
  -- candidates if there are fewer.
  pub length-get_random_members :
      (n : ℕ) (exclude : List Text) (ml : MembershipList)
      → length (get_random_members shuffle n exclude ml) ≡ min n (length (candidates exclude ml))
  unfolding get_random_members
  length-get_random_members n exclude ml =
      let found = candidates exclude ml in
      let same : length (shuffle found) ≡ length found =
        length-from_ℕ (shuffle found)
        ∙ ap from_ℕ (Perm.length-eq (permutes found))
        ∙ sym (length-from_ℕ found) in
      ground
        (arith, same, length-take (length found) (shuffle found), length-take n (shuffle found))
