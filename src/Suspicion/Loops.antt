-- ===== src/Suspicion/Loops.antt =====
-- The loops of `check` over the entries, at one key.
use mathlib.Core.List.{Memᴰ}
use mathlib.Core.Option
use distributed_group_member.Common.{
  ◌≡◌, refl, sym, ap, ◌∙◌, subst, ◌≢◌, inl, inr, ℕ, Bool, true, false, List, [], ◌∷◌, Option, none,
  some, arith, All, ℤ, Bool-cases, Option-cases, select-pass, select-fail, if◌then◌else◌,
  some-injective,
}
use distributed_group_member.Common.Dict.{IsUnique, IsFresh, lookup}
use distributed_group_member.Types.{Text, Text-discrete, NodeId, to_string, Member}
use distributed_group_member.Membership.{MembershipList, member_at}
use distributed_group_member.Node.{Options, SuspectEntry, Callback, on_confirm}
use distributed_group_member.Suspicion.{
  modify_member, fail_member, fail_all, is_due, is_over, confirm_entry, to_confirm,
  confirmed_members,
}
use distributed_group_member.Suspicion.Members.{member_at-modify_member}
use distributed_group_member.Suspicion.Entries.{IsSound}

abbrev pub Entries : Type 0
Entries = List (Text × SuspectEntry)

-- The entry at a key passes a test.
abbrev pub entry_holds : (SuspectEntry → Bool) → Option SuspectEntry → Bool
entry_holds p none = false
entry_holds p (some e) = p e

IsFresh-lookup : (k : Text) (es : Entries) → IsFresh k es → lookup Text-discrete k es ≡ none
unfolding lookup
IsFresh-lookup k [] f = refl
IsFresh-lookup k ((j, e) ∷ es) f = ground (arith, IsFresh-lookup k es f.1)

lookup-head :
    (k : Text) (e : SuspectEntry) (es : Entries) → lookup Text-discrete k ((k, e) ∷ es) ≡ some e
unfolding lookup
lookup-head k e es = ground arith

lookup-rest :
    (j k : Text) (e : SuspectEntry) (es : Entries)
    → j ≢ k
    → lookup Text-discrete k ((j, e) ∷ es) ≡ lookup Text-discrete k es
unfolding lookup
lookup-rest j k e es h = ground arith

lookup-nil : (k : Text) → lookup {V = SuspectEntry} Text-discrete k [] ≡ none
unfolding lookup
lookup-nil k = refl

-- One round of that loop.
fail_step :
    (o : Options) (now : ℕ) (j k : Text) (e : SuspectEntry) (es : Entries) (ml : MembershipList)
    → IsFresh j es
    → j ≡ to_string e.target
    → is_due o now e ≡ true
    → (if entry_holds (is_due o now) (lookup Text-discrete k es)
        then Option.map fail_member
            (member_at k (modify_member (to_string e.target) fail_member ml))
        else member_at k (modify_member (to_string e.target) fail_member ml))
      ≡ (if entry_holds (is_due o now) (lookup Text-discrete k ((j, e) ∷ es))
          then Option.map fail_member (member_at k ml)
          else member_at k ml)
fail_step o now j k e es ml f key due = elim (Text-discrete j k) [
  | yes q ↦
      rw
        (
          IsFresh-lookup k es (subst (λ i. IsFresh i es) q f),
          subst (λ i. lookup Text-discrete k ((i, e) ∷ es) ≡ some e) (sym q) (lookup-head k e es),
          due,
        )
        (ground (arith, member_at-modify_member (to_string e.target) fail_member ml k))
  | no q ↦
      rw (lookup-rest j k e es q)
        (ground (arith, member_at-modify_member (to_string e.target) fail_member ml k))
]

idle_step :
    (o : Options) (now : ℕ) (j k : Text) (e : SuspectEntry) (es : Entries) (ml : MembershipList)
    → IsFresh j es
    → is_due o now e ≡ false
    → (if entry_holds (is_due o now) (lookup Text-discrete k es)
        then Option.map fail_member (member_at k ml)
        else member_at k ml)
      ≡ (if entry_holds (is_due o now) (lookup Text-discrete k ((j, e) ∷ es))
          then Option.map fail_member (member_at k ml)
          else member_at k ml)
idle_step o now j k e es ml f idle = elim (Text-discrete j k) [
  | yes q ↦ rw (
    IsFresh-lookup k es (subst (λ i. IsFresh i es) q f),
    subst (λ i. lookup Text-discrete k ((i, e) ∷ es) ≡ some e) (sym q) (lookup-head k e es),
    idle,
  )
  | no q ↦ rw (lookup-rest j k e es q)
]

-- Which members the loop over the entries that are due fails.
pub member_at-fail_all :
    (o : Options) (now : ℕ) (es : Entries) (ml : MembershipList) (k : Text)
    → IsUnique es
    → All (IsSound o) es
    → member_at k (fail_all (to_confirm o now es) ml) ≡ (
        if entry_holds (is_due o now) (lookup Text-discrete k es)
        then Option.map fail_member (member_at k ml)
        else member_at k ml)
unfolding to_confirm fail_all
member_at-fail_all o now [] ml k u s = rw (lookup-nil k)
member_at-fail_all o now ((j, e) ∷ es) ml k u s =
    let test = λ (x : Text × SuspectEntry). is_due o now x.1 in
    elim (Bool-cases (is_due o now e)) [
      | inl due ↦ rw (select-pass test (j, e) es due) (
          member_at-fail_all o now es (modify_member (to_string e.target) fail_member ml) k u.1 s.1
          ∙ fail_step o now j k e es ml u.0 s.0.keyed due)
      | inr idle ↦
          rw (select-fail test (j, e) es idle)
            (member_at-fail_all o now es ml k u.1 s.1 ∙ idle_step o now j k e es ml u.0 idle)
    ]

-- What is left of an entry.
abbrev pub expire : Options → ℕ → Text → Option SuspectEntry → Option SuspectEntry
expire o now k none = none
expire o now k (some e) = if is_over o now e then none else some (confirm_entry o now k e)

confirmed-cons :
    (c : Callback) (ml : MembershipList) (t : NodeId) (i : ℤ) (cs : List (NodeId × ℤ))
    → Memᴰ c (confirmed_members ml cs)
    → Memᴰ c (confirmed_members ml ((t, i) ∷ cs))
unfolding confirmed_members
confirmed-cons c ml t i cs h = elim (Option-cases (member_at (to_string t) ml)) [
  | inl e ↦ rw (e, confirmed_members) h
  | inr (m, e) ↦ rw (e, confirmed_members) (Memᴰ.tail h)
]

confirmed-head :
    (ml : MembershipList) (t : NodeId) (i : ℤ) (cs : List (NodeId × ℤ)) (m : Member)
    → member_at (to_string t) ml ≡ some m
    → Memᴰ (on_confirm t i) (confirmed_members ml ((t, i) ∷ cs))
unfolding confirmed_members
confirmed-head ml t i cs m e = rw (e, confirmed_members) (Memᴰ.head refl)

-- A due entry whose member is in the list starts the callback.
pub confirmed-mem :
    (o : Options) (now : ℕ) (ml : MembershipList) (k : Text) (e : SuspectEntry) (m : Member)
    (es : Entries)
    → All (IsSound o) es
    → lookup Text-discrete k es ≡ some e
    → is_due o now e ≡ true
    → member_at k ml ≡ some m
    → Memᴰ (on_confirm e.target e.incarnation) (confirmed_members ml (to_confirm o now es))
unfolding to_confirm
confirmed-mem o now ml k e m [] s p d q = absurd (cc (lookup-nil k))
confirmed-mem o now ml k e m ((j, x) ∷ es) s p d q =
    let test = λ (y : Text × SuspectEntry). is_due o now y.1 in
    elim (Text-discrete j k) [
      | yes r ↦
          let same : x ≡ e = some-injective x e (
            sym (lookup-head j x es)
            ∙ subst (λ i. lookup Text-discrete i ((j, x) ∷ es) ≡ some e) (sym r) p) in
          rw (select-pass test (j, x) es (subst (λ y. is_due o now y ≡ true) (sym same) d)) (
            rw same (
              confirmed-head ml e.target e.incarnation _ m (
                subst (λ i. member_at i ml ≡ some m)
                  (sym r ∙ s.0.keyed ∙ ap (λ (y : SuspectEntry). to_string y.target) same) q)))
      | no r ↦
          let rest = confirmed-mem o now ml k e m es s.1 (sym (lookup-rest j k x es r) ∙ p) d q in
          elim (Bool-cases (is_due o now x)) [
            | inl due ↦
                rw (select-pass test (j, x) es due)
                  (confirmed-cons _ ml x.target x.incarnation _ rest)
            | inr idle ↦ rw (select-fail test (j, x) es idle) rest
          ]
    ]
