-- ===== src/LogQuerier/Hosts/Order.antt =====
-- Texts in ascending order.
use mathlib.Core.Logic.Or
use mathlib.Core.List.{
  Perm, not-mem-nil, eq-or-mem_of_mem-cons, Mem, Nodup, Nodup-cons, mem-cons_self, mem-cons_of_mem,
}
use mathlib.Core.List.Perm
use distributed_group_member.Common.{
  ◌≡◌, refl, sym, ap, ap₂, ◌∙◌, ◌≢◌, true, false, List, [], ◌∷◌, arith, All, inl, inr, subst, ◌↔◌,
  Bool-cases, if_cases,
}
use distributed_group_member.Common.Dict.Loops.{is_in}
use distributed_group_member.Types.{Text, Text-discrete}
use distributed_group_member.LogQuerier.Hosts.{text_ltb, insert_text, sort_strings}

text_ltb_irrefl : (s : Text) → text_ltb s s ≡ false
unfolding text_ltb
text_ltb_irrefl [] = refl
text_ltb_irrefl (c ∷ s) = ground (arith, text_ltb_irrefl s)

text_ltb_trans : (s t u : Text) → text_ltb s t ≡ true → text_ltb t u ≡ true → text_ltb s u ≡ true
unfolding text_ltb
text_ltb_trans s [] u p q = absurd (ground (arith, p))
text_ltb_trans s (d ∷ t) [] p q = absurd (ground (arith, q))
text_ltb_trans [] (d ∷ t) (e ∷ u) p q = refl
text_ltb_trans (c ∷ s) (d ∷ t) (e ∷ u) p q = ground (arith, text_ltb_trans s t u)

text_ltb_total : (s t : Text) → s ≢ t → text_ltb s t ≡ false → text_ltb t s ≡ true
unfolding text_ltb
text_ltb_total [] [] n p = absurd (n refl)
text_ltb_total [] (d ∷ t) n p = absurd (ground (arith, p))
text_ltb_total (c ∷ s) [] n p = refl
text_ltb_total (c ∷ s) (d ∷ t) n p = elim (Text-discrete s t) [
  | yes q ↦ ground (arith, n, q)
  | no q ↦ ground (arith, text_ltb_total s t q)
]

-- Every text is below all later ones.
abbrev pub IsAscending : List Text → Type 0
IsAscending [] = Unit
IsAscending (x ∷ xs) = All (λ (y : Text). text_ltb x y ≡ true) xs × IsAscending xs

insert_text-All :
    (P : Text → Type 0) (x : Text) (l : List Text) → P x → All P l → All P (insert_text x l)
unfolding insert_text
insert_text-All P x [] p a = (p, tt)
insert_text-All P x (y ∷ ys) p a =
    if_cases (λ (vs : List Text). All P vs) (text_ltb x y) (λ _. (p, a))
      (λ _. (a.0, insert_text-All P x ys p a.1))

ascends_through :
    (x y : Text) (l : List Text)
    → text_ltb x y ≡ true
    → All (λ (z : Text). text_ltb y z ≡ true) l
    → All (λ (z : Text). text_ltb x z ≡ true) l
ascends_through x y [] p a = tt
ascends_through x y (z ∷ l) p a = (text_ltb_trans x y z p a.0, ascends_through x y l p a.1)

insert_text-IsAscending :
    (x : Text) (l : List Text) → ¬ Mem x l → IsAscending l → IsAscending (insert_text x l)
unfolding insert_text
insert_text-IsAscending x [] n a = (tt, tt)
insert_text-IsAscending x (y ∷ ys) n a = elim (Bool-cases (text_ltb x y)) [
  | inl e ↦ rw e ((e, ascends_through x y ys e a.0), a)
  | inr e ↦
      let below = text_ltb_total x y (λ q. n (subst (λ z. Mem x (z ∷ ys)) q mem-cons_self)) e in
      rw e (
        insert_text-All (λ (z : Text). text_ltb y z ≡ true) x ys below a.0,
        insert_text-IsAscending x ys (λ m. n (mem-cons_of_mem y m)) a.1,
      )
]

insert_text-Perm : (x : Text) (l : List Text) → Perm (insert_text x l) (x ∷ l)
unfolding insert_text
insert_text-Perm x [] = Perm.refl (x ∷ [])
insert_text-Perm x (y ∷ ys) =
    if_cases (λ (vs : List Text). Perm vs (x ∷ y ∷ ys)) (text_ltb x y) (λ _. Perm.refl (x ∷ y ∷ ys))
      (λ _. Perm.trans (Perm.cons y (insert_text-Perm x ys)) (Perm.swap x y ys))

pub sort_strings-Perm : (l : List Text) → Perm (sort_strings l) l
unfolding sort_strings
sort_strings-Perm [] = Perm.refl []
sort_strings-Perm (h ∷ hs) =
    Perm.trans (insert_text-Perm h (sort_strings hs)) (Perm.cons h (sort_strings-Perm hs))

pub sort_strings-IsAscending : (l : List Text) → Nodup l → IsAscending (sort_strings l)
unfolding sort_strings
sort_strings-IsAscending [] n = tt
sort_strings-IsAscending (h ∷ hs) n =
    let (fresh, rest) = Nodup-cons.0 n in
    insert_text-IsAscending h (sort_strings hs)
      (λ m. fresh ((Perm.mem_iff (sort_strings-Perm hs)).0 m)) (sort_strings-IsAscending hs rest)

is_in_empty : (x : Text) → is_in Text-discrete x [] ≡ false
unfolding is_in
is_in_empty x = refl

pub is_in_head : (x : Text) (l : List Text) → is_in Text-discrete x (x ∷ l) ≡ true
unfolding is_in
is_in_head x l = ground arith

pub is_in_tail :
    (x y : Text) (l : List Text) → y ≢ x → is_in Text-discrete x (y ∷ l) ≡ is_in Text-discrete x l
unfolding is_in
is_in_tail x y l n = ground arith

pub is_in_iff : (x : Text) (l : List Text) → (is_in Text-discrete x l ≡ true) ↔ Mem x l
unfolding is_in
is_in_iff x [] = ((λ e. absurd (ground (arith, e))), (λ m. absurd (not-mem-nil m)))
is_in_iff x (y ∷ l) = elim (Text-discrete y x) [
  | yes q ↦ ((λ e. subst (λ z. Mem z (y ∷ l)) q mem-cons_self), (λ m. ground (arith, q)))
  | no q ↦ (
    (λ e. mem-cons_of_mem y ((is_in_iff x l).0 (ground (arith, e)))),
    (λ m.
        let holds_prop : IsProp (is_in Text-discrete x (y ∷ l) ≡ true) = hlevel in
        Or.elim holds_prop (eq-or-mem_of_mem-cons m) (λ e. absurd (q (sym e)))
          (λ m'. ground (arith, (is_in_iff x l).1 m'))),
  )
]

is_in_lower :
    (x : Text) (l : List Text)
    → All (λ (y : Text). text_ltb x y ≡ true) l
    → is_in Text-discrete x l ≡ false
unfolding is_in
is_in_lower x [] a = refl
is_in_lower x (y ∷ l) a = elim (Text-discrete y x) [
  | yes q ↦ absurd (ground (arith, a.0, text_ltb_irrefl x, q))
  | no q ↦ ground (arith, is_in_lower x l a.1)
]

below_other :
    (x y : Text) (l : List Text)
    → text_ltb x y ≡ true
    → IsAscending (y ∷ l)
    → is_in Text-discrete x (y ∷ l) ≡ false
below_other x y l p a = is_in_lower x (y ∷ l) (p, ascends_through x y l p a.0)

heads_equal :
    (x y : Text) (xs ys : List Text)
    → IsAscending (x ∷ xs)
    → IsAscending (y ∷ ys)
    → ((h : Text) → is_in Text-discrete h (x ∷ xs) ≡ is_in Text-discrete h (y ∷ ys))
    → x ≡ y
heads_equal x y xs ys a b same = elim (Text-discrete x y) [
  | yes q ↦ q
  | no q ↦ elim (Bool-cases (text_ltb x y)) [
    | inl e ↦ absurd (ground (arith, same x, is_in_head x xs, below_other x y ys e b))
    | inr e ↦
        absurd
          (ground (arith, same y, is_in_head y ys, below_other y x xs (text_ltb_total x y q e) a))
  ]
]

tails_same :
    (x : Text) (xs ys : List Text) (h : Text)
    → IsAscending (x ∷ xs)
    → IsAscending (x ∷ ys)
    → is_in Text-discrete h (x ∷ xs) ≡ is_in Text-discrete h (x ∷ ys)
    → is_in Text-discrete h xs ≡ is_in Text-discrete h ys
tails_same x xs ys h a b same = elim (Text-discrete x h) [
  | yes q ↦
      subst (λ z. is_in Text-discrete z xs ≡ is_in Text-discrete z ys) q
        (is_in_lower x xs a.0 ∙ sym (is_in_lower x ys b.0))
  | no q ↦ sym (is_in_tail h x xs q) ∙ same ∙ is_in_tail h x ys q
]

-- Two ascending lists with the same members are one list.
pub IsAscending-eq :
    (l l' : List Text)
    → IsAscending l
    → IsAscending l'
    → ((h : Text) → is_in Text-discrete h l ≡ is_in Text-discrete h l')
    → l ≡ l'
IsAscending-eq [] [] a b same = refl
IsAscending-eq [] (y ∷ ys) a b same =
    absurd (ground (arith, same y, is_in_head y ys, is_in_empty y))
IsAscending-eq (x ∷ xs) [] a b same =
    absurd (ground (arith, same x, is_in_head x xs, is_in_empty x))
IsAscending-eq (x ∷ xs) (y ∷ ys) a b same =
    let e = heads_equal x y xs ys a b same in
    let b' : IsAscending (x ∷ ys) = subst (λ z. IsAscending (z ∷ ys)) (sym e) b in
    let same' : (h : Text) → is_in Text-discrete h (x ∷ xs) ≡ is_in Text-discrete h (x ∷ ys) =
      λ h. same h ∙ ap (λ z. is_in Text-discrete h (z ∷ ys)) (sym e) in
    ap₂ ◌∷◌ e (IsAscending-eq xs ys a.1 b.1 (λ h. tails_same x xs ys h a b' (same' h)))
