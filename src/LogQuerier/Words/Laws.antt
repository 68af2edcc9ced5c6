-- ===== src/LogQuerier/Words/Laws.antt =====
-- What `Fields` makes of a text.
use mathlib.Core.List.{append-nil}
use distributed_group_member.Common.{
  ◌≡◌, refl, sym, ap, ◌∙◌, ℕ, true, false, List, [], ◌∷◌, ◌++◌, arith, All, Bool-cases, inl, inr,
  ◌≢◌, if_cases,
}
use distributed_group_member.Types.{Text}
use distributed_group_member.LogQuerier.Words.{
  is_space, trim_left, trim_right, keep_unless_space, trim_space, attach, fields, unwords,
  has_prefix, contains,
}

-- A field: not empty, and without spaces.
abbrev pub IsWord : Text → Type 0
IsWord w = (w ≢ []) × All (λ (c : ℕ). is_space c ≡ false) w

-- The text behind a field: empty, or it goes on with a space.
abbrev Ends : Text → Type 0
Ends [] = Unit
Ends (d ∷ s) = is_space d ≡ true

attach_space :
    (c d : ℕ) (s : Text) (ws : List Text) → is_space d ≡ true → attach c (d ∷ s) ws ≡ (c ∷ []) ∷ ws
attach_space c d s [] e = refl
attach_space c d s (w ∷ ws) e = rw e refl

attach_word :
    (c d : ℕ) (w s : Text) (ws : List Text)
    → is_space d ≡ false
    → attach c (d ∷ s) (w ∷ ws) ≡ (c ∷ w) ∷ ws
attach_word c d w s ws e = rw e refl

fields-empty : fields [] ≡ []
unfolding fields
fields-empty = refl

-- Only the first character of the text behind counts.
attach_head : (c d : ℕ) (s t : Text) (ws : List Text) → attach c (d ∷ s) ws ≡ attach c (d ∷ t) ws
attach_head c d s t [] = refl
attach_head c d s t (w ∷ ws) = refl

attach_none : (c : ℕ) (s : Text) → attach c s [] ≡ (c ∷ []) ∷ []
attach_none c [] = refl
attach_none c (d ∷ s) = refl

attach-IsWord :
    (c : ℕ) (s : Text) (ws : List Text)
    → is_space c ≡ false
    → All IsWord ws
    → All IsWord (attach c s ws)
attach-IsWord c [] ws e a = ((λ h. absurd (ground (arith, h)), (e, tt)), a)
attach-IsWord c (d ∷ s) [] e a = ((λ h. absurd (ground (arith, h)), (e, tt)), a)
attach-IsWord c (d ∷ s) (w ∷ ws) e a =
    if_cases (λ (vs : List Text). All IsWord vs) (is_space d)
      (λ _. ((λ h. absurd (ground (arith, h)), (e, tt)), a))
      (λ _. ((λ h. absurd (ground (arith, h)), (e, a.0.1)), a.1))

fields-attach : (c : ℕ) (s : Text) → is_space c ≡ false → fields (c ∷ s) ≡ attach c s (fields s)
unfolding fields
fields-attach c s e = rw e refl

fields-space : (c : ℕ) (s : Text) → is_space c ≡ true → fields (c ∷ s) ≡ fields s
unfolding fields
fields-space c s e = rw e refl

fields-word :
    (c : ℕ) (w s : Text)
    → All (λ (x : ℕ). is_space x ≡ false) (c ∷ w)
    → Ends s
    → fields ((c ∷ w) ++ s) ≡ (c ∷ w) ∷ fields s
fields-word c [] [] a e = fields-attach c [] a.0
fields-word c [] (d ∷ s) a e = fields-attach c (d ∷ s) a.0 ∙ attach_space c d s (fields (d ∷ s)) e
fields-word c (d ∷ w) s a e =
    fields-attach c (d ∷ w ++ s) a.0
    ∙ ap (attach c (d ∷ w ++ s)) (fields-word d w s a.1 e)
    ∙ attach_word c d (d ∷ w) (w ++ s) (fields s) a.1.0

-- Every field of a text is not empty and holds no space.
pub fields-IsWord : (s : Text) → All IsWord (fields s)
unfolding fields
fields-IsWord [] = tt
fields-IsWord (c ∷ s) = elim (Bool-cases (is_space c)) [
  | inl e ↦ rw e (fields-IsWord s)
  | inr e ↦ rw e (attach-IsWord c s (fields s) e (fields-IsWord s))
]

fields-one : (w : Text) → IsWord w → fields w ≡ w ∷ []
unfolding fields
fields-one [] a = absurd (a.0 refl)
fields-one (c ∷ w) a = ap fields (sym (append-nil (c ∷ w))) ∙ fields-word c w [] a.1 tt

fields-cons : (w s : Text) → IsWord w → fields (w ++ 32 ∷ s) ≡ w ∷ fields s
unfolding is_space
fields-cons [] s a = absurd (a.0 refl)
fields-cons (c ∷ w) s a =
    fields-word c w (32 ∷ s) a.1 refl ∙ ap (λ vs. (c ∷ w) ∷ vs) (fields-space 32 s refl)

-- Words that are joined by single spaces are the fields of the text.
pub fields-unwords : (ws : List Text) → All IsWord ws → fields (unwords ws) ≡ ws
unfolding unwords
fields-unwords [] a = unfold fields in refl
fields-unwords (w ∷ []) a = fields-one w a.0
fields-unwords (w ∷ v ∷ ws) a =
    fields-cons w (unwords (v ∷ ws)) a.0 ∙ ap (λ vs. w ∷ vs) (fields-unwords (v ∷ ws) a.1)

fields-trim_left : (s : Text) → fields (trim_left s) ≡ fields s
unfolding trim_left fields
fields-trim_left [] = refl
fields-trim_left (c ∷ s) = ground (arith, fields-trim_left s)

-- A text that is trimmed at its end begins as it did.
trim_right_head : (s t : Text) (d : ℕ) → trim_right s ≡ d ∷ t → (s' : Text) × (s ≡ d ∷ s')
unfolding trim_right
trim_right_head [] t d e = absurd (ground (arith, e))
trim_right_head (c ∷ s) t d e = go (trim_right s) e
  where
    go : (r : Text) → keep_unless_space c r ≡ d ∷ t → (s' : Text) × (c ∷ s ≡ d ∷ s')
    go [] h = (s, ground (arith, h))
    go (x ∷ r) h = (s, ground (arith, h))

fields-trim_right : (s : Text) → fields (trim_right s) ≡ fields s
unfolding trim_right
fields-trim_right [] = refl
fields-trim_right (c ∷ s) = go (trim_right s) refl (fields-trim_right s)
  where
    go :
        (r : Text)
        → trim_right s ≡ r
        → fields (trim_right s) ≡ fields s
        → fields (keep_unless_space c r) ≡ fields (c ∷ s)
    go [] e ih =
        let none_left : fields s ≡ [] = sym ih ∙ ap fields e ∙ fields-empty in
        elim (Bool-cases (is_space c)) [
          | inl q ↦ rw q (fields-empty ∙ sym (fields-space c s q ∙ none_left))
          | inr q ↦ rw q (
              fields-attach c [] q
              ∙ ap (attach c []) fields-empty
              ∙ sym (fields-attach c s q ∙ ap (attach c s) none_left ∙ attach_none c s))
        ]
    go (d ∷ r) e ih =
        let (s', begins) = trim_right_head s r d e in
        let same : fields (d ∷ r) ≡ fields s = ap fields (sym e) ∙ ih in
        elim (Bool-cases (is_space c)) [
          | inl q ↦ fields-space c (d ∷ r) q ∙ same ∙ sym (fields-space c s q)
          | inr q ↦
              fields-attach c (d ∷ r) q
              ∙ ap (attach c (d ∷ r)) same
              ∙ attach_head c d r s' (fields s)
              ∙ ap (λ x. attach c x (fields s)) (sym begins)
              ∙ sym (fields-attach c s q)
        ]

-- Spaces around a text are no part of its fields.
pub fields-trim_space : (s : Text) → fields (trim_space s) ≡ fields s
unfolding trim_space
fields-trim_space s = fields-trim_right (trim_left s) ∙ fields-trim_left s

has_prefix-append : (p s : Text) → has_prefix (p ++ s) p ≡ true
unfolding has_prefix
has_prefix-append [] s = refl
has_prefix-append (c ∷ p) s = ground (arith, has_prefix-append p s)

contains-has_prefix : (s p : Text) → has_prefix s p ≡ true → contains s p ≡ true
unfolding contains
contains-has_prefix [] p e = e
contains-has_prefix (c ∷ s) p e = rw e refl

pub contains-append : (a p b : Text) → contains (a ++ p ++ b) p ≡ true
unfolding contains
contains-append [] p b = contains-has_prefix (p ++ b) p (has_prefix-append p b)
contains-append (c ∷ a) p b = ground (arith, contains-append a p b)
