-- ===== src/Types/Decimal.antt =====
-- The verb %d of the standard formatter, on integers, as bytes.
use distributed_group_member.Common.{
  ℕ, zero, suc, ◌+◌, ◌-◌, ◌*◌, ◌/◌, ◌%◌, ◌≤◌, ◌<◌, ◌≡◌, refl, ◌≢◌, ◌∙◌, sym, List, [], ◌∷◌, ◌++◌,
  arith, ltb, ◌==◌, if◌then◌else◌, ℤ, pos, negsuc, All, Bool-cases, inl, inr, ap, Option, none,
  some, some-injective,
}

-- The decimal digits of `n`, on fuel above `n`.
unfoldable pub digits_from : ℕ → ℕ → List ℕ
digits_from zero n = []
digits_from (suc f) n =
    let high = digits_from f (n / 10) in
    if ltb n 10 then (b'0' + n) ∷ [] else high ++ (b'0' + n % 10) ∷ []

unfoldable pub decimal : ℕ → List ℕ
unfolding digits_from
decimal n = digits_from (suc n) n

unfoldable pub decimal_ℤ : ℤ → List ℕ
unfolding decimal
decimal_ℤ (pos n) = decimal n
decimal_ℤ (negsuc n) = b'-' ∷ decimal (suc n)

-- The number that digits stand for, after those already read.
value : ℕ → List ℕ → ℕ
value acc [] = acc
value acc (c ∷ cs) = value (acc * 10 + (c - b'0')) cs

value-append : (acc : ℕ) (xs ys : List ℕ) → value acc (xs ++ ys) ≡ value (value acc xs) ys
unfolding value
value-append acc [] ys = refl
value-append acc (x ∷ xs) ys = value-append (acc * 10 + (x - b'0')) xs ys

value-digits_from : (f n : ℕ) → n < f → value 0 (digits_from f n) ≡ n
unfolding digits_from value
value-digits_from zero n h = elim h [ ]
value-digits_from (suc f) n h = elim (Bool-cases (ltb n 10)) [
  | inl e ↦ rw e (omega arith)
  | inr e ↦ rw e (
      value-append 0 (digits_from f (n / 10)) ((b'0' + n % 10) ∷ [])
      ∙ rw (value-digits_from f (n / 10) (ground arith)) (omega arith))
]

abbrev pub IsDigit : ℕ → Type 0
IsDigit c = (b'0' ≤ c) × (c ≤ b'9')

All-append : (xs ys : List ℕ) → All IsDigit xs → All IsDigit ys → All IsDigit (xs ++ ys)
All-append [] ys a b = b
All-append (x ∷ xs) ys a b = (a.0, All-append xs ys a.1 b)

digits_from-IsDigit : (f n : ℕ) → All IsDigit (digits_from f n)
unfolding digits_from
digits_from-IsDigit zero n = tt
digits_from-IsDigit (suc f) n = elim (Bool-cases (ltb n 10)) [
  | inl e ↦ rw e (ground arith)
  | inr e ↦ rw e (All-append _ _ (digits_from-IsDigit f (n / 10)) (omega arith))
]

pub decimal-injective : (a b : ℕ) → decimal a ≡ decimal b → a ≡ b
unfolding decimal
decimal-injective a b e =
    sym (value-digits_from (suc a) a (omega arith))
    ∙ ap (value 0) e
    ∙ value-digits_from (suc b) b (omega arith)

digits-ne-minus : (n : ℕ) (cs : List ℕ) → decimal n ≢ b'-' ∷ cs
unfolding decimal
digits-ne-minus n cs e = go (digits_from (suc n) n) (digits_from-IsDigit (suc n) n) e
  where
    go : (xs : List ℕ) → All IsDigit xs → xs ≡ b'-' ∷ cs → ⊥
    go [] a q = cc
    go (x ∷ xs) a q = ground arith

pub decimal_ℤ-injective : (a b : ℤ) → decimal_ℤ a ≡ decimal_ℤ b → a ≡ b
unfolding decimal_ℤ
decimal_ℤ-injective (pos m) (pos n) e = ap pos (decimal-injective m n e)
decimal_ℤ-injective (pos m) (negsuc n) e = absurd (digits-ne-minus m _ e)
decimal_ℤ-injective (negsuc m) (pos n) e = absurd (digits-ne-minus n _ (sym e))
decimal_ℤ-injective (negsuc m) (negsuc n) e =
    let same : suc m ≡ suc n = decimal-injective (suc m) (suc n) (cc) in ap negsuc (omega arith)

-- No colon occurs in a text.
abbrev pub IsColonFree : List ℕ → Type 0
IsColonFree = All (λ c. c ≢ b':')

pub decimal-IsDigit : (n : ℕ) → All IsDigit (decimal n)
unfolding decimal
decimal-IsDigit n = digits_from-IsDigit (suc n) n

digits_colon : (xs : List ℕ) → All IsDigit xs → IsColonFree xs
digits_colon [] a = tt
digits_colon (x ∷ xs) a = (omega arith, digits_colon xs a.1)

pub decimal_ℤ-IsColonFree : (a : ℤ) → IsColonFree (decimal_ℤ a)
unfolding decimal_ℤ decimal
decimal_ℤ-IsColonFree (pos n) = digits_colon _ (digits_from-IsDigit (suc n) n)
decimal_ℤ-IsColonFree (negsuc n) =
    (omega arith, digits_colon _ (digits_from-IsDigit (suc (suc n)) (suc n)))

-- The parts before and after the last colon.
split_last : List ℕ → Option (List ℕ × List ℕ)
split_last [] = none
split_last (c ∷ cs) = elim (split_last cs) [
  | none ↦ if c == b':' then some ([], cs) else none
  | some (a, b) ↦ some (c ∷ a, b)
]

split_last-none : (u : List ℕ) → IsColonFree u → split_last u ≡ none
unfolding split_last
split_last-none [] a = refl
split_last-none (c ∷ cs) a = rw (split_last-none cs a.1, split_last) (ground arith)

split_last-some : (xs u : List ℕ) → IsColonFree u → split_last (xs ++ b':' ∷ u) ≡ some (xs, u)
unfolding split_last
split_last-some [] u a = rw (split_last-none u a, split_last)
split_last-some (x ∷ xs) u a = rw (split_last-some xs u a, split_last)

-- A text with colons is cut at its last colon in one way.
pub last_colon-injective :
    (xs ys u v : List ℕ)
    → IsColonFree u
    → IsColonFree v
    → xs ++ b':' ∷ u ≡ ys ++ b':' ∷ v
    → (xs ≡ ys) × (u ≡ v)
last_colon-injective xs ys u v a b e =
    let same : ◌≡◌ {A = List ℕ × List ℕ} (xs, u) (ys, v) =
      some-injective _ _
        (sym (split_last-some xs u a) ∙ ap split_last e ∙ split_last-some ys v b) in
    (ap (λ p. p.0) same, ap (λ p. p.1) same)
