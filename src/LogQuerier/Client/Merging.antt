-- ===== src/LogQuerier/Client/Merging.antt =====
-- The count of matches does not depend on the order in which the results come.
use distributed_group_member.LogQuerier.Words.{contains}
use distributed_group_member.LogQuerier.Words.Laws.{contains-append}
use distributed_group_member.Common.{
  ◌≡◌, refl, sym, ap, ap₂, ◌∙◌, ℕ, ◌+◌, Bool, List, [], ◌∷◌, ◌++◌, none, some, arith, map, length,
  if◌then◌else◌, Option-cases, inl, inr, length-append, All, false, true,
}
use distributed_group_member.Types.{Text}
use distributed_group_member.LogQuerier.Client.{
  Result, Merges, exhausted, passes, should_count, Screen, total_line, match_line, print_result,
  print_results, present,
}

-- The results that are matches.
unfoldable pub matches : List Result → ℕ
matches [] = 0
matches (r ∷ rs) = let rest = matches rs in elim r.err [ none ↦ rest + 1 | some e ↦ rest ]

unfoldable pub sum : List ℕ → ℕ
sum [] = 0
sum (n ∷ ns) = n + sum ns

unfoldable pub matches_of_all : List (List Result) → ℕ
unfolding sum
matches_of_all cs = sum (map matches cs)

matches_of_all-passes :
    (r : Result) (before after : List (List Result)) (c : List Result)
    → matches_of_all (before ++ (r ∷ c) ∷ after)
      ≡ matches (r ∷ []) + matches_of_all (before ++ c ∷ after)
unfolding matches_of_all matches sum
matches_of_all-passes r [] after c = ground arith
matches_of_all-passes r (b ∷ before) after c =
    ground (arith, matches_of_all-passes r before after c)

matches_of_all-empty :
    (cs : List (List Result)) → All (λ (c : List Result). c ≡ []) cs → matches_of_all cs ≡ 0
unfolding matches_of_all sum matches
matches_of_all-empty [] a = refl
matches_of_all-empty (c ∷ cs) a = ap₂ (λ m n. m + n) (ap matches a.0) (matches_of_all-empty cs a.1)

-- However the channels are merged, the matches are those of all channels.
pub matches-Merges :
    {cs : List (List Result)} {out : List Result} → Merges cs out → matches out ≡ matches_of_all cs
unfolding matches
matches-Merges {cs} (exhausted empty) = sym (matches_of_all-empty cs empty)
matches-Merges {cs} (passes {out} r before after c e m) =
    ground (arith, ap matches_of_all e, matches-Merges m, matches_of_all-passes r before after c)

total-print_results :
    (counting : Bool) (rs : List Result) (sc : Screen)
    → (print_results counting rs sc).total ≡ sc.total + (if counting then matches rs else 0)
unfolding print_results print_result matches
total-print_results counting [] sc = ground arith
total-print_results counting (r ∷ rs) sc =
    ground (arith, total-print_results counting rs (print_result counting r sc))

output-print_result :
    (counting : Bool) (r : Result) (rs : List Result) (sc : Screen)
    → length (print_result counting r sc).output + matches rs ≡ length sc.output + matches (r ∷ rs)
unfolding print_result matches
output-print_result counting r rs sc = elim (Option-cases r.err) [
  | inl e ↦ ground (arith, e, length-append sc.output (match_line r ∷ []))
  | inr (x, e) ↦ ground (arith, e)
]

output-print_results :
    (counting : Bool) (rs : List Result) (sc : Screen)
    → length (print_results counting rs sc).output ≡ length sc.output + matches rs
unfolding print_results print_result matches
output-print_results counting [] sc = omega arith
output-print_results counting (r ∷ rs) sc =
    output-print_results counting rs (print_result counting r sc)
    ∙ output-print_result counting r rs sc

-- However the results of the connections are merged: unless the query asks grep to count, the total that
-- is printed is the number of matches of all connections together; and a line is printed for each
-- match, and one for the total, if there is one.
pub present_total :
    {cs : List (List Result)} {out : List Result} (input : Text)
    → Merges cs out
    → let sc = present input out in
      (sc.total ≡ (if should_count input then matches_of_all cs else 0))
      × (length sc.output
          ≡ (if should_count input then matches_of_all cs + 1 else matches_of_all cs))
unfolding present
present_total {cs} {out} input m =
    let start : Screen = record { output = []; err_output = []; total = 0 } in
    let counting = should_count input in
    let sc = print_results counting out start in
    ground (
      arith,
      matches-Merges m,
      total-print_results counting out start,
      output-print_results counting out start,
      length-append sc.output (total_line sc.total ∷ []),
    )

-- With a total, the lines of the matches come first, and then the one of the total.
pub present-total_line :
    {cs : List (List Result)} {out : List Result} (input : Text)
    → Merges cs out
    → should_count input ≡ true
    → (ls : List Text) × ((present input out).output ≡ ls ++ total_line (matches_of_all cs) ∷ [])
      × (length ls ≡ matches_of_all cs)
unfolding present
present-total_line {cs} {out} input m counts =
    let start : Screen = record { output = []; err_output = []; total = 0 } in
    let sc = print_results true out start in
    let all : matches out ≡ matches_of_all cs = matches-Merges m in
    rw counts (
      sc.output,
      ap (λ n. sc.output ++ total_line n ∷ [])
          (omega (arith, total-print_results true out start, all)),
      omega (arith, output-print_results true out start, all),
    )

uncounted :
    (input : Text) (rs : List Result) → should_count input ≡ false → (present input rs).total ≡ 0
unfolding present
uncounted input rs e =
    let start : Screen = record { output = []; err_output = []; total = 0 } in
    ground (arith, total-print_results (should_count input) rs start)

should_count_option :
    (input : Text) → contains input (b'-' ∷ b'c' ∷ []) ≡ true → should_count input ≡ false
unfolding should_count
should_count_option input e = rw e refl

-- A query that holds "-c" anywhere, as in a longer option or in what is searched for, is printed without a
-- total.
pub should_count_misses :
    (before after : Text) (rs : List Result)
    → (present (before ++ (b'-' ∷ b'c' ∷ []) ++ after) rs).total ≡ 0
should_count_misses before after rs =
    let input = before ++ (b'-' ∷ b'c' ∷ []) ++ after in
    uncounted input rs (should_count_option input (contains-append before (b'-' ∷ b'c' ∷ []) after))
