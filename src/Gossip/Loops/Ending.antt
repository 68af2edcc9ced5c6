-- ===== src/Gossip/Loops/Ending.antt =====
-- `Stop` of detectors/gossip.go comes to its end: what it waits for can always happen.
use distributed_group_member.Common.{
  ◌≡◌, refl, sym, ℕ, ◌+◌, ◌<◌, Bool, true, false, List, [], ◌∷◌, ◌++◌, All, ◌⊎◌, inl, inr, if_cases,
  subst, arith,
}
use distributed_group_member.Node.Ticking.{
  Goroutine, LoopStep, LoopStep-empty, Runs, still, Runs-end, any_closed, has,
}
use distributed_group_member.Gossip.Loops.{
  LoopKind, no_stop, in_wait, after_wait, Loops, new_loops, start_loops, begin_stop, finish_stop,
  set_active, with_running, gossips, detects, Step, starts, stops, waits, finishes, joins,
  leaves_group, Reaches, here, then_step,
}

-- Each channel is fresh, so that `Stop` closes an open one; and where it waits, it has closed the one
-- that the loops come to wait on, if there are any.
record Inv (s : Loops) : Type 0 where
  closed_below : All (λ c. c < s.made) s.closed
  stop_below : All (λ c. c < s.made) s.stop_ch
  open_until_stop : s.stop_call ≡ no_stop → any_closed s.stop_ch s.closed ≡ false
  has_channel : s.stop_ch ≡ [] → s.running ≡ []
  closed_in_wait : s.stop_call ≡ in_wait → (s.running ≡ []) ⊎ (any_closed s.stop_ch s.closed ≡ true)
  waited : s.stop_call ≡ after_wait → s.running ≡ []

has-below : (n : ℕ) (cs : List ℕ) → All (λ c. c < n) cs → has n cs ≡ false
unfolding has
has-below n [] b = refl
has-below n (c ∷ cs) b = ground (arith, has-below n cs b.1)

All-below-suc : (n : ℕ) (cs : List ℕ) → All (λ c. c < n) cs → All (λ c. c < n + 1) cs
All-below-suc n [] b = tt
All-below-suc n (c ∷ cs) b = (omega arith, All-below-suc n cs b.1)

All-append :
    (n : ℕ) (cs ds : List ℕ)
    → All (λ c. c < n) cs
    → All (λ c. c < n) ds
    → All (λ c. c < n) (cs ++ ds)
All-append n [] ds b d = d
All-append n (c ∷ cs) ds b d = (b.0, All-append n cs ds b.1 d)

any_closed-append : (c : ℕ) (cs ds : List ℕ) → any_closed (c ∷ cs) ((c ∷ cs) ++ ds) ≡ true
unfolding any_closed has
any_closed-append c cs ds = ground arith

closes : (cs ds : List ℕ) → (cs ≡ []) ⊎ (any_closed cs (cs ++ ds) ≡ true)
closes [] ds = inl refl
closes (c ∷ cs) ds = inr (any_closed-append c cs ds)

start_loops-Inv : (s : Loops) → s.stop_call ≡ no_stop → Inv s → Inv (start_loops s)
unfolding start_loops any_closed
start_loops-Inv s e inv =
    if_cases Inv s.active (λ _. inv)
      (λ _. record {
        closed_below = All-below-suc s.made s.closed inv.closed_below;
        stop_below = (omega arith, tt);
        open_until_stop = λ _. rw (has-below s.made s.closed inv.closed_below) refl;
        has_channel = λ none. absurd (cc);
        closed_in_wait = λ w. absurd (cc);
        waited = λ w. absurd (cc);
      })

begin_stop-Inv : (s : Loops) → s.stop_call ≡ no_stop → Inv s → Inv (begin_stop s)
unfolding begin_stop
begin_stop-Inv s e inv =
    if_cases Inv s.active
      (λ _. record {
        closed_below = All-append s.made s.stop_ch s.closed inv.stop_below inv.closed_below;
        stop_below = inv.stop_below;
        open_until_stop = λ w. absurd (cc);
        has_channel = inv.has_channel;
        closed_in_wait = λ _. elim (closes s.stop_ch s.closed) [
          | inl none ↦ inl (inv.has_channel none)
          | inr shut ↦ inr shut
        ];
        waited = λ w. absurd (cc);
      })
      (λ _. inv)

with_running-Inv :
    {s : Loops} {gs : List (Goroutine LoopKind)} {k : LoopKind}
    → LoopStep k s.stop_ch s.closed s.running gs
    → Inv s
    → Inv (with_running gs s)
with_running-Inv step inv = record {
  closed_below = inv.closed_below;
  stop_below = inv.stop_below;
  open_until_stop = inv.open_until_stop;
  has_channel = λ e. LoopStep-empty step (inv.has_channel e);
  closed_in_wait = λ e. elim (inv.closed_in_wait e) [
    | inl none ↦ inl (LoopStep-empty step none)
    | inr shut ↦ inr shut
  ];
  waited = λ e. LoopStep-empty step (inv.waited e);
}

set_active-Inv : (b : Bool) (s : Loops) → Inv s → Inv (set_active b s)
unfolding set_active
set_active-Inv b s inv = record {
  closed_below = inv.closed_below;
  stop_below = inv.stop_below;
  open_until_stop = inv.open_until_stop;
  has_channel = inv.has_channel;
  closed_in_wait = inv.closed_in_wait;
  waited = inv.waited;
}

Step-Inv : {leaves : Bool} {s t : Loops} → Step leaves true s t → Inv s → Inv t
unfolding finish_stop any_closed
Step-Inv (gossips step) inv = with_running-Inv step inv
Step-Inv (detects step) inv = with_running-Inv step inv
Step-Inv {s = s} (starts e) inv = start_loops-Inv s (e refl) inv
Step-Inv {s = s} (stops e) inv = begin_stop-Inv s e inv
Step-Inv (waits e none) inv = record {
  closed_below = inv.closed_below;
  stop_below = inv.stop_below;
  open_until_stop = λ w. absurd (cc);
  has_channel = inv.has_channel;
  closed_in_wait = λ w. absurd (cc);
  waited = λ _. none;
}
Step-Inv (finishes e) inv = record {
  closed_below = inv.closed_below;
  stop_below = tt;
  open_until_stop = λ _. refl;
  has_channel = λ _. inv.waited e;
  closed_in_wait = λ w. absurd (cc);
  waited = λ w. absurd (cc);
}
Step-Inv {s = s} (joins e) inv = set_active-Inv true s inv
Step-Inv {s = s} (leaves_group _ e) inv = set_active-Inv false s inv

new_loops-Inv : Inv new_loops
unfolding new_loops any_closed
new_loops-Inv = record {
  closed_below = tt;
  stop_below = tt;
  open_until_stop = λ _. refl;
  has_channel = λ _. refl;
  closed_in_wait = λ _. inl refl;
  waited = λ _. refl;
}

Reaches-Inv : {leaves : Bool} {s : Loops} → Reaches leaves true new_loops s → Inv s
Reaches-Inv here = new_loops-Inv
Reaches-Inv (then_step r step) = Step-Inv step (Reaches-Inv r)

-- If the calls come one after another, then in every state that a node reaches, also one that leaves and
-- joins: where `Stop` waits, the loops by themselves can come to a state in which none runs; and where no
-- call of `Stop` is on its way, the channel that a `Stop` would close is open.
pub stop_ends :
    {leaves : Bool} {s : Loops}
    → Reaches leaves true new_loops s
    → (s.stop_call ≡ in_wait → Runs (λ _. s.stop_ch) s.closed s.running [])
      × (s.stop_call ≡ no_stop → any_closed s.stop_ch s.closed ≡ false)
stop_ends {s = s} r =
    let inv = Reaches-Inv r in
    (
      (λ e. elim (inv.closed_in_wait e) [
        | inl none ↦ subst (λ gs. Runs (λ _. s.stop_ch) s.closed gs []) (sym none) still
        | inr shut ↦ Runs-end (λ _. shut) s.running
      ]),
      inv.open_until_stop,
    )
