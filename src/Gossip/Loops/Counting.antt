-- ===== src/Gossip/Loops/Counting.antt =====
-- How many loops of the gossip detector run: `Start`, `Stop`, `LeaveGroup` of detectors/gossip.go.
use distributed_group_member.Common.{
  ◌≡◌, refl, ◌+◌, ◌≤◌, true, false, List, [], ◌∷◌, if_cases, arith,
}
use distributed_group_member.Node.Ticking.{
  looping, at, Goroutine, LoopStep, count, LoopStep-count, LoopStep-empty,
}
use distributed_group_member.Gossip.Loops.{
  LoopKind, gossip_loop, failure_detection_loop, no_stop, after_wait, Loops, new_loops, start_loops,
  begin_stop, finish_stop, set_active, with_running, gossips, detects, Step, starts, stops, waits,
  finishes, joins, leaves_group, Reaches, here, then_step, is,
}

-- What holds as long as the node does not leave.
record Inv (s : Loops) : Type 0 where
  single : (k : LoopKind) → count (is k) s.running ≤ 1
  ended : s.active ≡ false → s.stop_call ≡ no_stop → s.running ≡ []
  waited : s.stop_call ≡ after_wait → s.running ≡ []
  inactive : s.active ≡ true → s.stop_call ≡ no_stop

new_loops-Inv : Inv new_loops
unfolding new_loops count
new_loops-Inv = record {
  single = λ k. omega arith;
  ended = λ _ _. refl;
  waited = λ _. refl;
  inactive = λ _. refl;
}

with_running-Inv :
    {s : Loops} {gs : List (Goroutine LoopKind)} {k : LoopKind}
    → LoopStep k s.stop_ch s.closed s.running gs
    → Inv s
    → Inv (with_running gs s)
with_running-Inv step inv = record {
  single = λ k. omega (arith, LoopStep-count (is k) step, inv.single k);
  ended = λ a e. LoopStep-empty step (inv.ended a e);
  waited = λ e. LoopStep-empty step (inv.waited e);
  inactive = inv.inactive;
}

start_loops-Inv : (s : Loops) → s.stop_call ≡ no_stop → Inv s → Inv (start_loops s)
unfolding start_loops count
start_loops-Inv s e inv =
    if_cases Inv s.active (λ _. inv)
      (λ off. record {
        single = λ k. fresh k (inv.ended off e);
        ended = λ a. cc;
        waited = λ w. absurd (cc);
        inactive = λ _. e;
      })
  where
    fresh :
        (k : LoopKind)
        → s.running ≡ []
        → count (is k) (at gossip_loop looping ∷ at failure_detection_loop looping ∷ s.running) ≤ 1
    fresh gossip_loop none = rw none (omega arith)
    fresh failure_detection_loop none = rw none (omega arith)

begin_stop-Inv : (s : Loops) → Inv s → Inv (begin_stop s)
unfolding begin_stop
begin_stop-Inv s inv =
    if_cases Inv s.active
      (λ _. record {
        single = inv.single;
        ended = λ a. cc;
        waited = λ w. absurd (cc);
        inactive = λ a. cc;
      })
      (λ _. inv)

Step-Inv : {s t : Loops} → Step false true s t → Inv s → Inv t
unfolding finish_stop set_active
Step-Inv (gossips step) inv = with_running-Inv step inv
Step-Inv (detects step) inv = with_running-Inv step inv
Step-Inv {s} (starts e) inv = start_loops-Inv s (e refl) inv
Step-Inv {s} (stops e) inv = begin_stop-Inv s inv
Step-Inv (waits e none) inv = record {
  single = inv.single;
  ended = λ a i. none;
  waited = λ _. none;
  inactive = λ a. absurd (cc (inv.inactive a));
}
Step-Inv (finishes e) inv = record {
  single = inv.single;
  ended = λ a i. inv.waited e;
  waited = λ w. absurd (cc);
  inactive = λ _. refl;
}
Step-Inv (joins e) inv = record {
  single = inv.single;
  ended = λ a. cc;
  waited = inv.waited;
  inactive = λ _. e refl;
}
Step-Inv (leaves_group never e) inv = absurd (cc)

Reaches-Inv : {s : Loops} → Reaches false true new_loops s → Inv s
Reaches-Inv here = new_loops-Inv
Reaches-Inv (then_step r step) = Step-Inv step (Reaches-Inv r)

-- If the calls of `Start`, `Stop` and `JoinGroup` come one after another and the node never leaves, at most
-- one loop of each kind runs in every state that it reaches, and none runs while the manager is not active
-- and no call of `Stop` is on its way.
pub loops_once :
    {s : Loops}
    → Reaches false true new_loops s
    → ((k : LoopKind) → count (is k) s.running ≤ 1)
      × (s.active ≡ false → s.stop_call ≡ no_stop → s.running ≡ [])
loops_once r = let inv = Reaches-Inv r in (inv.single, inv.ended)

-- If an active manager leaves, `Stop` ends no loop and returns at once, and `Start` starts one more loop
-- of each kind.
pub leave_doubles :
    (s : Loops) (k : LoopKind)
    → (begin_stop (set_active false s) ≡ set_active false s)
      × ((set_active false s).running ≡ s.running)
      × (count (is k) (start_loops (set_active false s)).running ≡ count (is k) s.running + 1)
unfolding begin_stop start_loops set_active count
leave_doubles s gossip_loop = (refl, refl, omega arith)
leave_doubles s failure_detection_loop = (refl, refl, omega arith)
