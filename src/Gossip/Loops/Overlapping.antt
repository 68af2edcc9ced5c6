-- ===== src/Gossip/Loops/Overlapping.antt =====
-- A call of `Start` of detectors/gossip.go that comes while one of `Stop` is on its way.
use distributed_group_member.Common.{◌≡◌, ◌≢◌, subst, refl, sym, ℕ, false, List, [], ◌∷◌, ◌++◌, All}
use distributed_group_member.Node.Ticking.{
  Goroutine, looping, waiting, at, LoopStep, selects, ticks, ends, Runs, still, first, any_closed,
}
use distributed_group_member.Gossip.Loops.{
  LoopKind, in_wait, after_wait, Loops, start_loops, begin_stop, finish_stop, starts, stops,
  finishes, Reaches, here, then_step,
}

-- A loop that no closed channel can end.
unfoldable Lasts : List ℕ → Goroutine LoopKind → Type 0
Lasts closed g = elim g.stage [ looping ↦ Unit | waiting chs ↦ any_closed chs closed ≡ false ]

append-nonempty :
    (gs : List (Goroutine LoopKind)) (g : Goroutine LoopKind) (hs : List (Goroutine LoopKind))
    → gs ++ g ∷ hs ≢ []
append-nonempty [] g hs e = absurd (cc)
append-nonempty (h ∷ gs) g hs e = absurd (cc)

module _ (P : Goroutine LoopKind → Type 0) where
  All-parts : (gs hs : List (Goroutine LoopKind)) → All P (gs ++ hs) → All P gs × All P hs
  All-parts [] hs a = (tt, a)
  All-parts (g ∷ gs) hs (p, a) = let (l, r) = All-parts gs hs a in ((p, l), r)

  All-whole : (gs hs : List (Goroutine LoopKind)) → All P gs → All P hs → All P (gs ++ hs)
  All-whole [] hs a b = b
  All-whole (g ∷ gs) hs (p, a) b = (p, All-whole gs hs a b)

-- Where `stopCh` is nil, the loops that last go on, and none of them ends.
LoopStep-Lasts :
    {k : LoopKind} {closed : List ℕ} {gs hs : List (Goroutine LoopKind)}
    → LoopStep k [] closed gs hs
    → gs ≢ []
    → All (Lasts closed) gs
    → All (Lasts closed) hs × (hs ≢ [])
unfolding Lasts any_closed
LoopStep-Lasts {k} {closed} (selects before after e) some_run a =
    let (l, r) =
      All-parts (Lasts closed) before (at k looping ∷ after) (subst (All (Lasts closed)) e a) in
    (
      All-whole (Lasts closed) before (at k (waiting []) ∷ after) l (refl, r.1),
      append-nonempty before _ after,
    )
LoopStep-Lasts {k} {closed} (ticks before after chs e) some_run a =
    let (l, r) =
      All-parts (Lasts closed) before (at k (waiting chs) ∷ after)
        (subst (All (Lasts closed)) e a) in
    (
      All-whole (Lasts closed) before (at k looping ∷ after) l (tt, r.1),
      append-nonempty before _ after,
    )
LoopStep-Lasts {k} {closed} (ends before after chs e shut) some_run a =
    let (l, r) =
      All-parts (Lasts closed) before (at k (waiting chs) ∷ after)
        (subst (All (Lasts closed)) e a) in
    absurd (cc (shut, r.0))

Runs-Lasts :
    {closed : List ℕ} {gs hs : List (Goroutine LoopKind)}
    → Runs (λ (k : LoopKind). []) closed gs hs
    → gs ≢ []
    → All (Lasts closed) gs
    → hs ≢ []
Runs-Lasts still some_run a = some_run
Runs-Lasts (first k step rest) some_run a =
    let (lasts, run) = LoopStep-Lasts step some_run a in Runs-Lasts rest run lasts

-- A `Start` comes after the wait of a `Stop`, before that sets the channel to nil, and a second `Stop`
-- follows.
abbrev pub late_start : Loops → Loops
late_start s = begin_stop (finish_stop (start_loops s))

-- Let `Stop` have come to the end of its wait, so that no loop runs and the manager is not active. If a
-- `Start` comes before that `Stop` has set the channel to nil, and another `Stop` after it, then the second
-- `Stop` waits, and the loops by themselves never come to a state in which none runs.
pub late_start_hangs :
    (s : Loops)
    → s.stop_call ≡ after_wait
    → s.active ≡ false
    → s.running ≡ []
    → Reaches false false s (late_start s)
      × ((late_start s).stop_call ≡ in_wait)
      × ¬ Runs (λ _. (late_start s).stop_ch) (late_start s).closed (late_start s).running []
unfolding start_loops finish_stop begin_stop Lasts
late_start_hangs s waited off ended =
    rw (off, start_loops, begin_stop)
      (
        then_step (then_step (then_step here (starts (λ e. absurd (cc)))) (finishes waited))
            (stops refl),
        refl,
        λ r.
            Runs-Lasts r (append-nonempty [] _ _)
              (tt, (tt, subst (All (Lasts s.closed)) (sym ended) tt)) refl,
      )
