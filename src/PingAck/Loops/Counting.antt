-- ===== src/PingAck/Loops/Counting.antt =====
-- How many loops of the SWIM detector run: `Start` and `Stop` of detectors/pingack.go.
use distributed_group_member.Common.{◌≡◌, refl, ◌∙◌, ℕ, ◌<◌, true, [], arith}
use distributed_group_member.Node.Ticking.{
  LoopStep-count-open, count, Runs, Runs-end, any_closed, has,
}
use distributed_group_member.PingAck.Loops.{
  PingLoopKind, ping_loop, ping_failure_detection_loop, cleanup_loop, PingLoops, stopped,
  new_ping_loops, start_ping_loops, stop_ping_loops, channels, Reaches, made, starts, stops, pings,
  detects, cleans, is,
}

-- Before the first `Stop` no channel is closed.
closed-nil : {n k : ℕ} {s : PingLoops} → Reaches n k s → k ≡ 0 → s.closed ≡ []
unfolding new_ping_loops start_ping_loops
closed-nil made e = refl
closed-nil (starts r) e = closed-nil r e
closed-nil (stops r) e = absurd (omega arith)
closed-nil (pings r step) e = closed-nil r e
closed-nil (detects r step) e = closed-nil r e
closed-nil (cleans r step) e = closed-nil r e

count-starts :
    {n k : ℕ} {s : PingLoops} (kind : PingLoopKind)
    → Reaches n k s
    → k ≡ 0
    → count (is kind) s.running ≡ n
unfolding new_ping_loops start_ping_loops count
count-starts kind made e = refl
count-starts ping_loop (starts r) e = omega (arith, count-starts ping_loop r e)
count-starts ping_failure_detection_loop (starts r) e =
    omega (arith, count-starts ping_failure_detection_loop r e)
count-starts cleanup_loop (starts r) e = omega (arith, count-starts cleanup_loop r e)
count-starts kind (stops r) e = absurd (omega arith)
count-starts kind (pings r step) e =
    LoopStep-count-open (is kind) step (closed-nil r e) ∙ count-starts kind r e
count-starts kind (detects r step) e =
    LoopStep-count-open (is kind) step (closed-nil r e) ∙ count-starts kind r e
count-starts kind (cleans r step) e =
    LoopStep-count-open (is kind) step (closed-nil r e) ∙ count-starts kind r e

has-stop_ping_loops : (s : PingLoops) → has stopped (stop_ping_loops s).0.closed ≡ true
unfolding stop_ping_loops has
has-stop_ping_loops s = ground arith

-- From the first `Stop` on the channel is closed.
stopped-closed : {n k : ℕ} {s : PingLoops} → Reaches n k s → 0 < k → has stopped s.closed ≡ true
unfolding start_ping_loops
stopped-closed made h = absurd (omega arith)
stopped-closed (starts r) h = stopped-closed r h
stopped-closed (stops {s = s} r) h = has-stop_ping_loops s
stopped-closed (pings r step) h = stopped-closed r h
stopped-closed (detects r step) h = stopped-closed r h
stopped-closed (cleans r step) h = stopped-closed r h

module _ (s : PingLoops) (shut : has stopped s.closed ≡ true) where
  channels-closed : (k : PingLoopKind) → any_closed (channels k) s.closed ≡ true
  unfolding any_closed
  channels-closed ping_loop = rw shut refl
  channels-closed ping_failure_detection_loop = rw shut refl
  channels-closed cleanup_loop = rw shut refl

  stop_ping_loops-panics : (stop_ping_loops s).1 ≡ true
  unfolding stop_ping_loops
  stop_ping_loops-panics = rw shut refl

-- Until the first `Stop` as many loops of each kind run as there were calls of `Start`. From then on all
-- loops, those of later calls of `Start` too, can come to their end by themselves, and a further `Stop`
-- panics.
pub ping_loops_add_up :
    {n k : ℕ} {s : PingLoops}
    → Reaches n k s
    → (k ≡ 0 → (kind : PingLoopKind) → count (is kind) s.running ≡ n)
      × (0 < k → Runs channels s.closed s.running [] × ((stop_ping_loops s).1 ≡ true))
ping_loops_add_up {s = s} r = (
  (λ e kind. count-starts kind r e),
  (λ h. (
    Runs-end (channels-closed s (stopped-closed r h)) s.running,
    stop_ping_loops-panics s (stopped-closed r h),
  )),
)
