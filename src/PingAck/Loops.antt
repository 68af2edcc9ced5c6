-- ===== src/PingAck/Loops.antt =====
-- The goroutines of detectors/pingack.go: each `Start` starts three loops, and `Stop` cancels a context
-- and closes a channel, both made once and for all.
pub mod Counting
use distributed_group_member.Common.{
  ◌≡◌, refl, ◌∙◌, ap, ℕ, zero, suc, ◌+◌, Bool, true, false, List, [], ◌∷◌, ◌++◌, if◌then◌else◌,
  Bool-cases, inl, inr, arith,
}
use distributed_group_member.Node.Ticking.{
  Goroutine, looping, waiting, at, LoopStep, selects, ticks, ends, count, count-append, Runs,
  Runs-end, any_closed, has,
}

pub data PingLoopKind : Type 0 where
  ping_loop ping_failure_detection_loop cleanup_loop : PingLoopKind

pub record PingLoops : Type 0 where
  pub closed : List ℕ
  pub running : List (Goroutine PingLoopKind)

-- The channels `stopped` and `ctx.Done()`.
abbrev pub stopped : ℕ
stopped = 0

abbrev pub done : ℕ
done = 1

unfoldable pub new_ping_loops : PingLoops
new_ping_loops = record { closed = []; running = [] }

unfoldable pub start_ping_loops : PingLoops → PingLoops
start_ping_loops s = record s {
  running =
      at ping_loop looping
      ∷ (at ping_failure_detection_loop looping ∷ (at cleanup_loop looping ∷ s.running));
}

-- `Stop`, and whether it panics: it cancels the context, and closes `stopped` if that is open.
unfoldable pub stop_ping_loops : PingLoops → PingLoops × Bool
stop_ping_loops s =
    let cancelled = record s { closed = done ∷ s.closed } in
    if has stopped s.closed
    then (cancelled, true)
    else (record s { closed = stopped ∷ (done ∷ s.closed) }, false)

-- `pingLoop`
abbrev pub PingLoop : PingLoops → List (Goroutine PingLoopKind) → Type 0
PingLoop s = LoopStep ping_loop (stopped ∷ []) s.closed s.running

-- `failureDetectionLoop`
abbrev pub PingFailureDetectionLoop : PingLoops → List (Goroutine PingLoopKind) → Type 0
PingFailureDetectionLoop s = LoopStep ping_failure_detection_loop (stopped ∷ []) s.closed s.running

-- `cleanupLoop`
abbrev pub CleanupLoop : PingLoops → List (Goroutine PingLoopKind) → Type 0
CleanupLoop s = LoopStep cleanup_loop (stopped ∷ (done ∷ [])) s.closed s.running

abbrev pub with_running : List (Goroutine PingLoopKind) → PingLoops → PingLoops
with_running gs s = record s { running = gs }

abbrev pub channels : PingLoopKind → List ℕ
channels cleanup_loop = stopped ∷ (done ∷ [])
channels _ = stopped ∷ []

-- The states after so many calls of `Start`, and of `Stop`.
pub data Reaches : ℕ → ℕ → PingLoops → Type 0 where
  made : Reaches 0 0 new_ping_loops
  starts : {n k : ℕ} {s : PingLoops} → Reaches n k s → Reaches (suc n) k (start_ping_loops s)
  stops : {n k : ℕ} {s : PingLoops} → Reaches n k s → Reaches n (suc k) (stop_ping_loops s).0
  pings :
      {n k : ℕ} {s : PingLoops} {gs : List (Goroutine PingLoopKind)}
      → Reaches n k s
      → PingLoop s gs
      → Reaches n k (with_running gs s)
  detects :
      {n k : ℕ} {s : PingLoops} {gs : List (Goroutine PingLoopKind)}
      → Reaches n k s
      → PingFailureDetectionLoop s gs
      → Reaches n k (with_running gs s)
  cleans :
      {n k : ℕ} {s : PingLoops} {gs : List (Goroutine PingLoopKind)}
      → Reaches n k s
      → CleanupLoop s gs
      → Reaches n k (with_running gs s)

abbrev pub is : PingLoopKind → PingLoopKind → Bool
is ping_loop ping_loop = true
is ping_failure_detection_loop ping_failure_detection_loop = true
is cleanup_loop cleanup_loop = true
is _ _ = false
