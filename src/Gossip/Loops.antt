-- ===== src/Gossip/Loops.antt =====
-- The goroutines of detectors/gossip.go: `Start` starts two loops and `Stop` waits until they have
-- ended, in steps between which the loops and other goroutines run. No lock keeps the calls of `Start`,
-- `Stop`, `JoinGroup` and `LeaveGroup` apart: the control server makes each in a goroutine of its request.
pub mod Counting
pub mod Ending
pub mod Overlapping
use distributed_group_member.Common.{
  ◌≡◌, ℕ, ◌+◌, Bool, true, false, List, [], ◌∷◌, ◌++◌, if◌then◌else◌,
}
use distributed_group_member.Node.Ticking.{Goroutine, looping, at, LoopStep}

pub data LoopKind : Type 0 where
  gossip_loop failure_detection_loop : LoopKind

-- Where a call of `Stop` is: none runs, it is in `wg.Wait`, or `wg.Wait` has returned.
pub data StopCall : Type 0 where
  no_stop in_wait after_wait : StopCall

pub record Loops : Type 0 where
  pub active : Bool
  -- none, or one: `stopCh` starts as nil
  pub stop_ch : List ℕ
  pub made : ℕ
  pub closed : List ℕ
  pub running : List (Goroutine LoopKind)
  pub stop_call : StopCall

unfoldable pub new_loops : Loops
new_loops = record {
  active = false;
  stop_ch = [];
  made = 0;
  closed = [];
  running = [];
  stop_call = no_stop;
}

-- `Start`, which has the lock until the new channel is set.
unfoldable pub start_loops : Loops → Loops
start_loops s = if s.active then s else record s {
  active = true;
  stop_ch = s.made ∷ [];
  made = s.made + 1;
  running = at gossip_loop looping ∷ at failure_detection_loop looping ∷ s.running;
}

-- `Stop` until `wg.Wait`: it returns at once if the manager is not active.
unfoldable pub begin_stop : Loops → Loops
begin_stop s =
    if s.active
    then record s { active = false; closed = s.stop_ch ++ s.closed; stop_call = in_wait }
    else s

-- `Stop` after `wg.Wait`.
unfoldable pub finish_stop : Loops → Loops
finish_stop s = record s { stop_ch = []; stop_call = no_stop }

-- What `JoinGroup` and `LeaveGroup` write here.
unfoldable pub set_active : Bool → Loops → Loops
set_active b s = record s { active = b }

-- `gossipLoop`
abbrev pub GossipLoop : Loops → List (Goroutine LoopKind) → Type 0
GossipLoop s = LoopStep gossip_loop s.stop_ch s.closed s.running

-- `failureDetectionLoop`
abbrev pub FailureDetectionLoop : Loops → List (Goroutine LoopKind) → Type 0
FailureDetectionLoop s = LoopStep failure_detection_loop s.stop_ch s.closed s.running

abbrev pub with_running : List (Goroutine LoopKind) → Loops → Loops
with_running gs s = record s { running = gs }

-- The steps of a node that calls `LeaveGroup`, or, with `leaves` false, that does not. With `serial` true
-- the calls come one after another. With `serial` false those of `Start`, `JoinGroup` and `LeaveGroup` may
-- come while one of `Stop` is on its way; those of `Stop` come one after another all the same.
pub data Step (leaves serial : Bool) (s : Loops) : Loops → Type 0 where
  gossips :
      {gs : List (Goroutine LoopKind)} → GossipLoop s gs → Step leaves serial s (with_running gs s)
  detects :
      {gs : List (Goroutine LoopKind)}
      → FailureDetectionLoop s gs
      → Step leaves serial s (with_running gs s)
  starts : (serial ≡ true → s.stop_call ≡ no_stop) → Step leaves serial s (start_loops s)
  stops : s.stop_call ≡ no_stop → Step leaves serial s (begin_stop s)
  waits :
      s.stop_call ≡ in_wait
      → s.running ≡ []
      → Step leaves serial s (record s { stop_call = after_wait })
  finishes : s.stop_call ≡ after_wait → Step leaves serial s (finish_stop s)
  joins : (serial ≡ true → s.stop_call ≡ no_stop) → Step leaves serial s (set_active true s)
  leaves_group :
      leaves ≡ true
      → (serial ≡ true → s.stop_call ≡ no_stop)
      → Step leaves serial s (set_active false s)

pub data Reaches (leaves serial : Bool) (from : Loops) : Loops → Type 0 where
  here : Reaches leaves serial from from
  then_step :
      {s t : Loops}
      → Reaches leaves serial from s
      → Step leaves serial s t
      → Reaches leaves serial from t

abbrev pub is : LoopKind → LoopKind → Bool
is gossip_loop gossip_loop = true
is failure_detection_loop failure_detection_loop = true
is _ _ = false
