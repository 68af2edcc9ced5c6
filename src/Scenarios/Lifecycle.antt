-- ===== src/Scenarios/Lifecycle.antt =====
-- The theorems on loops, on the status log and on the accepting of connections at work.
use mathlib.Core.List.{Memᴰ}
use distributed_group_member.Common.{
  ◌≡◌, refl, ℕ, ◌+◌, ◌≤◌, ◌<◌, ◌^◌, ◌-◌, pos, Bool, true, false, ◌||◌, List, [], ◌∷◌, ◌++◌, map,
  length, arith,
}
use distributed_group_member.Common.Dict.{values}
use distributed_group_member.Types.{codes}
use distributed_group_member.Types.Decimal.{decimal, decimal_ℤ}
use distributed_group_member.Membership.{copy_member, get_recent_updates}
use distributed_group_member.Node.Ticking.{looping, waiting, at, selects, count, Runs, any_closed}
use distributed_group_member.Gossip.Loops as GossipLoops
use distributed_group_member.Gossip.Loops.{
  Loops, LoopKind, gossip_loop, failure_detection_loop, new_loops, start_loops, begin_stop, no_stop,
  in_wait,
}
use distributed_group_member.Gossip.Loops.Counting.{loops_once}
use distributed_group_member.Gossip.Loops.Ending.{stop_ends}
use distributed_group_member.Gossip.Loops.Overlapping.{late_start, late_start_hangs}
use distributed_group_member.PingAck.Loops as PingLoops
use distributed_group_member.PingAck.Loops.{
  PingLoopKind, new_ping_loops, start_ping_loops, stop_ping_loops, channels,
}
use distributed_group_member.PingAck.Loops.Counting.{ping_loops_add_up}
use distributed_group_member.Suspicion.Ticker as T
use distributed_group_member.Suspicion.Ticker.{
  Ticker, new_ticker, start_ticker, cancel_ticker, in_wait, ticker_once,
}
use distributed_group_member.Control.Status.{
  status_line, line_head, summary_line, update_lines, report,
}
use distributed_group_member.Control.Status.Laws.{
  with_status, counted, is_other, report_adds_up, suspected_forever,
}
use distributed_group_member.LogQuerier.Serving.{
  AcceptError, Accept, connects, errs, accepting, ends_well, ends_with, serve, connections,
  serve_lem,
}
use distributed_group_member.Scenarios.{two_members, alarmed, suspected_peer}

-- The manager has started, the first loop has come to its `select`, and `Stop` waits.
abbrev stopping : Loops
stopping = begin_stop (record (start_loops new_loops) {
  running = at gossip_loop (waiting (0 ∷ [])) ∷ (at failure_detection_loop looping ∷ []);
})

stopping-reached : {leaves : Bool} → GossipLoops.Reaches leaves true new_loops stopping
unfolding start_loops new_loops begin_stop
stopping-reached =
    GossipLoops.then_step
      (GossipLoops.then_step
        (GossipLoops.then_step GossipLoops.here (GossipLoops.starts (λ _. refl)))
        (GossipLoops.gossips (selects [] (at failure_detection_loop looping ∷ []) refl)))
      (GossipLoops.stops refl)

loops_once_example :
    ((k : LoopKind) → count (GossipLoops.is k) stopping.running ≤ 1)
    × (stopping.active ≡ false → stopping.stop_call ≡ no_stop → stopping.running ≡ [])
loops_once_example = loops_once stopping-reached

stop_ends_example :
    (stopping.stop_call ≡ GossipLoops.in_wait
      → Runs (λ _. stopping.stop_ch) stopping.closed stopping.running [])
    × (stopping.stop_call ≡ no_stop → any_closed stopping.stop_ch stopping.closed ≡ false)
stop_ends_example = stop_ends {leaves = true} stopping-reached

-- `Stop` has waited until both loops had ended.
abbrev after_stop : Loops
after_stop = record (begin_stop (start_loops new_loops)) {
  running = [];
  stop_call = GossipLoops.after_wait;
}

late_start_hangs_example :
    GossipLoops.Reaches false false after_stop (late_start after_stop)
    × ((late_start after_stop).stop_call ≡ GossipLoops.in_wait)
    × ¬ Runs
        (λ _. (late_start after_stop).stop_ch)
        (late_start after_stop).closed
        (late_start after_stop).running
        []
unfolding begin_stop start_loops new_loops
late_start_hangs_example = late_start_hangs after_stop refl refl refl

ping_loops_add_up_example :
    let s = start_ping_loops (start_ping_loops new_ping_loops) in
    (◌≡◌ {A = ℕ} 0 0 → (kind : PingLoopKind) → count (PingLoops.is kind) s.running ≡ 2)
    × (0 < 0 → Runs channels s.closed s.running [] × ((stop_ping_loops s).1 ≡ true))
ping_loops_add_up_example = ping_loops_add_up (PingLoops.starts (PingLoops.starts PingLoops.made))

abbrev ticker : Ticker
ticker = cancel_ticker (start_ticker new_ticker)

ticker_once_example :
    (count (λ _. true) ticker.running ≤ 1)
    × (ticker.started ≡ false → ticker.running ≡ [])
    × (ticker.stopping ≡ T.in_wait → Runs (λ _. ticker.ctx) ticker.cancelled ticker.running [])
unfolding new_ticker start_ticker
ticker_once_example = ticker_once (T.then_step (T.then_step T.here T.starts) (T.cancels refl))

report_adds_up_example :
    let ms = values two_members.members in
    ((report decimal_ℤ 1000 two_members).0
      ≡ codes "=== MEMBERSHIP STATUS ==="
        ∷ (codes "Total members: " ++ decimal (length ms))
        ∷ (map (status_line decimal_ℤ 1000) (map copy_member ms)
            ++ summary_line (counted ms)
              ∷ (update_lines (get_recent_updates 10 1000 two_members).0
                  ++ codes "========================" ∷ [])))
    × (with_status is_other ms ≡ 0
        → (counted ms).alive_count + (counted ms).suspected_count + (counted ms).failed_count
          ≡ length ms)
report_adds_up_example = report_adds_up decimal_ℤ 1000 two_members

suspected_forever_example :
    Memᴰ
      (line_head decimal_ℤ (2 ^ 63) (copy_member suspected_peer)
        ++ (codes " (suspected for: " ++ decimal_ℤ (pos (2 ^ 63 - 1)) ++ codes ")"))
      (report decimal_ℤ (2 ^ 63) alarmed.membership).0
suspected_forever_example =
    suspected_forever decimal_ℤ (2 ^ 63) alarmed.membership suspected_peer (omega arith)
      (Memᴰ.tail (Memᴰ.head refl)) refl

-- A temporary error comes before a connection, and the listener is closed after it.
abbrev passing : AcceptError
passing = record { cancelled = false; net_closed = false; temporary = true }

abbrev closing : AcceptError
closing = record { cancelled = false; net_closed = true; temporary = false }

serve_lem_example :
    let before : List (Accept ℕ) = errs passing ∷ (connects 7 ∷ []) in
    (serve before ≡ (connections before, accepting))
    × ((closing.cancelled || closing.net_closed) ≡ true
        → serve (before ++ errs closing ∷ []) ≡ (connections before, ends_well))
    × (closing.cancelled ≡ false
        → closing.net_closed ≡ false
        → closing.temporary ≡ false
        → serve (before ++ errs closing ∷ []) ≡ (connections before, ends_with closing))
serve_lem_example =
    serve_lem (errs passing ∷ (connects 7 ∷ [])) [] closing ((refl, refl, refl), (tt, tt))
