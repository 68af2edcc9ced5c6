-- ===== src/System/Steps/Invariant.antt =====
-- What holds of a process in all states that steps reach.
use distributed_group_member.Node.{Node}
use distributed_group_member.Membership.{get_recent_updates}
use distributed_group_member.Gossip.Invariant.{with_list-Inv}
use distributed_group_member.Common.{
  refl, sym, subst, ℕ, Bool, false, ◌++◌, arith, inl, inr, if_cases, ◌∙◌,
}
use distributed_group_member.Types.{NodeId, DetectionMode, gossip_mode, ping_ack_mode}
use distributed_group_member.Suspicion.Entries.{Inv}
use distributed_group_member.Suspicion.Clearing.{check-Keeps}
use distributed_group_member.Network.{new_network_layer, stop, register_handler}
use distributed_group_member.Gossip.Periodic.{perform_gossip_round-Inv, check_failures-Inv}
use distributed_group_member.PingAck.Invariant.{ping_ack_sweep-Inv}
use distributed_group_member.PingAck.Invariant.Probes.{
  begin_period-Inv, probe_indirectly-Inv, end_silent-Inv, forward_ack-Inv,
}
use distributed_group_member.Controller.Invariant.{run_callback-Inv, new_controller-Inv}
use distributed_group_member.System.{
  Machine, new_machine, register_gossip, register_ping, start_gossip, start_ping, stop_gossip,
  start, switch_mode, set_suspicion, stop_ping, stop_controller, log_status,
}
use distributed_group_member.System.Steps.{
  Step, Reaches, here, then_step, started_step, packet_step, message_step, stopped_step, check_step,
  callback_step, round_step, gossip_failures_step, begin_step, indirect_step, acked_step,
  silent_step, forward_step, wait_step, cleanup_step, ping_failures_step, join_step, leave_step,
  switch_step, suspicion_step, status_step,
}
use distributed_group_member.System.Steps.Handling.{
  IsSafe, process_queue-IsSafe, join_group-IsSafe, leave_group-IsSafe, mode_cases, Unchanged,
  spawned-Inv, receive_bounded,
}

start_gossip-Unchanged : (m : Machine) → Unchanged m (start_gossip m)
unfolding start_gossip register_gossip register_handler
start_gossip-Unchanged m =
    if_cases (Unchanged m) m.gossip.active (λ _. (refl, refl)) (λ _. (refl, refl))

start_ping-Unchanged : (m : Machine) → Unchanged m (start_ping m)
unfolding start_ping register_ping register_handler
start_ping-Unchanged m = (refl, refl)

start-Unchanged : (m : Machine) → Unchanged m (start m)
unfolding start
start-Unchanged m = elim (mode_cases m.mode) [
  | inl e ↦ rw (e, start) (start_gossip-Unchanged m)
  | inr e ↦ rw (e, start) (start_ping-Unchanged m)
]

stop_ping-Unchanged : (m : Machine) → Unchanged m (stop_ping m).0
unfolding stop_ping
stop_ping-Unchanged m =
    if_cases (λ (r : Machine × Bool). Unchanged m r.0) m.ping_stopped (λ _. (refl, refl))
      (λ _. (refl, refl))

Unchanged-trans : (a b c : Machine) → Unchanged a b → Unchanged b c → Unchanged a c
Unchanged-trans a b c (n, q) (n', q') = (n' ∙ n, q' ∙ q)

switch_mode-Unchanged : (mode : DetectionMode) (m : Machine) → Unchanged m (switch_mode mode m).0
unfolding switch_mode stop_gossip
switch_mode-Unchanged gossip_mode m =
    let (m', panics) = stop_ping (record m { mode = gossip_mode }) in
    let stopped = stop_ping-Unchanged (record m { mode = gossip_mode }) in
    if_cases (Unchanged m) panics (λ _. stopped)
      (λ _. Unchanged-trans m m' (start_gossip m') stopped (start_gossip-Unchanged m'))
switch_mode-Unchanged ping_ack_mode m =
    start_ping-Unchanged
      (record m { mode = ping_ack_mode; gossip = record m.gossip { active = false } })

stop_controller-Unchanged : (m : Machine) → Unchanged m (stop_controller m).0
unfolding stop_controller stop_gossip stop
stop_controller-Unchanged m = elim (mode_cases m.mode) [
  | inl e ↦ rw (e, stop_controller) (refl, refl)
  | inr e ↦
      let (m', panics) = stop_ping m in
      let stopped = stop_ping-Unchanged m in
      rw (e, stop_controller)
        (if_cases (Unchanged m) panics (λ _. stopped) (λ _. (stopped.0, stopped.1)))
]

set_suspicion-Unchanged : (enable : Bool) (m : Machine) → Unchanged m (set_suspicion enable m)
unfolding set_suspicion
set_suspicion-Unchanged enable m = elim (mode_cases m.mode) [
  | inl e ↦ rw (e, set_suspicion) (refl, refl)
  | inr e ↦ rw (e, set_suspicion) (refl, refl)
]

Unchanged-IsSafe : (m m' : Machine) → Unchanged m m' → IsSafe m → IsSafe m'
Unchanged-IsSafe m m' (same, queue) v = record {
  kept = subst Inv (sym same) v.kept;
  bounded = rw queue v.bounded;
}

log_status-Inv : (now : ℕ) (nd : Node) → Inv nd → Inv (log_status now nd)
unfolding log_status get_recent_updates
log_status-Inv now nd v =
    with_list-Inv nd _ v (record { keyed = v.formed.keyed; unique = v.formed.unique })

Step-IsSafe : {m m' : Machine} → Step m m' → IsSafe m → IsSafe m'
unfolding stop
Step-IsSafe {m} started_step v = Unchanged-IsSafe m _ (start-Unchanged m) v
Step-IsSafe {m} (packet_step decode drops packet) v = record {
  kept = v.kept;
  bounded = receive_bounded decode drops packet m.network v.bounded;
}
Step-IsSafe {m} (message_step now t) v = process_queue-IsSafe now m t v
Step-IsSafe {m} stopped_step v = Unchanged-IsSafe m _ (stop_controller-Unchanged m) v
Step-IsSafe {m} (switch_step mode) v = Unchanged-IsSafe m _ (switch_mode-Unchanged mode m) v
Step-IsSafe {m} (suspicion_step enable) v =
    Unchanged-IsSafe m _ (set_suspicion-Unchanged enable m) v
Step-IsSafe {m} (acked_step period) v = Unchanged-IsSafe m _ (refl, refl) v
Step-IsSafe {m} (wait_step seq target) v = Unchanged-IsSafe m _ (refl, refl) v
Step-IsSafe {m} (cleanup_step now) v = Unchanged-IsSafe m _ (refl, refl) v
Step-IsSafe {m} (join_step addr now) v = join_group-IsSafe addr now m v
Step-IsSafe {m} (leave_step now) v = leave_group-IsSafe now m v
Step-IsSafe {m} (status_step now) v = record {
  kept = log_status-Inv now m.node v.kept;
  bounded = v.bounded;
}
Step-IsSafe {m} (check_step now) v = record {
  kept = (check-Keeps now m.node v.kept).inv;
  bounded = v.bounded;
}
Step-IsSafe {m} (callback_step before c after now e) v = record {
  kept = run_callback-Inv c now _ (spawned-Inv m.node (before ++ after) v.kept);
  bounded = v.bounded;
}
Step-IsSafe {m} (round_step s s' now) v = record {
  kept = perform_gossip_round-Inv s s' m.gossip now m.node v.kept;
  bounded = v.bounded;
}
Step-IsSafe {m} (gossip_failures_step now t) v = record {
  kept = check_failures-Inv m.gossip now m.node t v.kept;
  bounded = v.bounded;
}
Step-IsSafe {m} (begin_step s now) v = record {
  kept = begin_period-Inv s now m.pinger m.node v.kept;
  bounded = v.bounded;
}
Step-IsSafe {m} (indirect_step s now period t) v = record {
  kept = probe_indirectly-Inv s now period m.pinger m.node t v.kept;
  bounded = v.bounded;
}
Step-IsSafe {m} (silent_step now period t) v = record {
  kept = end_silent-Inv now period m.pinger m.node t v.kept;
  bounded = v.bounded;
}
Step-IsSafe {m} (forward_step now seq target w) v = record {
  kept = forward_ack-Inv now seq target w m.pinger m.node v.kept;
  bounded = v.bounded;
}
Step-IsSafe {m} (ping_failures_step now) v = record {
  kept = ping_ack_sweep-Inv m.pinger now m.node v.kept;
  bounded = v.bounded;
}

-- In every state that the steps of a process reach from the state that `NewController` makes, in
-- whatever mode and order, with both detectors' handlers and loops, with switches, joins and leaves in
-- between, where each step that may report a suspicion takes place at a positive time: each key of the
-- membership list is the text of its member's identity and occurs once, the suspicion entries are
-- sound, and the receive queue is within its capacity.
pub reached-IsSafe :
    (mode : DetectionMode) (id : NodeId) (now : ℕ) {m : Machine}
    → Reaches (new_machine mode id now) m
    → IsSafe m
unfolding new_machine new_network_layer
reached-IsSafe mode id now here = record {
  kept = new_controller-Inv id now;
  bounded = ground arith;
}
reached-IsSafe mode id now (then_step r s) = Step-IsSafe s (reached-IsSafe mode id now r)
