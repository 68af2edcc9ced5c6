-- ===== src/System/Steps/Stopped.antt =====
-- The channel of the ping manager, once closed, in all later states of a process.
use distributed_group_member.Common.{
  ◌≡◌, refl, ◌∙◌, ℕ, Bool, true, Option, none, some, inl, inr, if_cases,
}
use distributed_group_member.Types.{Text, DetectionMode, gossip_mode, ping_ack_mode, Message}
use distributed_group_member.Network.{next_message}
use distributed_group_member.System.{
  Handler, gossip_heartbeat, gossip_suspect, gossip_alive, gossip_confirm, gossip_join,
  gossip_join_response, gossip_leave, ping_ping, ping_ack, ping_indirect_ping, ping_indirect_ack,
  ping_join, ping_join_response, ping_alive, ping_suspect, ping_leave, Machine, start_gossip,
  start_ping, stop_gossip, stop_ping, start, switch_mode, set_suspicion, join_group, leave_group,
  process_queue, dispatch, stop_controller,
}
use distributed_group_member.System.Switching.{
  switched-stopped, stopped-switch_mode, stopped-stop_controller,
}
use distributed_group_member.System.Steps.{
  Step, Reaches, here, then_step, started_step, packet_step, message_step, stopped_step, join_step,
  leave_step, switch_step, suspicion_step,
}
use distributed_group_member.System.Steps.Handling.{mode_cases}

-- The channel is as it was.
abbrev Same : Machine → Machine → Type 0
Same m m' = m'.ping_stopped ≡ m.ping_stopped

dispatch-Same :
    (h : Handler) (msg : Message) (now : ℕ) (m : Machine) → Same m (dispatch h msg now m)
unfolding dispatch
dispatch-Same gossip_heartbeat msg now m = refl
dispatch-Same gossip_suspect msg now m = refl
dispatch-Same gossip_alive msg now m = refl
dispatch-Same gossip_confirm msg now m = refl
dispatch-Same gossip_join msg now m = refl
dispatch-Same gossip_join_response msg now m = refl
dispatch-Same gossip_leave msg now m = refl
dispatch-Same ping_ping msg now m = refl
dispatch-Same ping_ack msg now m = refl
dispatch-Same ping_indirect_ping msg now m = refl
dispatch-Same ping_indirect_ack msg now m = refl
dispatch-Same ping_join msg now m = refl
dispatch-Same ping_join_response msg now m = refl
dispatch-Same ping_alive msg now m = refl
dispatch-Same ping_suspect msg now m = refl
dispatch-Same ping_leave msg now m = refl

process_queue-Same : (now : ℕ) (m : Machine) → Same m (process_queue now m)
unfolding process_queue
process_queue-Same now m = go (next_message m.network).1 refl
  where
    go :
        (next : Option (Message × Option Handler))
        → (next_message m.network).1 ≡ next
        → Same m (process_queue now m)
    go none e = rw (process_queue, e) refl
    go (some (msg, none)) e = rw (process_queue, e) refl
    go (some (msg, some h)) e =
        rw (process_queue, e)
          (dispatch-Same h msg now (record m { network = (next_message m.network).0 }))

start-Same : (m : Machine) → Same m (start m)
unfolding start start_gossip start_ping
start-Same m = elim (mode_cases m.mode) [
  | inl e ↦ rw (e, start) (if_cases (Same m) m.gossip.active (λ _. refl) (λ _. refl))
  | inr e ↦ rw (e, start) refl
]

set_suspicion-Same : (enable : Bool) (m : Machine) → Same m (set_suspicion enable m)
unfolding set_suspicion
set_suspicion-Same enable m = elim (mode_cases m.mode) [
  | inl e ↦ rw (e, set_suspicion) refl
  | inr e ↦ rw (e, set_suspicion) refl
]

join_group-Same : (addr : Text) (now : ℕ) (m : Machine) → Same m (join_group addr now m)
unfolding join_group
join_group-Same addr now m = elim (mode_cases m.mode) [
  | inl e ↦ rw (e, join_group) refl
  | inr e ↦ rw (e, join_group) refl
]

leave_group-Same : (now : ℕ) (m : Machine) → Same m (leave_group now m)
unfolding leave_group
leave_group-Same now m = elim (mode_cases m.mode) [
  | inl e ↦ rw (e, leave_group) refl
  | inr e ↦ rw (e, leave_group) refl
]

stop_controller-stopped :
    (m : Machine) → m.ping_stopped ≡ true → (stop_controller m).0.ping_stopped ≡ true
unfolding stop_controller stop_gossip stop_ping
stop_controller-stopped m stopped = elim (mode_cases m.mode) [
  | inl e ↦ rw (e, stop_controller) stopped
  | inr e ↦ rw (e, stopped, stop_controller, stop_ping) refl
]

switch_mode-stopped :
    (mode : DetectionMode) (m : Machine)
    → m.ping_stopped ≡ true
    → (switch_mode mode m).0.ping_stopped ≡ true
switch_mode-stopped gossip_mode m stopped = switched-stopped m
switch_mode-stopped ping_ack_mode m stopped = unfold switch_mode in stopped

Step-stopped : {m m' : Machine} → Step m m' → m.ping_stopped ≡ true → m'.ping_stopped ≡ true
unfolding start_ping stop_gossip
Step-stopped {m} started_step e = start-Same m ∙ e
Step-stopped {m} (packet_step decode drops packet) e = e
Step-stopped {m} (message_step now t) e = process_queue-Same now m ∙ e
Step-stopped {m} stopped_step e = stop_controller-stopped m e
Step-stopped {m} (switch_step mode) e = switch_mode-stopped mode m e
Step-stopped {m} (suspicion_step enable) e = set_suspicion-Same enable m ∙ e
Step-stopped {m} (join_step addr now) e = join_group-Same addr now m ∙ e
Step-stopped {m} (leave_step now) e = leave_group-Same now m ∙ e
Step-stopped {m} _ e = e

Reaches-stopped : {m m' : Machine} → Reaches m m' → m.ping_stopped ≡ true → m'.ping_stopped ≡ true
Reaches-stopped here e = e
Reaches-stopped (then_step r s) e = Step-stopped s (Reaches-stopped r e)

-- After a switch to gossip, whatever steps the process takes then: a further switch to gossip panics, and
-- so does the shutdown after a switch to SWIM.
pub later_switch_panics :
    {m' : Machine} (m : Machine)
    → Reaches (switch_mode gossip_mode m).0 m'
    → ((switch_mode gossip_mode m').1 ≡ true)
      × ((stop_controller (switch_mode ping_ack_mode m').0).1 ≡ true)
later_switch_panics {m'} m r =
    let stopped = Reaches-stopped r (switched-stopped m) in
    (stopped-switch_mode m' stopped, stopped-stop_controller m' stopped)
