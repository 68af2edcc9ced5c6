-- ===== src/System/Switching.antt =====
-- Switches after the channel of the ping manager is closed.
use distributed_group_member.Common.{◌≡◌, refl, ℕ, true, false, if_cases, Bool-cases, inl, inr}
use distributed_group_member.Types.{gossip_mode, ping_ack_mode, Message}
use distributed_group_member.Gossip
use distributed_group_member.PingAck.Probes.Waiters.{cancel_context}
use distributed_group_member.System.{
  Machine, gossip_heartbeat, dispatch, stop_ping, switch_mode, start_gossip, start_ping,
  stop_gossip, stop_controller,
}

-- A node whose ping manager was stopped once and whose gossip detector is stopped: a switch to gossip
-- panics, and it leaves a node that is in the mode of gossip and ignores every heartbeat.
pub switch_panics_deaf :
    (m : Machine) (msg : Message) (now : ℕ)
    → m.ping_stopped ≡ true
    → m.gossip.active ≡ false
    → let (m', panics) = switch_mode gossip_mode m in
      (panics ≡ true) × (m'.mode ≡ gossip_mode) × (dispatch gossip_heartbeat msg now m' ≡ m')
unfolding switch_mode stop_ping dispatch Gossip.handle_heartbeat
switch_panics_deaf m msg now stopped quiet = rw (stopped, quiet) (refl, refl, refl)

started-stopped : (m : Machine) → (start_gossip m).ping_stopped ≡ m.ping_stopped
unfolding start_gossip
started-stopped m =
    if_cases (λ (x : Machine). x.ping_stopped ≡ m.ping_stopped) m.gossip.active (λ _. refl)
      (λ _. refl)

-- Every switch to gossip closes the channel, also the first one.
pub switched-stopped : (m : Machine) → (switch_mode gossip_mode m).0.ping_stopped ≡ true
unfolding switch_mode stop_ping
switched-stopped m = elim (Bool-cases m.ping_stopped) [
  | inl e ↦ rw (e, switch_mode, stop_ping) refl
  | inr e ↦
      rw (e, switch_mode, stop_ping)
        (started-stopped
          (record m { mode = gossip_mode; ping_stopped = true; pinger = cancel_context m.pinger }))
]

shutdown_fails :
    (m : Machine)
    → m.ping_stopped ≡ true
    → m.mode ≡ ping_ack_mode
    → ((stop_controller m).1 ≡ true) × ((stop_controller m).0.network.closed ≡ m.network.closed)
unfolding stop_controller stop_ping
shutdown_fails m stopped mode = rw (mode, stopped, stop_controller) (refl, refl)

pub stopped-switch_mode :
    (m : Machine) → m.ping_stopped ≡ true → (switch_mode gossip_mode m).1 ≡ true
unfolding switch_mode stop_ping
stopped-switch_mode m stopped = rw (switch_mode, stop_ping, stopped) refl

pub stopped-stop_controller :
    (m : Machine)
    → m.ping_stopped ≡ true
    → (stop_controller (switch_mode ping_ack_mode m).0).1 ≡ true
unfolding switch_mode start_ping stop_gossip
stopped-stop_controller m stopped = (shutdown_fails (switch_mode ping_ack_mode m).0 stopped refl).0
