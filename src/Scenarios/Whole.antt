-- ===== src/Scenarios/Whole.antt =====
-- The theorems on the whole process and on silent members at work.
use distributed_group_member.Common.{
  ◌≡◌, refl, ℕ, ◌*◌, ◌≤◌, ite, pos, true, false, [], ◌∷◌, ◌++◌, Option, none, some, arith, length,
  ℕ_discrete, ◌+ℤ◌, wrap64,
}
use distributed_group_member.Common.Dict.{lookup}
use distributed_group_member.Types.{
  Text, Text-discrete, NodeId, MemberUpdate, alive, suspected, alive_msg, zero_id, to_string,
  Message, heartbeat, confirm, plain, second, millisecond, optimal_timeout_config, gossip_mode,
  ping_ack_mode,
}
use distributed_group_member.Membership.{member_at, fresh_member, unix}
use distributed_group_member.Node.{Node, on_clear}
use distributed_group_member.Node.Sending.{mail}
use distributed_group_member.Suspicion.{entry_at}
use distributed_group_member.Suspicion.Cleared.{BoundedBy}
use distributed_group_member.Gossip.{renewed, handle_alive_message}
use distributed_group_member.Controller.{run_callback, recipients}
use distributed_group_member.Controller.Clearance.{hear_all, cleared_teller_removed}
use distributed_group_member.Gossip.Rounds.{suspect_threshold, confirm_threshold}
use distributed_group_member.Gossip.Rounds as GossipRounds
use distributed_group_member.Gossip.Detection.Silence.{
  Thresholds, SuspectedSince, silent_member_removed,
}
use distributed_group_member.Gossip.Detection.Verdicts.{sweep_effect}
use distributed_group_member.Gossip.Sweep.{carried, verdict_by}
use distributed_group_member.PingAck.Updates as PingUpdates
use distributed_group_member.PingAck.Probes.{Period, end_silent}
use distributed_group_member.PingAck.Detection.{silent_target_removed}
use distributed_group_member.Network.{NetworkLayer, receive, handler_of, capacity}
use distributed_group_member.Network.Fifo.{arrives, taken, admitted, Fits, run, run_lem}
use distributed_group_member.System.{
  Machine, Handler, new_machine, start, switch_mode, process_queue, stop_controller,
}
use distributed_group_member.System.Handlers.{answer_of, handler_of-switch_mode}
use distributed_group_member.System.Steps.Stopped.{later_switch_panics}
use distributed_group_member.System.Steps.{here, then_step, started_step, packet_step, message_step}
use distributed_group_member.System.Steps.Handling.{IsSafe}
use distributed_group_member.System.Steps.Invariant.{reached-IsSafe}
use distributed_group_member.Scenarios.{
  self, peer, self_member, peer_member, two_members, calm, detector, prober, refutation,
}
use distributed_group_member.Scenarios.Facts.{keys_apart, keys_apart_sym, calm-Inv, peer_calm}

-- Every packet is the heartbeat of the peer.
abbrev always : Text → Option Message
always packet = some refutation

abbrev gossiper : Machine
gossiper = new_machine gossip_mode self 1

reached-IsSafe_example : IsSafe (
    process_queue 5
      (record (start gossiper) { network = receive always false [] (start gossiper).network }))
reached-IsSafe_example = reached-IsSafe gossip_mode self 1 (
    then_step (then_step (then_step here started_step) (packet_step always false []))
      (message_step 5 (omega arith)))

detector-Thresholds : Thresholds detector (2 * second) (3 * second) (1 * second)
unfolding suspect_threshold confirm_threshold optimal_timeout_config ◌+ℤ◌ wrap64
detector-Thresholds = record {
  suspecting = refl;
  confirming = refl;
  cleaning = refl;
  suspects_later = omega arith;
  suspect_fits = omega arith;
  confirm_fits = omega arith;
  cleanup_fits = omega arith;
}

silent_member_removed_example :
    SuspectedSince (3 * second) (
      member_at
        (to_string peer)
        (GossipRounds.check_failures detector (3 * second) calm).membership)
    × (member_at
          (to_string peer)
          (GossipRounds.check_failures detector
            (6 * second)
            (GossipRounds.check_failures detector (3 * second) calm)).membership
        ≡ none)
silent_member_removed_example =
    silent_member_removed detector (2 * second) (3 * second) (1 * second) detector-Thresholds
      (3 * second) (6 * second) (to_string peer) calm peer_member refl (omega arith) calm-Inv
      keys_apart_sym peer_calm refl (omega arith) (omega arith)

-- The peer clears a third member at incarnation 2, and has a heartbeat left of its own.
abbrev third : NodeId
third = record { ip = b'c' ∷ []; port = pos 3; timestamp = pos 1 }

abbrev teller : Node
teller = record calm {
  membership = record two_members {
    local_node = peer;
    members =
        (to_string self, self_member)
        ∷ (to_string peer, peer_member)
        ∷ (to_string third, fresh_member third (pos 2) suspected 1)
        ∷ [];
  };
}

abbrev about_self : MemberUpdate
about_self = record { node_id = self; incarnation = pos 0; status = alive; timestamp = 1000 }

abbrev beat : Message
beat = record (plain heartbeat peer zero_id (pos 0)) { members = about_self ∷ [] }

no_higher_entry : BoundedBy (pos 2) (entry_at (to_string peer) calm)
unfolding lookup
no_higher_entry = tt

cleared_teller_removed_example :
    let teller' = run_callback (on_clear third (pos 2)) 1000 teller in
    let told = plain alive_msg peer zero_id (pos 2) in
    let nd' = handle_alive_message detector (record told { timestamp = unix 1000 }) 2000 calm in
    let heard = hear_all detector ((beat, 3000) ∷ []) nd' in
    (teller'.sent ≡ [] ++ mail 1000 told (recipients third teller'.membership))
    × (member_at (to_string peer) nd'.membership ≡ some (renewed (pos 2) 2000 peer_member))
    × (member_at (to_string peer) heard.membership ≡ some (renewed (pos 2) 2000 peer_member))
    × SuspectedSince (3 * second) (
        member_at
          (to_string peer)
          (GossipRounds.check_failures detector (3 * second) heard).membership)
    × (member_at
          (to_string peer)
          (GossipRounds.check_failures detector
            (6 * second)
            (GossipRounds.check_failures detector (3 * second) heard)).membership
        ≡ none)
cleared_teller_removed_example =
    cleared_teller_removed third (pos 2) 1000 2000 (3 * second) (6 * second) detector (2 * second)
      (3 * second) (1 * second) teller calm peer_member ((beat, 3000) ∷ []) detector-Thresholds refl
      refl calm-Inv (omega arith) keys_apart_sym peer_calm (omega arith) no_higher_entry
      (
        record {
          spoken = refl;
          lower = omega arith;
          others = (keys_apart, tt);
          positive = omega arith;
        },
        tt,
      )
      (omega arith) (omega arith) (omega arith)

sweep_effect_example :
    member_at (to_string peer) (GossipRounds.sweep detector (3 * second) two_members)
    ≡ ite
        (Text-discrete (to_string peer) (to_string self))
        (member_at (to_string peer) two_members)
        (carried
          (3 * second)
          (verdict_by true (3 * second) (2 * second) (3 * second) (1 * second))
          (member_at (to_string peer) two_members))
sweep_effect_example =
    sweep_effect detector (3 * second) (2 * second) (3 * second) (1 * second) two_members
      (to_string peer) detector-Thresholds calm-Inv.formed

abbrev silence : Period
silence = record { target = peer; seq_num = 1; updates = [] }

probe_timeout : prober.timeouts.suspicion_timeout ≡ pos (1500 * millisecond)
unfolding optimal_timeout_config
probe_timeout = refl

silent_target_removed_example :
    let (p', nd') = end_silent (3 * second) silence prober calm in
    (lookup ℕ_discrete 1 p'.pending_acks ≡ none)
    × SuspectedSince (3 * second) (member_at (to_string peer) nd'.membership)
    × (member_at (to_string peer) (PingUpdates.check_failures p' (6 * second) nd').membership
        ≡ none)
silent_target_removed_example =
    silent_target_removed (3 * second) (6 * second) (1500 * millisecond) silence prober calm
      peer_member refl probe_timeout (omega arith) (omega arith) calm-Inv keys_apart_sym peer_calm
      refl (omega arith)

abbrev layer : NetworkLayer Handler
layer = record { message_queue = []; handlers = []; closed = false }

layer-Fits : Fits always layer 0
layer-Fits = record { running = refl; counted = refl; bounded = omega arith }

run_lem_example :
    let (n', out') = run always (arrives [] false ∷ taken ∷ []) (layer, []) in
    (out' ++ n'.message_queue ≡ [] ++ admitted always (arrives [] false ∷ taken ∷ []) 0)
    × (length n'.message_queue ≤ capacity)
run_lem_example = run_lem always (arrives [] false ∷ taken ∷ []) layer [] 0 layer-Fits

handler_of-switch_mode_example :
    handler_of heartbeat (switch_mode ping_ack_mode (start gossiper)).0.network
    ≡ answer_of ping_ack_mode heartbeat (answer_of gossip_mode heartbeat none)
handler_of-switch_mode_example = handler_of-switch_mode gossip_mode ping_ack_mode heartbeat self 1

abbrev prober_machine : Machine
prober_machine = start (new_machine ping_ack_mode self 1)

abbrev failed_peer : Message
failed_peer = plain confirm self peer (pos 0)

abbrev stopped_machine : Machine
stopped_machine = record gossiper {
  ping_stopped = true;
  gossip = record detector { active = false };
}

later_switch_panics_example :
    ((switch_mode gossip_mode (start (switch_mode gossip_mode gossiper).0)).1 ≡ true)
    × ((stop_controller
          (switch_mode ping_ack_mode (start (switch_mode gossip_mode gossiper).0)).0).1
        ≡ true)
later_switch_panics_example = later_switch_panics gossiper (then_step here started_step)

abbrev waiting : Machine
waiting = record gossiper {
  network = record { message_queue = refutation ∷ failed_peer ∷ []; handlers = []; closed = false };
}

abbrev five : ℕ → ℕ
five n = 5
