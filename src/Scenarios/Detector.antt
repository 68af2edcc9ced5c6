-- ===== src/Scenarios/Detector.antt =====
-- The theorems on the suspicion manager and the gossip detector at work.
use distributed_group_member.Types.Keys.{to_string-injective}
use distributed_group_member.Types.Decimal.{decimal, decimal_ℤ, digits_from}
use distributed_group_member.Common.Dict.{lookup, insert, delete, delete_all, keys, values}
use mathlib.Core.List.{Memᴰ}
use mathlib.Core.Option
use distributed_group_member.Common.Dict.Loops.{holds_at}
use distributed_group_member.Common.{
  List, map, Filters, none, if_pos, ◌∙◌, ◌≡◌, refl, ite, ℕ, ◌*◌, pos, true, [], ◌∷◌, ◌++◌, some,
  arith, if◌then◌else◌, ◌+ℤ◌, wrap64, eqb_ℤ, ℕ_discrete, ◌≢◌, ap,
}
use distributed_group_member.Types.{
  Text-discrete, NodeId, to_string, address, Member, Message, alive, failed, join, join_response,
  plain, zero_id, second, optimal_timeout_config, text_eqb,
}
use distributed_group_member.Membership.{
  member_at, fresh_member, unix, local_key, new_membership_list,
}
use distributed_group_member.Node.{SuspectEntry, on_confirm, on_suspect, Node, send}
use distributed_group_member.Node.Sending.{mail}
use distributed_group_member.Suspicion.{entry_at, process_suspicion, check, new_suspicion_manager}
use distributed_group_member.Suspicion.Entries.{Keeps}
use distributed_group_member.Suspicion.Reports.{Outcome, process_suspicion-Outcome}
use distributed_group_member.Suspicion.Expiry.{check_confirms}
use distributed_group_member.Gossip.{handle_heartbeat}
use distributed_group_member.Gossip.Handlers.{handle_heartbeat-Keeps}
use distributed_group_member.Gossip.Group.{
  is_old_life, handle_join, snapshot, admit, old_lives, add_recent_updates,
}
use distributed_group_member.Gossip.Effects.{handle_join_effect}
use distributed_group_member.Gossip.Rounds.{suspect_threshold, confirm_threshold}
use distributed_group_member.Controller.{run_callback, new_controller}
use distributed_group_member.Controller.Callbacks.{
  IsOther, target_of, outcome_of, message_of, run_callback_effect,
}
use distributed_group_member.Scenarios.{
  self, peer, calm, alarmed, suspected_peer, open_entry, detector, refutation, self_member,
}
use distributed_group_member.Scenarios.Facts.{
  keys_apart_sym, calm-Inv, alarmed-Inv, peer_alarmed, entry_alarmed,
}

handle_heartbeat-Keeps_example : Keeps alarmed (handle_heartbeat detector refutation 2000 alarmed)
handle_heartbeat-Keeps_example =
    handle_heartbeat-Keeps detector refutation 2000 alarmed (omega arith) alarmed-Inv

abbrev three_seconds : ℕ
three_seconds = 3 * second

check_confirms_example :
    (member_at (to_string peer) (check three_seconds alarmed).membership
      ≡ some (record suspected_peer { status = failed }))
    × ((e' : SuspectEntry) × (entry_at (to_string peer) (check three_seconds alarmed) ≡ some e')
        × (e'.confirmed ≡ true)
        × (e'.confirmed_at ≡ three_seconds))
    × Memᴰ (on_confirm peer (pos 0)) (check three_seconds alarmed).spawned
check_confirms_example =
    check_confirms three_seconds (2 * second) alarmed (to_string peer) open_entry suspected_peer
      alarmed-Inv refl (omega arith) refl entry_alarmed (omega arith) refl (omega arith)
      peer_alarmed

process_suspicion-Outcome_example :
    Outcome self peer (pos 0) 1000 calm (process_suspicion self peer (pos 0) 1000 calm)
process_suspicion-Outcome_example =
    process_suspicion-Outcome self peer (pos 0) 1000 calm keys_apart_sym

-- The peer is back with a new timestamp.
abbrev reborn : NodeId
reborn = record peer { timestamp = pos 9 }

abbrev join_message : Message
join_message = plain join reborn zero_id (pos 0)

handle_join_effect_example :
    let nd' = handle_join detector join_message 9000 calm in
    (member_at (to_string peer) nd'.membership
      ≡ ite
          (Text-discrete (to_string reborn) (to_string peer))
          (some (fresh_member reborn (pos 0) alive 9000))
          (if holds_at
              (is_old_life reborn)
              (to_string peer)
              (member_at (to_string peer) calm.membership)
            then none
            else member_at (to_string peer) calm.membership))
    × (nd'.sent
        ≡ []
          ++ (
            address reborn,
            record (plain join_response self zero_id (pos 0)) {
              members = snapshot 9000 nd'.membership;
              timestamp = unix 9000;
            },
          )
            ∷ [])
handle_join_effect_example =
    handle_join_effect detector join_message 9000 calm (to_string peer) refl calm-Inv.formed

abbrev reborn_member : Member
reborn_member = fresh_member reborn (pos 0) alive 9000

reborn_joined :
    member_at (to_string reborn) (handle_join detector join_message 9000 calm).membership
    ≡ some reborn_member
reborn_joined =
    (handle_join_effect detector join_message 9000 calm (to_string reborn) refl calm-Inv.formed).0
    ∙ if_pos (Text-discrete (to_string reborn) (to_string reborn)) refl _ _

suspect_after : suspect_threshold detector ≡ pos (2 * second)
unfolding suspect_threshold optimal_timeout_config
suspect_after = refl

confirm_after : confirm_threshold detector ≡ pos (3 * second)
unfolding confirm_threshold suspect_threshold optimal_timeout_config ◌+ℤ◌ wrap64
confirm_after = refl

clean_up_after : detector.timeouts.cleanup_timeout ≡ pos (1 * second)
unfolding optimal_timeout_config
clean_up_after = refl

run_callback_effect_example :
    let c = on_suspect peer (pos 0) (self ∷ []) in
    let nd' = run_callback c 1000 calm in
    (member_at (to_string peer) nd'.membership
      ≡ ite
          (Text-discrete (to_string (target_of c)) (to_string peer))
          (Option.map (outcome_of c 1000) (member_at (to_string peer) calm.membership))
          (member_at (to_string peer) calm.membership))
    × ((others : List Member) × Filters
          (IsOther nd' (target_of c))
          (values nd'.membership.members)
          others
        × (nd'.sent ≡ [] ++ mail 1000 (message_of c self) (map (λ m. address m.id) others)))
run_callback_effect_example =
    run_callback_effect (on_suspect peer (pos 0) (self ∷ [])) 1000 calm (to_string peer)

self_stays :
    member_at (to_string self) (handle_join detector join_message 9000 calm).membership
    ≡ some self_member
unfolding handle_join send admit old_lives is_old_life snapshot add_recent_updates lookup insert
    delete delete_all keys text_eqb Text-discrete ℕ_discrete to_string address eqb_ℤ decimal_ℤ
    decimal digits_from
self_stays = refl

abbrev joiner : Node
joiner = new_controller reborn 9000

self_not_joiner : to_string self ≢ local_key joiner.membership
unfolding new_controller new_suspicion_manager new_membership_list
self_not_joiner e =
    let same : self ≡ reborn = to_string-injective self reborn e in
    let ports : pos 1 ≡ pos 2 = ap (λ (n : NodeId). n.port) same in absurd (ground (arith, ports))
