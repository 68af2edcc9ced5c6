-- ===== src/Controller/Callbacks.antt =====
-- What the callbacks of `NewController` do to the members, and what they tell the others.
use mathlib.Core.Option
use distributed_group_member.Common.{
  ◌≡◌, refl, sym, ap, ◌∙◌, ◌≢◌, ℕ, ℤ, List, map, ◌||◌, leb_ℤ, if◌then◌else◌, arith, Filters,
  select-Filters, ◌++◌, some, ite, if_pos, if_cases, not, ◌<ℤ◌,
}
use distributed_group_member.Types.{
  Text, Text-discrete, NodeId, to_string, Member, Message, plain, zero_id, suspect, confirm,
  alive_msg, failed, alive, suspected, address, text_eqb,
}
use distributed_group_member.Common.Dict.{values}
use distributed_group_member.Types.Keys.{text_eqb_iff}
use distributed_group_member.Membership.{member_at, local_key}
use distributed_group_member.Node.{
  Node, Callback, on_suspect, on_confirm, on_clear, send_all, peers_but,
}
use distributed_group_member.Node.Sending.{mail, send_all_lem}
use distributed_group_member.Suspicion.{modify_member}
use distributed_group_member.Suspicion.Members.{member_at-modify_member, modify_member-local}
use distributed_group_member.Gossip.{GossipManager, handle_alive_message}
use distributed_group_member.Gossip.Others.{cleared-other, alive-other}
use distributed_group_member.Controller.{
  recipients, suspected_member, run_on_suspect, confirmed_member, run_on_confirm, cleared_member,
  run_on_clear, run_callback,
}

-- The target of a callback, what becomes of it, and the message about it.
unfoldable pub target_of : Callback → NodeId
target_of (on_suspect target inc rs) = target
target_of (on_confirm target inc) = target
target_of (on_clear target inc) = target

unfoldable pub outcome_of : Callback → ℕ → Member → Member
outcome_of (on_suspect target inc rs) now m = record m {
  status = suspected;
  incarnation = inc;
  suspicion_start = now;
}
outcome_of (on_confirm target inc) now m = record m { status = failed; incarnation = inc }
outcome_of (on_clear target inc) now m = record m {
  status = alive;
  incarnation = if leb_ℤ m.incarnation inc then inc else m.incarnation;
  last_heartbeat = now;
  suspicion_start = 0;
}

unfoldable pub message_of : Callback → NodeId → Message
message_of (on_suspect target inc rs) local = plain suspect local target inc
message_of (on_confirm target inc) local = plain confirm local target inc
message_of (on_clear target inc) local = plain alive_msg local zero_id inc

told :
    (target : NodeId) (f : Member → Member) (msg : NodeId → Message) (now : ℕ) (nd : Node)
    (j : Text)
    → let ml = modify_member (to_string target) f nd.membership in
      let nd' =
        send_all now (msg ml.local_node) (recipients target ml) (record nd { membership = ml }) in
      (member_at j nd'.membership
        ≡ ite
            (Text-discrete (to_string target) j)
            (Option.map f (member_at j nd.membership))
            (member_at j nd.membership))
      × (nd'.sent
          ≡ nd.sent ++ mail now (msg nd.membership.local_node) (recipients target nd'.membership))
told target f msg now nd j = (
  rw send_all_lem (member_at-modify_member (to_string target) f nd.membership j),
  rw send_all_lem (
      ap
        (λ (l : NodeId).
          nd.sent
          ++ mail now (msg l)
              (recipients target (modify_member (to_string target) f nd.membership)))
        (modify_member-local (to_string target) f nd.membership)),
)

pub callback_lem :
    (c : Callback) (now : ℕ) (nd : Node) (j : Text)
    → let nd' = run_callback c now nd in
      (member_at j nd'.membership
        ≡ ite
            (Text-discrete (to_string (target_of c)) j)
            (Option.map (outcome_of c now) (member_at j nd.membership))
            (member_at j nd.membership))
      × (nd'.sent
          ≡ nd.sent
            ++ mail now
                (message_of c nd.membership.local_node)
                (recipients (target_of c) nd'.membership))
unfolding run_callback run_on_suspect run_on_confirm run_on_clear target_of outcome_of message_of
    suspected_member confirmed_member cleared_member
callback_lem (on_suspect target inc rs) now nd j =
    told target (suspected_member inc now) (λ l. plain suspect l target inc) now nd j
callback_lem (on_confirm target inc) now nd j =
    told target (confirmed_member inc) (λ l. plain confirm l target inc) now nd j
callback_lem (on_clear target inc) now nd j =
    told target (cleared_member inc now) (λ l. plain alive_msg l zero_id inc) now nd j

-- The others: neither the local node nor the target.
abbrev pub IsOther : Node → NodeId → Member → Type 0
IsOther nd target m =
    (to_string m.id ≢ local_key nd.membership) × (to_string m.id ≢ to_string target)

recipients-Filters :
    (target : NodeId) (nd : Node)
    → (others : List Member) × Filters (IsOther nd target) (values nd.membership.members) others
      × (recipients target nd.membership ≡ map (λ m. address m.id) others)
unfolding peers_but
recipients-Filters target nd = (
  _,
  select-Filters (IsOther nd target)
      (λ m. not (
        text_eqb (to_string m.id) (local_key nd.membership)
        || text_eqb (to_string m.id) (to_string target)))
      (λ m e. (
        λ own. ground (arith, e, (text_eqb_iff (to_string m.id) (local_key nd.membership)).1 own),
        λ same. ground (arith, e, (text_eqb_iff (to_string m.id) (to_string target)).1 same),
      ))
      (λ m e (own, same). ground (
        arith,
        e,
        (text_eqb_iff (to_string m.id) (local_key nd.membership)).0,
        (text_eqb_iff (to_string m.id) (to_string target)).0,
        own,
        same,
      ))
      (values nd.membership.members),
  refl,
)

-- A callback changes its target's member alone, if there is one: it turns Suspected since now, or
-- Failed, at the incarnation of the callback, or Alive, heard of now, at the higher of the two. It sends
-- one message of its kind with that incarnation, from the local node, to the addresses of the members that
-- are neither the local node nor the target, in the order of the list.
pub run_callback_effect :
    (c : Callback) (now : ℕ) (nd : Node) (j : Text)
    → let nd' = run_callback c now nd in
      (member_at j nd'.membership
        ≡ ite
            (Text-discrete (to_string (target_of c)) j)
            (Option.map (outcome_of c now) (member_at j nd.membership))
            (member_at j nd.membership))
      × ((others : List Member) × Filters
            (IsOther nd' (target_of c))
            (values nd'.membership.members)
            others
          × (nd'.sent
              ≡ nd.sent
                ++ mail now
                    (message_of c nd.membership.local_node)
                    (map (λ m. address m.id) others)))
run_callback_effect c now nd j =
    let (changed, sent) = callback_lem c now nd j in
    let (others, chosen, told_to) = recipients-Filters (target_of c) (run_callback c now nd) in
    (
      changed,
      (
        others,
        chosen,
        sent ∙ ap (λ l. nd.sent ++ mail now (message_of c nd.membership.local_node) l) told_to,
      ),
    )

-- The callback of a confirmed failure overwrites the higher incarnation of its target on record by
-- the lower one of the failure.
pub confirm_callback_lowers :
    (target : NodeId) (inc : ℤ) (now : ℕ) (nd : Node) (m : Member)
    → member_at (to_string target) nd.membership ≡ some m
    → inc <ℤ m.incarnation
    → member_at (to_string target) (run_on_confirm target inc now nd).membership
      ≡ some (record m { status = failed; incarnation = inc })
unfolding run_callback target_of outcome_of confirmed_member
confirm_callback_lowers target inc now nd m e h =
    (callback_lem (on_confirm target inc) now nd (to_string target)).0
    ∙ if_pos (Text-discrete (to_string target) (to_string target)) refl _ _
    ∙ ap (Option.map (confirmed_member inc)) e

-- The message of a cleared suspicion changes nothing that its receiver holds of the member that
-- was cleared, where that is not the sender.
pub clear_message_misses :
    (g : GossipManager) (target local : NodeId) (inc : ℤ) (now : ℕ) (nd : Node)
    → to_string target ≢ to_string local
    → member_at
        (to_string target)
        (handle_alive_message g (message_of (on_clear target inc) local) now nd).membership
      ≡ member_at (to_string target) nd.membership
unfolding handle_alive_message message_of
clear_message_misses g target local inc now nd other =
    if_cases
      (λ (r : Node).
        member_at (to_string target) r.membership ≡ member_at (to_string target) nd.membership)
      (not g.active) (λ _. refl)
      (λ _.
        cleared-other local inc _ (to_string target) (λ e. other (sym e))
        ∙ alive-other local inc now nd.membership (to_string target) (λ e. other (sym e)))
