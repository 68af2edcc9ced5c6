-- ===== src/Controller.antt =====
-- main.go: the callbacks that `NewController` gives to the suspicion manager. Each runs in a goroutine
-- of its own; its part under the lock and its sends are one step.
pub mod Invariant
pub mod Callbacks
pub mod Clearance
use distributed_group_member.Common.{
  ℕ, ◌*◌, ◌^◌, Bool, true, false, ◌||◌, List, [], ◌∷◌, Option, none, some, ℤ, pos, leb_ℤ,
  if◌then◌else◌,
}
use distributed_group_member.Types.{
  Text, NodeId, to_string, text_eqb, Member, MessageType, Message, alive, suspected, failed, plain,
  zero_id, suspect, confirm, alive_msg,
}
use distributed_group_member.Membership.{
  MembershipList, member_at, store, local_key, new_membership_list,
}
use distributed_group_member.Node.{
  Node, Options, Callback, on_suspect, on_confirm, on_clear, send_all, peers_but,
}
use distributed_group_member.Suspicion.{with_members, modify_member, new_suspicion_manager}

-- The recipients of all three callbacks: every member but the local node and the target.
abbrev pub recipients : NodeId → MembershipList → List Text
recipients target ml =
    peers_but (λ k. text_eqb k (local_key ml) || text_eqb k (to_string target)) ml

unfoldable pub suspected_member : ℤ → ℕ → Member → Member
suspected_member inc now m = record m {
  status = suspected;
  incarnation = inc;
  suspicion_start = now;
}

unfoldable pub run_on_suspect : NodeId → ℤ → ℕ → Node → Node
run_on_suspect target inc now nd =
    let ml = modify_member (to_string target) (suspected_member inc now) nd.membership in
    send_all now (plain suspect ml.local_node target inc) (recipients target ml)
      (record nd { membership = ml })

unfoldable pub confirmed_member : ℤ → Member → Member
confirmed_member inc m = record m { status = failed; incarnation = inc }

unfoldable pub run_on_confirm : NodeId → ℤ → ℕ → Node → Node
run_on_confirm target inc now nd =
    let ml = modify_member (to_string target) (confirmed_member inc) nd.membership in
    send_all now (plain confirm ml.local_node target inc) (recipients target ml)
      (record nd { membership = ml })

unfoldable pub cleared_member : ℤ → ℕ → Member → Member
cleared_member inc now m = record m {
  status = alive;
  incarnation = if leb_ℤ m.incarnation inc then inc else m.incarnation;
  last_heartbeat = now;
  suspicion_start = 0;
}

-- The message has no target.
unfoldable pub run_on_clear : NodeId → ℤ → ℕ → Node → Node
run_on_clear target inc now nd =
    let ml = modify_member (to_string target) (cleared_member inc now) nd.membership in
    send_all now (plain alive_msg ml.local_node zero_id inc) (recipients target ml)
      (record nd { membership = ml })

-- The reporters are only logged.
unfoldable pub run_callback : Callback → ℕ → Node → Node
run_callback (on_suspect target inc reporters) now nd = run_on_suspect target inc now nd
run_callback (on_confirm target inc) now nd = run_on_confirm target inc now nd
run_callback (on_clear target inc) now nd = run_on_clear target inc now nd

-- The options of `NewController`, in nanoseconds.
abbrev pub controller_options : Options
controller_options = record {
  suspicion_timeout = pos 2000000000;
  check_interval = pos 200000000;
  require_reports = pos 1;
  confirmed_retention = pos 3000000000;
  on_suspect = true;
  on_confirm = true;
  on_clear = true;
}

-- The state that `NewController` sets up.
unfoldable pub new_controller : NodeId → ℕ → Node
new_controller id now = new_suspicion_manager (new_membership_list id now) controller_options
