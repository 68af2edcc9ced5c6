-- ===== src/Controller/Invariant.antt =====
-- The callbacks and the initial state against the invariant of the node.
use distributed_group_member.Common.{◌≡◌, refl, ℕ, List, arith}
use distributed_group_member.Types.{Text, NodeId, to_string, Member, Message}
use distributed_group_member.Membership.Invariant.{new-IsWellFormed}
use distributed_group_member.Node.{Node, Callback, on_suspect, on_confirm, on_clear}
use distributed_group_member.Node.Sending.{send_all_lem}
use distributed_group_member.Suspicion.{with_defaults, new_suspicion_manager, modify_member}
use distributed_group_member.Suspicion.Members.{modify_member-IsWellFormed}
use distributed_group_member.Suspicion.Entries.{Inv}
use distributed_group_member.Gossip.Invariant.{with_list-Inv, sent-Inv}
use distributed_group_member.Controller.{
  suspected_member, run_on_suspect, confirmed_member, run_on_confirm, cleared_member, run_on_clear,
  run_callback, new_controller,
}

modified-Inv :
    (target : NodeId) (f : Member → Member) (nd : Node) (sent : List (Text × Message))
    → ((m : Member) → (f m).id ≡ m.id)
    → Inv nd
    → Inv (record nd { membership = modify_member (to_string target) f nd.membership; sent = sent })
modified-Inv target f nd sent same v = sent-Inv _ sent (
    with_list-Inv nd _ v
      (modify_member-IsWellFormed (to_string target) f nd.membership same v.formed))

pub run_callback-Inv : (c : Callback) (now : ℕ) (nd : Node) → Inv nd → Inv (run_callback c now nd)
unfolding run_callback run_on_suspect run_on_confirm run_on_clear suspected_member confirmed_member
    cleared_member
run_callback-Inv (on_suspect target inc rs) now nd v =
    rw send_all_lem (modified-Inv target (suspected_member inc now) nd _ (λ m. refl) v)
run_callback-Inv (on_confirm target inc) now nd v =
    rw send_all_lem (modified-Inv target (confirmed_member inc) nd _ (λ m. refl) v)
run_callback-Inv (on_clear target inc) now nd v =
    rw send_all_lem (modified-Inv target (cleared_member inc now) nd _ (λ m. refl) v)

pub new_controller-Inv : (id : NodeId) (now : ℕ) → Inv (new_controller id now)
unfolding new_controller new_suspicion_manager with_defaults
new_controller-Inv id now = record {
  formed = new-IsWellFormed id now;
  unique = tt;
  sound = tt;
  positive = ground arith;
}
