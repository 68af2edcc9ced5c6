-- ===== src/Control/Laws.antt =====
-- The control server and its client together.
use distributed_group_member.Common.{
  ◌≡◌, refl, sym, ap, ◌∙◌, ℕ, [], ◌∷◌, none, some, if_cases, ℕ_discrete,
}
use distributed_group_member.Types.{Text, Text-discrete, codes, to_string, text_eqb, Message}
use distributed_group_member.Membership.{member_at, local_key}
use distributed_group_member.Gossip
use distributed_group_member.Gossip.Leaving.{left_none, handle_leave-local}
use distributed_group_member.System.{Machine, dispatch, gossip_leave}
use distributed_group_member.Control.{
  aborted, handle_list_self, Route, list_mem, list_self, display_suspects, join, leave, switch,
  display_protocol, path_of, find_route, routes,
}
use distributed_group_member.Control.Client.{
  Action, ends, asks, greps, Variables, ask_join, ask_switch, grep_logs, run_client,
}

find_route-path_of : (r : Route) → find_route (path_of r) routes ≡ some r
unfolding find_route path_of text_eqb Text-discrete ℕ_discrete
find_route-path_of list_mem = refl
find_route-path_of list_self = refl
find_route-path_of display_suspects = refl
find_route-path_of join = refl
find_route-path_of leave = refl
find_route-path_of switch = refl
find_route-path_of display_protocol = refl

-- A request of the client goes to a route of the server.
abbrev pub IsServed : Action → Type 0
IsServed (ends text) = Unit
IsServed (greps hosts port request) = Unit
IsServed (asks path q) = (r : Route) × (find_route path routes ≡ some r)

ask_join-IsServed : (arg1 : Text) → IsServed (ask_join arg1)
unfolding ask_join path_of
ask_join-IsServed [] = tt
ask_join-IsServed (c ∷ s) = (join, find_route-path_of join)

ask_switch-IsServed : (arg1 arg2 : Text) → IsServed (ask_switch arg1 arg2)
unfolding ask_switch path_of
ask_switch-IsServed [] arg2 = tt
ask_switch-IsServed (c ∷ s) [] = tt
ask_switch-IsServed (c ∷ s) (d ∷ t) = (switch, find_route-path_of switch)

grep_logs-IsServed : (env : Variables) (arg1 arg2 : Text) → IsServed (grep_logs env arg1 arg2)
unfolding grep_logs
grep_logs-IsServed env [] arg2 = tt
grep_logs-IsServed env (c ∷ s) arg2 = tt

-- Whatever the command and its arguments: a request that the client sends to the control server is for a
-- path that the server has a route for.
pub run_client-IsServed :
    (to_lower : Text → Text) (env : Variables) (cmd arg1 arg2 : Text)
    → IsServed (run_client to_lower env cmd arg1 arg2)
unfolding run_client path_of
run_client-IsServed to_lower env cmd arg1 arg2 =
    let word = to_lower cmd in
    if_cases IsServed (text_eqb word (codes "list_mem"))
      (λ _. (list_mem, find_route-path_of list_mem))
      (λ _.
        if_cases IsServed (text_eqb word (codes "list_self"))
          (λ _. (list_self, find_route-path_of list_self))
          (λ _.
            if_cases IsServed (text_eqb word (codes "display_suspects"))
              (λ _. (display_suspects, find_route-path_of display_suspects))
              (λ _.
                if_cases IsServed (text_eqb word (codes "join")) (λ _. ask_join-IsServed arg1)
                  (λ _.
                    if_cases IsServed (text_eqb word (codes "leave"))
                      (λ _. (leave, find_route-path_of leave))
                      (λ _.
                        if_cases IsServed (text_eqb word (codes "switch"))
                          (λ _. ask_switch-IsServed arg1 arg2)
                          (λ _.
                            if_cases IsServed (text_eqb word (codes "display_protocol"))
                              (λ _. (display_protocol, find_route-path_of display_protocol))
                              (λ _.
                                if_cases IsServed (text_eqb word (codes "grep_logs"))
                                  (λ _. grep_logs-IsServed env arg1 arg2) (λ _. tt))))))))

no_entry_aborts :
    (m : Machine)
    → member_at (local_key m.node.membership) m.node.membership ≡ none
    → handle_list_self m ≡ aborted
unfolding handle_list_self
no_entry_aborts m gone = rw (handle_list_self, gone) refl

-- After a Leave that names the local node as its sender, the handler of `list_self` panics.
pub list_self_aborts :
    (m : Machine) (msg : Message) (now : ℕ)
    → to_string msg.sender ≡ local_key m.node.membership
    → handle_list_self (dispatch gossip_leave msg now m) ≡ aborted
unfolding dispatch
list_self_aborts m msg now self =
    let left = Gossip.Group.handle_leave msg now m.node in
    let same : local_key left.membership ≡ to_string msg.sender =
      ap to_string (handle_leave-local msg now m.node) ∙ sym self in
    let gone : member_at (local_key left.membership) left.membership ≡ none =
      ap (λ k. member_at k left.membership) same ∙ left_none msg now m.node in
    no_entry_aborts (dispatch gossip_leave msg now m) gone
