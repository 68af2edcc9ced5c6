-- ===== src/Control.antt =====
-- main.go: the HTTP control server of a node and the client that `-cmd` runs. A query is the list of its
-- parameters in their order; that `url.Values.Encode` and `URL.Query` undo each other is built in.
-- `strings.ToLower` is a parameter, and so is what `JoinGroup` returns of the error of its send.
pub mod Client
pub mod Laws
pub mod Switching
pub mod Status
use distributed_group_member.Common.{
  ℕ, Bool, true, false, not, ◌&&◌, List, [], ◌∷◌, ◌++◌, Option, none, some, if◌then◌else◌, map,
  select,
}
use distributed_group_member.Types.{
  Text, codes, to_string, text_eqb, DetectionMode, gossip_mode, ping_ack_mode, MemberStatus, alive,
  suspected, failed, other, is_alive, Member,
}
use distributed_group_member.Types.Decimal.{decimal_ℤ}
use distributed_group_member.Membership.{
  MembershipList, member_at, local_key, get_all_members, get_suspected_members,
}
use distributed_group_member.System.{Machine, switch_mode, set_suspicion, join_group, leave_group}

-- `MemberStatus.String`
unfoldable pub status_text : MemberStatus → Text
status_text alive = codes "Alive"
status_text suspected = codes "Suspected"
status_text failed = codes "Failed"
status_text (other _) = codes "Unknown"

-- "  %s | %s | Inc:%d\n"
unfoldable pub member_line : Member → Text
unfolding status_text
member_line m =
    codes "  "
    ++ to_string m.id
    ++ codes " | "
    ++ status_text m.status
    ++ codes " | Inc:"
    ++ decimal_ℤ m.incarnation
    ++ 10 ∷ []

unfoldable pub member_lines : List Member → Text
unfolding member_line
member_lines [] = []
member_lines (m ∷ ms) = member_line m ++ member_lines ms

-- The answer of a handler: a status and a body, or none where the handler panics, which ends the
-- connection and not the process.
pub data Reply : Type 0 where
  replies : ℕ → Text → Reply
  aborted : Reply

abbrev pub Query : Type 0
Query = List (Text × Text)

-- `Values.Get`: the first value of the key, or the empty text.
unfoldable pub get : Text → Query → Text
get key [] = []
get key ((k, v) ∷ q) = let rest = get key q in if text_eqb k key then v else rest

-- `io.WriteString(w, "ok\n")`
abbrev pub ok : Reply
ok = replies 200 (codes "ok" ++ 10 ∷ [])

-- `http.Error`
abbrev pub http_error : ℕ → Text → Reply
http_error status text = replies status (text ++ 10 ∷ [])

unfoldable pub handle_list_mem : Machine → Reply
unfolding member_lines
handle_list_mem m =
    replies 200 (member_lines (select (λ x. is_alive x.status) (get_all_members m.node.membership)))

-- The member of the local node, without a test that there is one.
unfoldable pub handle_list_self : Machine → Reply
unfolding member_line
handle_list_self m = elim (member_at (local_key m.node.membership) m.node.membership) [
  | none ↦ aborted
  | some x ↦ replies 200 (member_line x)
]

unfoldable pub handle_display_suspects : Machine → Reply
unfolding member_lines
handle_display_suspects m = replies 200 (member_lines (get_suspected_members m.node.membership))

unfoldable pub handle_join : Query → Option Text → ℕ → Machine → Machine × Reply
unfolding get
handle_join q err now m =
    let intro = get (codes "introducer") q in
    if text_eqb intro []
    then (m, http_error 400 (codes "introducer is required"))
    else (join_group intro now m, elim err [ none ↦ ok | some e ↦ http_error 500 e ])

unfoldable pub handle_leave : ℕ → Machine → Machine × Reply
handle_leave now m = (leave_group now m, ok)

-- The end of `handleSwitch`: the panic of a switch leaves the suspicion as it is.
unfoldable pub switch_to : DetectionMode → Bool → Machine → Machine × Reply
switch_to mode enable m =
    let (m', panics) = switch_mode mode m in
    if panics then (m', aborted) else (set_suspicion enable m', ok)

-- The rest of `handleSwitch`, behind the two parameters in lower case.
unfoldable pub switch_words : Text → Text → Machine → Machine × Reply
unfolding switch_to
switch_words mech susp m =
    let mode = if text_eqb mech (codes "ping") then ping_ack_mode else gossip_mode in
    if not (text_eqb mech (codes "gossip")) && not (text_eqb mech (codes "ping"))
    then (m, http_error 400 (codes "mechanism must be 'gossip' or 'ping'"))
    else if not (text_eqb susp (codes "suspect")) && not (text_eqb susp (codes "nosuspect"))
    then (m, http_error 400 (codes "suspicion must be 'suspect' or 'nosuspect'"))
    else switch_to mode (text_eqb susp (codes "suspect")) m

unfoldable pub handle_switch : (Text → Text) → Query → Machine → Machine × Reply
unfolding get switch_words
handle_switch to_lower q m =
    switch_words (to_lower (get (codes "mechanism") q)) (to_lower (get (codes "suspicion") q)) m

abbrev pub suspicion_text : Bool → Text
suspicion_text enable = if enable then codes "suspect" else codes "nosuspect"

-- `Controller.GetProtocol`
unfoldable pub get_protocol : Machine → Text × Text
get_protocol m = elim m.mode [
  | gossip_mode ↦ (codes "gossip", suspicion_text m.gossip.enable_suspicion)
  | ping_ack_mode ↦ (codes "ping", suspicion_text m.pinger.enable_suspicion)
]

-- "(%s, %s)"
abbrev pub protocol_line : Text × Text → Text
protocol_line (mech, susp) = codes "(" ++ mech ++ codes ", " ++ susp ++ codes ")"

unfoldable pub handle_display_protocol : Machine → Reply
unfolding get_protocol
handle_display_protocol m = replies 200 (protocol_line (get_protocol m))

-- The routes of `NewControlServer`.
pub data Route : Type 0 where
  list_mem list_self display_suspects join leave switch display_protocol : Route

unfoldable pub path_of : Route → Text
path_of list_mem = codes "/list_mem"
path_of list_self = codes "/list_self"
path_of display_suspects = codes "/display_suspects"
path_of join = codes "/join"
path_of leave = codes "/leave"
path_of switch = codes "/switch"
path_of display_protocol = codes "/display_protocol"

-- A request as the server runs its handler.
unfoldable pub run_route :
    (Text → Text) → Route → Query → Option Text → ℕ → Machine → Machine × Reply
unfolding handle_list_mem handle_list_self handle_display_suspects handle_join handle_leave
    handle_switch handle_display_protocol
run_route to_lower list_mem q err now m = (m, handle_list_mem m)
run_route to_lower list_self q err now m = (m, handle_list_self m)
run_route to_lower display_suspects q err now m = (m, handle_display_suspects m)
run_route to_lower join q err now m = handle_join q err now m
run_route to_lower leave q err now m = handle_leave now m
run_route to_lower switch q err now m = handle_switch to_lower q m
run_route to_lower display_protocol q err now m = (m, handle_display_protocol m)

-- The multiplexer: the first route with the path.
unfoldable pub find_route : Text → List Route → Option Route
unfolding path_of
find_route path [] = none
find_route path (r ∷ rs) =
    let rest = find_route path rs in if text_eqb (path_of r) path then some r else rest

abbrev pub routes : List Route
routes = list_mem ∷ list_self ∷ display_suspects ∷ join ∷ leave ∷ switch ∷ display_protocol ∷ []

unfoldable pub serve : (Text → Text) → Text → Query → Option Text → ℕ → Machine → Machine × Reply
unfolding find_route run_route
serve to_lower path q err now m = elim (find_route path routes) [
  | none ↦ (m, http_error 404 (codes "404 page not found"))
  | some r ↦ run_route to_lower r q err now m
]
