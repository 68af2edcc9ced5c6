-- ===== src/Control/Switching.antt =====
-- A switch of the detector, from the command line to what the node displays.
use distributed_group_member.Common.{
  ◌≡◌, refl, ℕ, Bool, true, false, not, [], ◌∷◌, Option, arith, inl, inr, ◌⊎◌, if_cases, Bool-cases,
  if◌then◌else◌, ◌&&◌, ℕ_discrete, ◌≢◌, subst₂,
}
use distributed_group_member.Types.{
  Text, Text-discrete, codes, text_eqb, DetectionMode, gossip_mode, ping_ack_mode,
}
use distributed_group_member.Types.Keys.{text_eqb_iff}
use distributed_group_member.PingAck.Probes.Waiters.{cancel_context}
use distributed_group_member.System.{
  Machine, switch_mode, set_suspicion, start_gossip, start_ping, stop_gossip, stop_ping,
}
use distributed_group_member.Control.{
  Reply, aborted, ok, http_error, Query, get, switch_to, handle_switch, suspicion_text,
  get_protocol, path_of, find_route, run_route, serve, switch_words,
}
use distributed_group_member.Control.Client.{asks, Variables, ask_switch, run_client}

abbrev name_of : DetectionMode → Text
name_of gossip_mode = codes "gossip"
name_of ping_ack_mode = codes "ping"

-- What a request for a switch leads to, for a mechanism and a suspicion in lower case.
pub data Switched (mech susp : Text) (m m' : Machine) (r : Reply) : Type 0 where
  refused :
      (text : Text)
      → ((mech ≢ codes "gossip") × (mech ≢ codes "ping"))
        ⊎ ((susp ≢ codes "suspect") × (susp ≢ codes "nosuspect"))
      → m' ≡ m
      → r ≡ http_error 400 text
      → Switched mech susp m m' r
  panicked :
      mech ≡ codes "gossip"
      → m.ping_stopped ≡ true
      → m'.mode ≡ gossip_mode
      → m'.gossip ≡ m.gossip
      → r ≡ aborted
      → Switched mech susp m m' r
  switched : get_protocol m' ≡ (mech, susp) → r ≡ ok → Switched mech susp m m' r

started-get_protocol :
    (enable : Bool) (m : Machine)
    → get_protocol (set_suspicion enable (start_gossip (record m { mode = gossip_mode })))
      ≡ (codes "gossip", suspicion_text enable)
unfolding get_protocol set_suspicion start_gossip
started-get_protocol enable m =
    if_cases
      (λ (x : Machine).
        get_protocol (set_suspicion enable x) ≡ (codes "gossip", suspicion_text enable))
      m.gossip.active (λ _. refl) (λ _. refl)

switch_to-Switched :
    (mode : DetectionMode) (enable : Bool) (m : Machine)
    → Switched
        (name_of mode)
        (suspicion_text enable)
        m
        (switch_to mode enable m).0
        (switch_to mode enable m).1
unfolding switch_to switch_mode set_suspicion get_protocol stop_ping start_ping stop_gossip
    start_gossip
switch_to-Switched ping_ack_mode enable m = switched refl refl
switch_to-Switched gossip_mode enable m = elim (Bool-cases m.ping_stopped) [
  | inl e ↦ rw (switch_to, switch_mode, stop_ping, e) (panicked refl refl refl refl refl)
  | inr e ↦
      rw (switch_to, switch_mode, stop_ping, e)
        (switched
          (started-get_protocol enable
            (record m { ping_stopped = true; pinger = cancel_context m.pinger }))
          refl)
]

mode_named :
    (mech : Text)
    → (not (text_eqb mech (codes "gossip")) && not (text_eqb mech (codes "ping"))) ≡ false
    → name_of (if text_eqb mech (codes "ping") then ping_ack_mode else gossip_mode) ≡ mech
mode_named mech e =
    ground (arith, (text_eqb_iff mech (codes "gossip")).0, (text_eqb_iff mech (codes "ping")).0)

suspicion_named :
    (susp : Text)
    → (not (text_eqb susp (codes "suspect")) && not (text_eqb susp (codes "nosuspect"))) ≡ false
    → suspicion_text (text_eqb susp (codes "suspect")) ≡ susp
suspicion_named susp e =
    ground
      (arith, (text_eqb_iff susp (codes "suspect")).0, (text_eqb_iff susp (codes "nosuspect")).0)

-- A text that is neither of two words.
neither : (s a b : Text) → (not (text_eqb s a) && not (text_eqb s b)) ≡ true → (s ≢ a) × (s ≢ b)
neither s a b e = (
  λ q. absurd (ground (arith, e, (text_eqb_iff s a).1 q)),
  λ q. absurd (ground (arith, e, (text_eqb_iff s b).1 q)),
)

switch_words-Switched :
    (mech susp : Text) (m : Machine)
    → Switched mech susp m (switch_words mech susp m).0 (switch_words mech susp m).1
unfolding switch_words
switch_words-Switched mech susp m =
    let P = λ (r : Machine × Reply). Switched mech susp m r.0 r.1 in
    let mode = if text_eqb mech (codes "ping") then ping_ack_mode else gossip_mode in
    let enable = text_eqb susp (codes "suspect") in
    if_cases P (not (text_eqb mech (codes "gossip")) && not (text_eqb mech (codes "ping")))
      (λ e.
        refused (codes "mechanism must be 'gossip' or 'ping'")
          (inl (neither mech (codes "gossip") (codes "ping") e)) refl refl)
      (λ e.
        if_cases P
          (not (text_eqb susp (codes "suspect")) && not (text_eqb susp (codes "nosuspect")))
          (λ h.
            refused (codes "suspicion must be 'suspect' or 'nosuspect'")
              (inr (neither susp (codes "suspect") (codes "nosuspect") h)) refl refl)
          (λ h.
            subst₂
              (λ (a b : Text).
                Switched a b m (switch_to mode enable m).0 (switch_to mode enable m).1)
              (mode_named mech e) (suspicion_named susp h) (switch_to-Switched mode enable m)))

-- The command `switch`, with both arguments, whatever the client makes of upper case: the server refuses it
-- with a 400 and changes nothing, where the first is neither gossip nor ping or the second neither suspect
-- nor nosuspect; or it panics, where gossip is asked for and the ping manager was stopped
-- before, in the mode of gossip with the gossip detector as it was; or it answers ok and the node displays
-- what was asked for.
pub run_client-Switched :
    (to_lower : Text → Text) (env : Variables) (cmd : Text) (c d : ℕ) (s t : Text)
    (err : Option Text) (now : ℕ) (m : Machine)
    → to_lower cmd ≡ codes "switch"
    → let q : Query = (codes "mechanism", c ∷ s) ∷ (codes "suspicion", d ∷ t) ∷ [] in
      let (m', r) = serve to_lower (codes "/switch") q err now m in
      (run_client to_lower env cmd (c ∷ s) (d ∷ t) ≡ asks (codes "/switch") q)
      × Switched (to_lower (c ∷ s)) (to_lower (d ∷ t)) m m' r
unfolding run_client ask_switch serve run_route handle_switch get find_route path_of text_eqb
    Text-discrete ℕ_discrete
run_client-Switched to_lower env cmd c d s t err now m is_switch =
    (rw is_switch refl, switch_words-Switched (to_lower (c ∷ s)) (to_lower (d ∷ t)) m)
