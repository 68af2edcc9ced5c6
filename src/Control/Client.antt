-- ===== src/Control/Client.antt =====
-- main.go, `runClient` and the flags of `main`: what a command line asks for.
use distributed_group_member.Common.{
  ℤ, pos, ◌+ℤ◌, eqb_ℤ, wrap64, [], ◌∷◌, Option, none, some, if◌then◌else◌, ◌++◌,
}
use distributed_group_member.Types.{
  Text, codes, text_eqb, DetectionMode, gossip_mode, ping_ack_mode,
}
use distributed_group_member.LogQuerier.{default_port, default_file_type, ServerRequest}
use distributed_group_member.Control.{Query}

-- `ParseMode`
unfoldable pub parse_mode : Text → DetectionMode
parse_mode mode = if text_eqb mode (codes "pingack") then ping_ack_mode else gossip_mode

-- The port of the control server, an `int`.
unfoldable pub control_port_of : ℤ → ℤ → ℤ
control_port_of port control_port =
    if eqb_ℤ control_port (pos 0) then wrap64 (port +ℤ pos 10000) else control_port

-- What the client does: it ends with a message, asks the control server, or queries the logs, with the name
-- of the hosts file and the port.
pub data Action : Type 0 where
  ends : Text → Action
  asks : Text → Query → Action
  greps : Text → ℤ → ServerRequest → Action

-- The environment: the variable of the hosts file, the default hosts file, and what `strconv.Atoi` makes of
-- the variable of the port, `none` where that is empty or no number.
pub record Variables : Type 0 where
  pub hosts_file : Text
  pub default_hosts_file : Text
  pub log_port : Option ℤ

abbrev pub or_else : Text → Text → Text
or_else [] default = default
or_else (c ∷ s) default = c ∷ s

unfoldable pub grep_logs : Variables → Text → Text → Action
grep_logs env arg1 arg2 = elim arg1 [
  | [] ↦ ends (
      codes
        "grep_logs requires arg1 to contain the grep command, e.g. \"grep -E 'SUSPECT|FAILED'\"")
  | c ∷ s ↦
      greps (or_else env.hosts_file env.default_hosts_file)
        (elim env.log_port [ none ↦ pos default_port | some p ↦ p ])
        (record { input = c ∷ s; file_type = or_else arg2 default_file_type })
]

unfoldable pub ask_join : Text → Action
ask_join [] = ends (codes "join requires arg1=introducer ip:port")
ask_join (c ∷ s) = asks (codes "/join") ((codes "introducer", c ∷ s) ∷ [])

unfoldable pub ask_switch : Text → Text → Action
ask_switch [] arg2 = ends (codes "switch requires arg1={gossip|ping} arg2={suspect|nosuspect}")
ask_switch (c ∷ s) [] = ends (codes "switch requires arg1={gossip|ping} arg2={suspect|nosuspect}")
ask_switch (c ∷ s) (d ∷ t) =
    asks (codes "/switch") ((codes "mechanism", c ∷ s) ∷ (codes "suspicion", d ∷ t) ∷ [])

unfoldable pub run_client : (Text → Text) → Variables → Text → Text → Text → Action
unfolding ask_join ask_switch grep_logs
run_client to_lower env cmd arg1 arg2 =
    let word = to_lower cmd in
    if text_eqb word (codes "list_mem")
    then asks (codes "/list_mem") []
    else if text_eqb word (codes "list_self")
    then asks (codes "/list_self") []
    else if text_eqb word (codes "display_suspects")
    then asks (codes "/display_suspects") []
    else if text_eqb word (codes "join")
    then ask_join arg1
    else if text_eqb word (codes "leave")
    then asks (codes "/leave") []
    else if text_eqb word (codes "switch")
    then ask_switch arg1 arg2
    else if text_eqb word (codes "display_protocol")
    then asks (codes "/display_protocol") []
    else if text_eqb word (codes "grep_logs")
    then grep_logs env arg1 arg2
    else ends (codes "unknown cmd: " ++ cmd)
