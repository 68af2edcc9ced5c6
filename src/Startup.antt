-- ===== src/Startup.antt =====
-- main.go, `main`: from the flags of the command line to a client that asks, a child process, or a node
-- that runs. What the operating system and the network answer is a parameter.
pub mod Nodes
pub mod Joining
pub mod Meeting
use distributed_group_member.Common.{
  ℕ, Bool, true, false, not, ◌&&◌, List, [], ◌∷◌, ◌++◌, Option, none, some, ◌⊎◌, inl, inr,
  if◌then◌else◌, ℤ,
}
use distributed_group_member.Common.Dict.{lookup, insert}
use distributed_group_member.Types.{Text, Text-discrete, codes, NodeId, text_eqb}
use distributed_group_member.Types.Decimal.{decimal}
use distributed_group_member.Membership.{unix}
use distributed_group_member.LogQuerier.{default_port, default_file_type}
use distributed_group_member.LogQuerier.Server.{Config, new_server}
use distributed_group_member.System.{Machine, new_machine, start, join_group}
use distributed_group_member.Control.Client.{
  Action, Variables, parse_mode, control_port_of, run_client,
}

pub record Flags : Type 0 where
  pub port : ℤ
  pub introducer : Text
  pub is_introducer : Bool
  pub mode : Text
  pub cmd : Text
  pub control_port : ℤ
  pub arg1 : Text
  pub arg2 : Text
  pub foreground : Bool

-- What `main` finds: the arguments of the process, which `flag.Parse` makes the flags of, its environment
-- with one entry for each variable, the variables of the client, whether
-- `os.Executable`, the start of a child, the start of the network layer and the opening of node.log
-- succeed, the working directory (none for an error), the local IP, and the times at which the node is
-- named, its controller is made and it joins.
pub record Surroundings : Type 0 where
  pub args : List Text
  pub environ : List (Text × Text)
  pub variables : Variables
  pub has_executable : Bool
  pub starts_child : Bool
  pub opens_network : Bool
  pub opens_log : Bool
  pub work_dir : Option Text
  pub local_ip : Text
  pub named : ℕ
  pub created : ℕ
  pub joined : ℕ

-- The calls of `log.Fatalf`, without their texts.
pub data Failure : Type 0 where
  no_executable no_child no_network no_work_dir no_log_file no_log_server : Failure

-- A parent has started a child with arguments and an environment. A node runs with a port for its control server and the
-- configuration of its log server.
pub data Outcome : Type 0 where
  as_client : ℤ → Action → Outcome
  as_parent : List Text → List (Text × Text) → Outcome
  as_node : Machine → ℤ → Config → Outcome
  dies : Failure → Outcome

unfoldable pub node_id : Flags → Surroundings → NodeId
node_id f s = record { ip = s.local_ip; port = f.port; timestamp = unix s.named }

abbrev pub node_log : Text
node_log = codes "node.log"

unfoldable pub log_config : Text → Config
log_config dir = record {
  addr = b':' ∷ decimal default_port;
  log_paths = (default_file_type, node_log) ∷ [];
  default_file_type = default_file_type;
  working_directory = dir;
}

-- `NewController` and `Controller.Start`
unfoldable pub started : Flags → Surroundings → Machine
unfolding node_id
started f s = start (new_machine (parse_mode f.mode) (node_id f s) s.created)

-- The error that `JoinGroup` may return is only logged.
unfoldable pub join_at_start : Flags → ℕ → Machine → Machine
join_at_start f now m =
    if not f.is_introducer && not (text_eqb f.introducer [])
    then join_group f.introducer now m
    else m

-- `main` behind the start of the controller.
unfoldable pub with_logs : Flags → Surroundings → Machine → Outcome
unfolding log_config join_at_start
with_logs f s m = elim s.work_dir [
  | none ↦ dies no_work_dir
  | some dir ↦ if not s.opens_log then dies no_log_file else elim (new_server (log_config dir)) [
    | none ↦ dies no_log_server
    | some cfg ↦ as_node (join_at_start f s.joined m) (control_port_of f.port f.control_port) cfg
  ]
]

unfoldable pub run_node : Flags → Surroundings → Outcome
unfolding started with_logs
run_node f s = if not s.opens_network then dies no_network else with_logs f s (started f s)

abbrev pub daemonized_name : Text
daemonized_name = codes "MP2_DAEMONIZED"

-- `os.Getenv`, with the empty text for a variable that is not set.
unfoldable pub getenv : Text → List (Text × Text) → Text
getenv name env = elim (lookup Text-discrete name env) [ none ↦ [] | some value ↦ value ]

-- A variable that is appended to the environment of a child replaces an earlier one of its name there.
unfoldable pub append_env : Text → Text → List (Text × Text) → List (Text × Text)
append_env name value env = insert Text-discrete name value env

unfoldable pub daemonize : Surroundings → Outcome
unfolding append_env
daemonize s =
    if not s.has_executable
    then dies no_executable
    else if not s.starts_child
    then dies no_child
    else as_parent s.args (append_env daemonized_name (codes "1") s.environ)

unfoldable pub main : (Text → Text) → Flags → Surroundings → Outcome
unfolding daemonize run_node getenv
main to_lower f s =
    let control_port = control_port_of f.port f.control_port in
    if not (text_eqb f.cmd [])
    then as_client control_port (run_client to_lower s.variables f.cmd f.arg1 f.arg2)
    else if not f.foreground && not (text_eqb (getenv daemonized_name s.environ) (codes "1"))
    then daemonize s
    else run_node f s
