-- ===== src/Scenarios/Startup.antt =====
-- The theorems on `main` at work: an introducer and a node that joins by it.
use distributed_group_member.Common.{
  ◌≡◌, refl, ◌∙◌, ◌≢◌, pos, true, false, List, [], ◌∷◌, Option, none, some, inr, arith, ℕ_discrete,
}
use distributed_group_member.Common.Dict.{lookup, insert}
use distributed_group_member.Types.{Text, codes, address, Message, text_eqb, Text-discrete}
use distributed_group_member.Network.{receive}
use distributed_group_member.System.{Machine}
use distributed_group_member.System.Delivery.{delivered}
use distributed_group_member.Control.Client.{control_port_of}
use distributed_group_member.Startup.{
  daemonized_name, getenv, Flags, Surroundings, as_node, as_parent, node_id, log_config, started,
  join_at_start, run_node, main,
}
use distributed_group_member.Startup.Nodes.{IsDaemonized, run_node_lem, main-run_node, child_runs}
use distributed_group_member.Startup.Meeting.{two_nodes_meet}
use distributed_group_member.Startup.Meeting.Handling.{hello, welcome, Met}

abbrev lower : Text → Text
lower t = t

abbrev introducing : Flags
introducing = record {
  port = pos 8080;
  introducer = [];
  is_introducer = true;
  mode = codes "gossip";
  cmd = [];
  control_port = pos 0;
  arg1 = [];
  arg2 = [];
  foreground = false;
}

abbrev joining : Flags
joining = record introducing {
  introducer = codes "a:8080";
  is_introducer = false;
  mode = codes "pingack";
}

abbrev first_host : Surroundings
first_host = record {
  args = [];
  environ = (daemonized_name, codes "1") ∷ [];
  variables = record { hosts_file = []; default_hosts_file = codes "hosts.txt"; log_port = none };
  has_executable = true;
  starts_child = true;
  opens_network = true;
  opens_log = true;
  work_dir = some (codes "/srv");
  local_ip = codes "a";
  named = 1;
  created = 1;
  joined = 2;
}

abbrev second_host : Surroundings
second_host = record first_host { local_ip = codes "b" }

abbrev shell : Surroundings
shell = record first_host { environ = [] }

abbrev directory : Text
directory = codes "/srv"

-- The flags of the introducer, whatever the arguments are.
abbrev parse : List Text → Flags
parse args = introducing

shell_forks : main lower introducing shell ≡ as_parent [] ((daemonized_name, codes "1") ∷ [])
unfolding main text_eqb Text-discrete insert lookup ℕ_discrete
shell_forks = refl

daemon : IsDaemonized first_host
unfolding getenv lookup
daemon = ground arith

child_runs_example : main lower introducing first_host ≡ run_node introducing first_host
child_runs_example =
    child_runs lower parse shell first_host [] ((daemonized_name, codes "1") ∷ []) shell_forks refl
      refl

abbrev host : Machine
host = join_at_start introducing 2 (started introducing first_host)

abbrev guest : Machine
guest = join_at_start joining 2 (started joining second_host)

abbrev greeting : Message
greeting = hello (node_id joining second_host) 2

-- The empty packet is the Join, any other the answer to it.
abbrev read : Text → Option Message
read [] = some greeting
read (c ∷ s) = some (
    welcome (node_id introducing first_host) 5
      (delivered (λ _. some greeting) [] 5 host).node.membership)

host_runs :
    main lower introducing first_host
    ≡ as_node host (control_port_of (pos 8080) (pos 0)) (log_config directory)
host_runs =
    main-run_node lower introducing first_host refl (inr daemon)
    ∙ run_node_lem introducing first_host directory refl refl refl

guest_runs :
    main lower joining second_host
    ≡ as_node guest (control_port_of (pos 8080) (pos 0)) (log_config directory)
guest_runs =
    main-run_node lower joining second_host refl (inr daemon)
    ∙ run_node_lem joining second_host directory refl refl refl

apart : address (node_id introducing first_host) ≢ address (node_id joining second_host)
unfolding address node_id
apart e = ground (arith, e)

two_nodes_meet_example :
    (guest.node.sent ≡ (codes "a:8080", greeting) ∷ [])
    × Met
        (node_id introducing first_host)
        (node_id joining second_host)
        2
        5
        (delivered read [] 5 host).node
        (delivered read (0 ∷ []) 9 guest).node
unfolding receive
two_nodes_meet_example =
    two_nodes_meet lower introducing joining first_host second_host 5 9 read [] (0 ∷ []) host_runs
      guest_runs refl refl (λ e. absurd (cc)) apart refl refl
