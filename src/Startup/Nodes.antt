-- ===== src/Startup/Nodes.antt =====
-- `main` of main.go where it starts a node or a child process.
use distributed_group_member.Common.{
  ◌≡◌, refl, ap, ◌∙◌, Bool, true, false, not, ◌&&◌, List, [], some, ◌⊎◌, ℕ_discrete, ℤ, Bool-cases,
  Option-cases, inl, inr, if_cases, arith,
}
use distributed_group_member.Common.Dict.{lookup, lookup-insert_self}
use distributed_group_member.Types.{Text, Text-discrete, text_eqb, codes}
use distributed_group_member.Types.Keys.{text_eqb_iff}
use distributed_group_member.LogQuerier.Server.{Config, new_server, with_defaults}
use distributed_group_member.System.{Machine, new_machine}
use distributed_group_member.System.Steps.{Reaches, here, then_step, started_step, join_step}
use distributed_group_member.Control.Client.{parse_mode, control_port_of}
use distributed_group_member.Startup.{
  daemonized_name, getenv, append_env, Flags, Surroundings, Outcome, as_parent, as_node, node_id,
  log_config, started, join_at_start, with_logs, run_node, daemonize, main,
}

-- The log server that `main` configures can be made.
new_server-log_config : (dir : Text) → new_server (log_config dir) ≡ some (log_config dir)
unfolding new_server with_defaults log_config lookup Text-discrete ℕ_discrete
new_server-log_config dir = refl

join_at_start-Reaches :
    (f : Flags) (s : Surroundings)
    → Reaches
        (new_machine (parse_mode f.mode) (node_id f s) s.created)
        (join_at_start f s.joined (started f s))
unfolding started join_at_start
join_at_start-Reaches f s =
    let first = new_machine (parse_mode f.mode) (node_id f s) s.created in
    if_cases (Reaches first) (not f.is_introducer && not (text_eqb f.introducer []))
      (λ _. then_step (then_step here started_step) (join_step f.introducer s.joined))
      (λ _. then_step here started_step)

-- What `run_node` comes to.
pub run_node_lem :
    (f : Flags) (s : Surroundings) (dir : Text)
    → s.opens_network ≡ true
    → s.opens_log ≡ true
    → s.work_dir ≡ some dir
    → run_node f s
      ≡ as_node
          (join_at_start f s.joined (started f s))
          (control_port_of f.port f.control_port)
          (log_config dir)
unfolding run_node with_logs
run_node_lem f s dir net log found = rw (net, found, log, new_server-log_config dir) refl

-- The variable MP2_DAEMONIZED is 1.
abbrev pub IsDaemonized : Surroundings → Type 0
IsDaemonized s = getenv daemonized_name s.environ ≡ codes "1"

-- What `main` does where it does not act as a client, in a process that stays.
pub main-run_node :
    (to_lower : Text → Text) (f : Flags) (s : Surroundings)
    → f.cmd ≡ []
    → (f.foreground ≡ true) ⊎ IsDaemonized s
    → main to_lower f s ≡ run_node f s
unfolding main text_eqb Text-discrete ℕ_discrete
main-run_node to_lower f s no_cmd (inl fore) = rw (no_cmd, fore) refl
main-run_node to_lower f s no_cmd (inr child) = elim (Bool-cases f.foreground) [
  | inl fore ↦ rw (no_cmd, fore) refl
  | inr back ↦ rw (no_cmd, back, child) refl
]

abbrev is_parent : Outcome → Bool
is_parent (as_parent _ _) = true
is_parent _ = false

run_node_stays : (f : Flags) (s : Surroundings) → is_parent (run_node f s) ≡ false
unfolding run_node with_logs
run_node_stays f s = elim (Bool-cases s.opens_network) [
  | inr shut ↦ rw shut refl
  | inl net ↦ elim (Option-cases s.work_dir) [
    | inl none_found ↦ rw (net, none_found) refl
    | inr (dir, found) ↦ elim (Bool-cases s.opens_log) [
      | inr shut ↦ rw (net, found, shut) refl
      | inl log ↦ rw (net, found, log, new_server-log_config dir) refl
    ]
  ]
]

-- When `main` starts a child.
main-as_parent :
    (to_lower : Text → Text) (f : Flags) (s : Surroundings) (args : List Text)
    (env : List (Text × Text))
    → main to_lower f s ≡ as_parent args env
    → (text_eqb f.cmd [] ≡ true)
      × (f.foreground ≡ false)
      × (as_parent args env ≡ as_parent s.args (append_env daemonized_name (codes "1") s.environ))
unfolding main daemonize
main-as_parent to_lower f s args env forks = ground (arith, forks, run_node_stays f s)

-- The arguments and the environment that a parent gives its child.
abbrev given : Outcome → List Text × List (Text × Text)
given (as_parent args env) = (args, env)
given _ = ([], [])

getenv-append_env :
    (name value : Text) (env : List (Text × Text)) → getenv name (append_env name value env) ≡ value
unfolding getenv append_env
getenv-append_env name value env = rw (lookup-insert_self Text-discrete name value env, getenv) refl

-- Where `main`, with the flags that the arguments of its process are parsed to, starts a child, then in
-- that child, with the arguments and the environment that it was given, `main` is `run_node`: it neither acts
-- as a client nor starts another child.
pub child_runs :
    (to_lower : Text → Text) (parse : List Text → Flags) (s t : Surroundings) (args : List Text)
    (env : List (Text × Text))
    → main to_lower (parse s.args) s ≡ as_parent args env
    → t.args ≡ args
    → t.environ ≡ env
    → main to_lower (parse t.args) t ≡ run_node (parse t.args) t
child_runs to_lower parse s t args env forks same_args same_env =
    let (no_cmd, back, handed) = main-as_parent to_lower (parse s.args) s args env forks in
    let own : t.args ≡ s.args = same_args ∙ ap (λ o. (given o).0) handed in
    let marked : t.environ ≡ append_env daemonized_name (codes "1") s.environ =
      same_env ∙ ap (λ o. (given o).1) handed in
    main-run_node to_lower (parse t.args) t
      (ap (λ a. (parse a).cmd) own ∙ (text_eqb_iff (parse s.args).cmd []).0 no_cmd)
      (inr (
        ap (getenv daemonized_name) marked
        ∙ getenv-append_env daemonized_name (codes "1") s.environ))

abbrev node_of : Machine → Outcome → Machine
node_of m (as_node m' _ _) = m'
node_of m _ = m

node_of-run_node :
    (f : Flags) (s : Surroundings)
    → node_of (join_at_start f s.joined (started f s)) (run_node f s)
      ≡ join_at_start f s.joined (started f s)
unfolding run_node with_logs
node_of-run_node f s = elim (Bool-cases s.opens_network) [
  | inr shut ↦ rw shut refl
  | inl net ↦ elim (Option-cases s.work_dir) [
    | inl none_found ↦ rw (net, none_found) refl
    | inr (dir, found) ↦ elim (Bool-cases s.opens_log) [
      | inr shut ↦ rw (net, found, shut) refl
      | inl log ↦ rw (net, found, log, new_server-log_config dir) refl
    ]
  ]
]

-- The machine of a node that `main` runs.
pub main-machine :
    (to_lower : Text → Text) (f : Flags) (s : Surroundings) {m : Machine} {p : ℤ} {cfg : Config}
    → main to_lower f s ≡ as_node m p cfg
    → m ≡ join_at_start f s.joined (started f s)
unfolding main daemonize
main-machine to_lower f s runs = ground (arith, node_of-run_node f s)
