-- ===== src/LogQuerier/Server/Laws.antt =====
-- What a connection to the log server is answered.
use distributed_group_member.Common.{
  ◌≡◌, refl, ap, ◌∙◌, ◌≢◌, true, not, List, [], ◌∷◌, ◌++◌, none, some, arith, All, map, inl, inr,
  ◌⊎◌, some-injective, subst, Option-cases, Bool-cases, if_cases,
}
use distributed_group_member.Common.Dict.{lookup}
use distributed_group_member.Types.{Text, Text-discrete, text_eqb}
use distributed_group_member.Types.Keys.{text_eqb_iff}
use distributed_group_member.LogQuerier.{ServerRequest, ServerResponse}
use distributed_group_member.LogQuerier.Words.{trim_space, fields, unwords, is_space}
use distributed_group_member.LogQuerier.Words.Laws.{IsWord, fields-unwords, fields-trim_space}
use distributed_group_member.LogQuerier.Server.{
  Config, Environment, with_defaults, new_server, absolute, resolve_default, resolve_log_path,
  parse_command, grep_name, response, encode_lines, stream_grep, handle_connection,
}

made_has_default :
    (cfg srv : Config)
    → new_server cfg ≡ some srv
    → (p : Text) × (lookup Text-discrete srv.default_file_type srv.log_paths ≡ some p)
unfolding new_server
made_has_default cfg srv made =
    let cfg' = with_defaults cfg in
    elim (Option-cases (lookup Text-discrete cfg'.default_file_type cfg'.log_paths)) [
      | inl e ↦ absurd (ground (arith, e))
      | inr (p, e) ↦
          let same : cfg' ≡ srv = some-injective _ _ (rw (e, new_server) at made) in
          (
            p,
            subst (λ (c : Config). lookup Text-discrete c.default_file_type c.log_paths ≡ some p)
                same e,
          )
    ]

-- What a connection that is answered was: a run of grep, on the arguments of its input and the path.
pub record Served (env : Environment) (cfg : Config) (words : List Text) (path : Text)
    (sent : List ServerResponse) : Type 0 where
  pub args : List Text
  pub lines : List Text
  pub unsent : List ServerResponse
  pub command : words ≡ grep_name ∷ args
  pub printed : env.run_grep cfg.working_directory (args ++ path ∷ []) ≡ some lines
  pub in_order : sent ++ unsent ≡ map (response path) lines

-- A command and its arguments, none of them empty or with a space in it, joined by single spaces, are the
-- command and the arguments that the server finds.
pub parse_command-unwords :
    (w : Text) (ws : List Text) → All IsWord (w ∷ ws) → parse_command (unwords (w ∷ ws)) ≡ (w, ws)
unfolding parse_command
parse_command-unwords w ws a = rw (parse_command, fields-unwords (w ∷ ws) a) refl

module _ (env : Environment) where
  to_default :
      (cfg : Config) (file_type : Text)
      → lookup Text-discrete file_type cfg.log_paths ≡ none
      → resolve_log_path env cfg file_type ≡ resolve_default env cfg
  unfolding resolve_log_path
  to_default cfg [] e = refl
  to_default cfg (c ∷ s) e = rw (resolve_log_path, e) refl

  -- A server that `New` has made opens the log of its default type for every type of file that it does not
  -- know, the empty one among them.
  pub unknown_type_resolves :
      (cfg srv : Config) (file_type : Text)
      → new_server cfg ≡ some srv
      → lookup Text-discrete file_type srv.log_paths ≡ none
      → (p : Text) × (lookup Text-discrete srv.default_file_type srv.log_paths ≡ some p)
        × (resolve_log_path env srv file_type ≡ absolute env srv p)
  unfolding new_server resolve_log_path resolve_default
  unknown_type_resolves cfg srv file_type made unknown =
      let (p, found) = made_has_default cfg srv made in
      (p, found, to_default srv file_type unknown ∙ ground (arith, found))

  encode_lines_all :
      (path : Text) (lines : List Text)
      → ((r : ServerResponse) → env.accepts r ≡ true)
      → encode_lines env path lines ≡ map (response path) lines
  unfolding encode_lines
  encode_lines_all path [] a = refl
  encode_lines_all path (l ∷ ls) a =
      rw (a (response path l)) (ap (λ rs. response path l ∷ rs) (encode_lines_all path ls a))

  encode_lines_prefix :
      (path : Text) (lines : List Text)
      → (unsent : List ServerResponse) × (encode_lines env path lines ++ unsent
          ≡ map (response path) lines)
  unfolding encode_lines
  encode_lines_prefix path [] = ([], refl)
  encode_lines_prefix path (l ∷ ls) =
      let (unsent, e) = encode_lines_prefix path ls in
      elim (Bool-cases (env.accepts (response path l))) [
        | inl q ↦ (unsent, rw q (ap (λ rs. response path l ∷ rs) e))
        | inr q ↦ (map (response path) (l ∷ ls), rw q refl)
      ]

  stream_grep_runs :
      (cfg : Config) (query path : Text) (args lines : List Text)
      → fields query ≡ grep_name ∷ args
      → env.run_grep cfg.working_directory (args ++ path ∷ []) ≡ some lines
      → stream_grep env cfg query path ≡ encode_lines env path lines
  unfolding stream_grep parse_command
  stream_grep_runs cfg query path args lines e printed =
      rw (stream_grep, parse_command, e)
        (ground (
          arith,
          (text_eqb_iff grep_name []).0,
          (text_eqb_iff grep_name grep_name).1 refl,
          printed,
        ))

  stream_grep-Served :
      (cfg : Config) (query path : Text)
      → (stream_grep env cfg query path ≡ [])
        ⊎ Served env cfg (fields query) path (stream_grep env cfg query path)
  unfolding stream_grep parse_command
  stream_grep-Served cfg query path = go (fields query) refl
    where
      go :
          (ws : List Text)
          → fields query ≡ ws
          → (stream_grep env cfg query path ≡ [])
            ⊎ Served env cfg ws path (stream_grep env cfg query path)
      go [] e =
          inl (rw (stream_grep, parse_command, e) (ground (arith, (text_eqb_iff [] []).1 refl)))
      go (w ∷ args) e = elim (Text-discrete w grep_name) [
        | no q ↦
            inl (rw (stream_grep, parse_command, e) (ground (arith, (text_eqb_iff w grep_name).0)))
        | yes q ↦ elim (Option-cases (env.run_grep cfg.working_directory (args ++ path ∷ []))) [
          | inl none_run ↦ inl (rw (stream_grep, parse_command, e, none_run) (ground arith))
          | inr (lines, printed) ↦
              let (unsent, in_order) = encode_lines_prefix path lines in
              let command = ap (λ v. v ∷ args) q in
              let runs = stream_grep_runs cfg query path args lines (e ∙ command) printed in
              inr (
                rw runs (record {
                  args = args;
                  lines = lines;
                  unsent = unsent;
                  command = command;
                  printed = printed;
                  in_order = in_order;
                }))
        ]
      ]

  grep-IsWord : IsWord grep_name
  unfolding is_space
  grep-IsWord = (λ h. absurd (ground (arith, h)), (refl, (refl, (refl, (refl, tt)))))

  -- A request whose input is the words grep and the arguments, joined by spaces, for a log that is there, is
  -- answered, where all responses can be written, by exactly the lines that grep prints on the arguments
  -- and the path of the log, in their order, each with that path.
  pub handle_connection_answers :
      (cfg : Config) (req : ServerRequest) (args lines : List Text)
      → req.input ≡ unwords (grep_name ∷ args)
      → All IsWord args
      → resolve_log_path env cfg req.file_type ≢ []
      → env.exists (resolve_log_path env cfg req.file_type) ≡ true
      → env.run_grep cfg.working_directory (args ++ resolve_log_path env cfg req.file_type ∷ [])
        ≡ some lines
      → ((r : ServerResponse) → env.accepts r ≡ true)
      → handle_connection env cfg (some req)
        ≡ map (response (resolve_log_path env cfg req.file_type)) lines
  unfolding handle_connection
  handle_connection_answers cfg req args lines input words path there printed a =
      let found = resolve_log_path env cfg req.file_type in
      let command : fields (trim_space req.input) ≡ grep_name ∷ args =
        fields-trim_space req.input
        ∙ ap fields input
        ∙ fields-unwords (grep_name ∷ args) (grep-IsWord, words) in
      let runs =
        stream_grep_runs cfg (trim_space req.input) found args lines command printed
        ∙ encode_lines_all found lines a in
      ground (arith, runs, (text_eqb_iff found []).0)

  -- Whatever a connection asks, it is answered by nothing or by the first of the lines, in their order, that
  -- grep prints: the first field of its input is grep, the arguments are the other fields and, at the end,
  -- the path of the log that its type of file resolves to, with which each line is labelled.
  pub handle_connection-Served :
      (cfg : Config) (req : ServerRequest)
      → let sent = handle_connection env cfg (some req) in
        (sent ≡ [])
        ⊎ Served env cfg (fields req.input) (resolve_log_path env cfg req.file_type) sent
  unfolding handle_connection
  handle_connection-Served cfg req =
      let found = resolve_log_path env cfg req.file_type in
      let P = λ (sent : List ServerResponse).
        (sent ≡ []) ⊎ Served env cfg (fields req.input) found sent in
      if_cases P (text_eqb found []) (λ _. inl refl)
        (λ _.
          if_cases P (not (env.exists found)) (λ _. inl refl)
            (λ _.
              subst
                (λ (ws : List Text).
                  (stream_grep env cfg (trim_space req.input) found ≡ [])
                  ⊎ Served env cfg ws found (stream_grep env cfg (trim_space req.input) found))
                (fields-trim_space req.input)
                (stream_grep-Served cfg (trim_space req.input) found)))
