-- ===== src/LogQuerier/Server.antt =====
-- logquerier/server/server.go: from the request of a connection to the responses that it is sent.
pub mod Laws
use distributed_group_member.Common.{
  ℕ, Bool, true, false, not, List, [], ◌∷◌, ◌++◌, Option, none, some, if◌then◌else◌,
}
use distributed_group_member.Common.Dict.{lookup}
use distributed_group_member.Types.{Text, Text-discrete, text_eqb}
use distributed_group_member.Types.Decimal.{decimal}
use distributed_group_member.LogQuerier.{
  default_port, default_file_type, ServerRequest, ServerResponse,
}
use distributed_group_member.LogQuerier.Words.{trim_space, fields}

-- `LogPaths`: the nil map and the empty map are one.
pub record Config : Type 0 where
  pub addr : Text
  pub log_paths : List (Text × Text)
  pub default_file_type : Text
  pub working_directory : Text

-- What the server calls: `filepath.IsAbs`, `filepath.Join`, `filepath.Abs` (`none` for its error),
-- whether `os.Stat` succeeds, the lines that the scanner yields of what grep prints when it runs in a
-- directory on arguments (`none` where it cannot be started), and whether a response can be written.
pub record Environment : Type 0 where
  pub is_abs : Text → Bool
  pub join : Text → Text → Text
  pub abs : Text → Option Text
  pub exists : Text → Bool
  pub run_grep : Text → List Text → Option (List Text)
  pub accepts : ServerResponse → Bool

-- The defaults that `New` fills in.
unfoldable pub with_defaults : Config → Config
with_defaults cfg = record cfg {
  addr = elim cfg.addr [ [] ↦ b':' ∷ decimal default_port | c ∷ s ↦ c ∷ s ];
  default_file_type = elim cfg.default_file_type [ [] ↦ default_file_type | c ∷ s ↦ c ∷ s ];
}

-- `New`: `none` is the error.
unfoldable pub new_server : Config → Option Config
unfolding with_defaults
new_server cfg =
    let cfg' = with_defaults cfg in
    elim (lookup Text-discrete cfg'.default_file_type cfg'.log_paths) [
      | none ↦ none
      | some p ↦ some cfg'
    ]

module _ (env : Environment) where
  -- A path of the configuration as the server opens it.
  unfoldable pub absolute : Config → Text → Text
  absolute cfg p =
      let from_here : Text = elim (env.abs p) [ none ↦ p | some a ↦ a ] in
      if not (env.is_abs p)
      then elim cfg.working_directory [ [] ↦ from_here | c ∷ s ↦ env.join (c ∷ s) p ]
      else p

  unfoldable pub resolve_default : Config → Text
  unfolding absolute
  resolve_default cfg = elim (lookup Text-discrete cfg.default_file_type cfg.log_paths) [
    | none ↦ []
    | some p ↦ absolute cfg p
  ]

  unfoldable pub resolve_log_path : Config → Text → Text
  unfolding absolute resolve_default
  resolve_log_path cfg [] = resolve_default cfg
  resolve_log_path cfg (c ∷ s) = elim (lookup Text-discrete (c ∷ s) cfg.log_paths) [
    | none ↦ resolve_default cfg
    | some p ↦ absolute cfg p
  ]

unfoldable pub parse_command : Text → Text × List Text
parse_command input = elim (fields input) [ [] ↦ ([], []) | w ∷ ws ↦ (w, ws) ]

abbrev pub grep_name : Text
grep_name = b'g' ∷ b'r' ∷ b'e' ∷ b'p' ∷ []

abbrev pub response : Text → Text → ServerResponse
response log_path line = record { output = line; log_file = log_path }

module _ (env : Environment) where
  -- The loop over the lines, which a response that cannot be written ends.
  unfoldable pub encode_lines : Text → List Text → List ServerResponse
  encode_lines log_path [] = []
  encode_lines log_path (l ∷ ls) =
      let rest = encode_lines log_path ls in
      if env.accepts (response log_path l) then response log_path l ∷ rest else []

  -- The responses that are written.
  unfoldable pub stream_grep : Config → Text → Text → List ServerResponse
  unfolding parse_command encode_lines
  stream_grep cfg query log_path =
      let (name, args) = parse_command query in
      if text_eqb name []
      then []
      else if not (text_eqb name grep_name)
      then []
      else elim (env.run_grep cfg.working_directory (args ++ log_path ∷ [])) [
        | none ↦ []
        | some lines ↦ encode_lines log_path lines
      ]

  -- The request as `Decode` gives it, `none` for its error.
  unfoldable pub handle_connection : Config → Option ServerRequest → List ServerResponse
  unfolding stream_grep resolve_log_path
  handle_connection cfg none = []
  handle_connection cfg (some req) =
      let log_path = resolve_log_path env cfg req.file_type in
      if text_eqb log_path []
      then []
      else if not (env.exists log_path)
      then []
      else stream_grep cfg (trim_space req.input) log_path
