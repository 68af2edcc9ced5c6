-- ===== src/LogQuerier.antt =====
-- The log querier: logquerier/common/types.go, the client of logquerier/client/client.go and the server
-- of logquerier/server/server.go. Its texts are lists of code points. JSON, the network, the file
-- system and the process that runs grep are parameters.
pub mod Words
pub mod Server
pub mod Hosts
pub mod Client
pub mod Serving
pub mod DefaultHosts
use distributed_group_member.Common.{ℕ, List, [], ◌∷◌}
use distributed_group_member.Types.{Text}

abbrev pub default_port : ℕ
default_port = 10081

-- "node"
abbrev pub default_file_type : Text
default_file_type = b'n' ∷ b'o' ∷ b'd' ∷ b'e' ∷ []

pub record ServerRequest : Type 0 where
  pub input : Text
  pub file_type : Text

pub record ServerResponse : Type 0 where
  pub output : Text
  pub log_file : Text
