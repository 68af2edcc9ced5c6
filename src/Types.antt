-- ===== src/Types.antt =====
-- utils/types.go: node identities, statuses, members, messages and the timeouts.
-- A Go `int`, `int32` or `int64` is an integer ℤ; a text is the list of its bytes; a `time.Time` is
-- the number of nanoseconds since the zero time, which is 0; a `time.Duration` is an integer of
-- nanoseconds.
pub mod Decimal
pub mod Keys
use Prim.Native.Char.{code}
use Prim.Native.String.{String}
use mathlib.Core.Logic.{◌≢◌}
use distributed_group_member.Common.{
  ℕ, ◌+◌, ◌*◌, ◌^◌, ◌≡◌, Bool, true, false, ◌&&◌, not, List, [], ◌∷◌, ◌++◌, ℤ, ℤ-discrete, pos,
  negsuc, sub_ℕ, saturate64, pos_part, ltb, ℕ_discrete, ltb_ℤ, eqb_ℤ,
}
use Decimal.{decimal_ℤ}

abbrev pub Text : Type 0
Text = List ℕ

-- The text of an ASCII literal.
abbrev pub codes : String → Text
codes String.[] = []
codes (String.◌∷◌ c s) = code c ∷ codes s

unfoldable pub Text-discrete : Discrete Text
Text-discrete = hlevel ℕ_discrete

pub record NodeId : Type 0 where
  pub ip : Text
  pub port : ℤ
  pub timestamp : ℤ

pub NodeId-discrete : Discrete NodeId
NodeId-discrete = hlevel (ℕ_discrete, ℤ-discrete)

-- "%s:%d:%d"
unfoldable pub to_string : NodeId → Text
unfolding decimal_ℤ
to_string n = (n.ip ++ b':' ∷ decimal_ℤ n.port) ++ b':' ∷ decimal_ℤ n.timestamp

-- "%s:%d"
unfoldable pub address : NodeId → Text
unfolding decimal_ℤ
address n = n.ip ++ b':' ∷ decimal_ℤ n.port

unfoldable pub text_eqb : Text → Text → Bool
text_eqb a b = elim (Text-discrete a b) [ yes _ ↦ true | no _ ↦ false ]

unfoldable pub equals : NodeId → NodeId → Bool
unfolding text_eqb
equals n other =
    text_eqb n.ip other.ip && eqb_ℤ n.port other.port && eqb_ℤ n.timestamp other.timestamp

-- The constants of the source; `other` is any other value of the `int`, which a decoded message
-- may hold.
pub data MemberStatus : Type 0 where
  alive suspected failed : MemberStatus
  other : ℤ → MemberStatus

abbrev pub is_alive : MemberStatus → Bool
is_alive alive = true
is_alive _ = false

abbrev pub is_suspected : MemberStatus → Bool
is_suspected suspected = true
is_suspected _ = false

abbrev pub is_failed : MemberStatus → Bool
is_failed failed = true
is_failed _ = false

pub record Member : Type 0 where
  pub id : NodeId
  pub incarnation : ℤ
  pub status : MemberStatus
  pub last_heartbeat : ℕ
  pub suspicion_start : ℕ

pub record MemberUpdate : Type 0 where
  pub node_id : NodeId
  pub incarnation : ℤ
  pub status : MemberStatus
  pub timestamp : ℕ

-- The source has an int, and JSON may carry any.
pub data MessageType : Type 0 where
  heartbeat ping ack indirect_ping indirect_ack join join_response leave suspect alive_msg confirm :
      MessageType
  other_type : ℤ → MessageType

pub record Message : Type 0 where
  pub type : MessageType
  pub sender : NodeId
  pub target : NodeId
  pub incarnation : ℤ
  pub seq_num : ℕ
  pub members : List MemberUpdate
  pub timestamp : ℤ

-- The fields that a composite literal leaves out.
abbrev pub zero_id : NodeId
zero_id = record { ip = []; port = pos 0; timestamp = pos 0 }

-- A message with no other field set.
abbrev pub plain : MessageType → NodeId → NodeId → ℤ → Message
plain type sender target inc = record {
  type = type;
  sender = sender;
  target = target;
  incarnation = inc;
  seq_num = 0;
  members = [];
  timestamp = pos 0;
}

pub data DetectionMode : Type 0 where
  gossip_mode ping_ack_mode : DetectionMode

-- `time.Time.Sub`
unfoldable pub sub_time : ℕ → ℕ → ℤ
unfolding saturate64
sub_time t u = saturate64 (sub_ℕ t u)

abbrev pub second : ℕ
second = 1_000_000_000

abbrev pub millisecond : ℕ
millisecond = 1_000_000

pub record TimeoutConfig : Type 0 where
  pub failure_timeout : ℤ
  pub cleanup_timeout : ℤ
  pub suspicion_timeout : ℤ
  pub gossip_period : ℤ
  pub protocol_period : ℤ
  pub ack_timeout : ℤ
  pub check_interval : ℤ

unfoldable pub default_timeout_config : TimeoutConfig
default_timeout_config = record {
  failure_timeout = pos (3 * second);
  cleanup_timeout = pos (2 * second);
  suspicion_timeout = pos (2 * second);
  gossip_period = pos (1 * second);
  protocol_period = pos (1 * second);
  ack_timeout = pos (250 * millisecond);
  check_interval = pos (200 * millisecond);
}

unfoldable pub optimal_timeout_config : TimeoutConfig
optimal_timeout_config = record {
  failure_timeout = pos (2 * second);
  cleanup_timeout = pos (1 * second);
  suspicion_timeout = pos (1500 * millisecond);
  gossip_period = pos (500 * millisecond);
  protocol_period = pos (500 * millisecond);
  ack_timeout = pos (150 * millisecond);
  check_interval = pos (100 * millisecond);
}
