-- ===== src/Node.antt =====
-- The state that the goroutines of one process share: the membership list, the entries of the
-- suspicion manager, the callbacks that were started as goroutines and have not run yet, and the
-- calls of `NetworkLayer.Send` in utils/network.go, oldest first. What the network does with a
-- message is outside the model.
pub mod Sending
pub mod Ticking
use distributed_group_member.Common.{ℕ, Bool, List, [], ◌∷◌, ◌++◌, ℤ, map, select, not}
use distributed_group_member.Common.Dict.{values}
use distributed_group_member.Types.{Text, NodeId, to_string, address, text_eqb, Message}
use distributed_group_member.Membership.{MembershipList, local_key, unix}

pub record Options : Type 0 where
  pub suspicion_timeout : ℤ
  pub check_interval : ℤ
  pub require_reports : ℤ
  pub confirmed_retention : ℤ
  -- whether the callback is set
  pub on_suspect : Bool
  pub on_confirm : Bool
  pub on_clear : Bool

pub record SuspectEntry : Type 0 where
  pub target : NodeId
  pub incarnation : ℤ
  pub reporters : List (NodeId × ℕ)
  pub first_report : ℕ
  pub confirmed : Bool
  pub confirmed_at : ℕ
  pub cleanup_after : ℕ

-- `go sm.opts.OnSuspect(…)` and its like.
pub data Callback : Type 0 where
  on_suspect : NodeId → ℤ → List NodeId → Callback
  on_confirm : NodeId → ℤ → Callback
  on_clear : NodeId → ℤ → Callback

pub record Node : Type 0 where
  pub membership : MembershipList
  pub options : Options
  pub entries : List (Text × SuspectEntry)
  pub spawned : List Callback
  pub sent : List (Text × Message)

-- `Send` puts the time into its copy of the message.
unfoldable pub send : ℕ → Message → Text → Node → Node
send now msg addr nd = record nd {
  sent = nd.sent ++ (addr, record msg { timestamp = unix now }) ∷ [];
}

-- A loop of sends that ignores the errors.
unfoldable pub send_all : ℕ → Message → List Text → Node → Node
unfolding send
send_all now msg [] nd = nd
send_all now msg (addr ∷ addrs) nd = send_all now msg addrs (send now msg addr nd)

-- The addresses of the members but those with the given keys.
unfoldable pub peers_but : (Text → Bool) → MembershipList → List Text
peers_but skip ml =
    map (λ m. address m.id) (select (λ m. not (skip (to_string m.id))) (values ml.members))

-- The addresses of all members but the local node.
unfoldable pub peers : MembershipList → List Text
unfolding peers_but
peers ml = peers_but (λ k. text_eqb k (local_key ml)) ml
