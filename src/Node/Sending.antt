-- ===== src/Node/Sending.antt =====
-- A loop of sends.
use mathlib.Core.List.{append-nil, append_assoc}
use distributed_group_member.Common.{◌≡◌, ◌∙◌, sym, ap, ℕ, List, [], ◌∷◌, ◌++◌, map}
use distributed_group_member.Types.{Text, Message}
use distributed_group_member.Membership.{unix}
use distributed_group_member.Node.{Node, send, send_all}

-- The calls of `Send` that one message to several addresses makes.
abbrev pub mail : ℕ → Message → List Text → List (Text × Message)
mail now msg = map (λ a. (a, record msg { timestamp = unix now }))

pub send_all_lem :
    (now : ℕ) (msg : Message) (addrs : List Text) (nd : Node)
    → send_all now msg addrs nd ≡ record nd { sent = nd.sent ++ mail now msg addrs }
unfolding send_all
send_all_lem now msg [] nd = ap (λ l. record nd { sent = l }) (sym (append-nil nd.sent))
send_all_lem now msg (a ∷ addrs) nd =
    send_all_lem now msg addrs (send now msg a nd)
    ∙ ap (λ l. record nd { sent = l }) (append_assoc nd.sent _ _)
