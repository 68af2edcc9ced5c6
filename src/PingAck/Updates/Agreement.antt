-- ===== src/PingAck/Updates/Agreement.antt =====
-- What the two detectors do with the updates of a message, compared.
use distributed_group_member.Common.{◌≡◌, refl, ap, ◌∙◌, ℕ, ℤ, Bool, List, [], ◌∷◌}
use distributed_group_member.Types.{Text, NodeId, Member, MemberUpdate}
use distributed_group_member.Membership.{MembershipList}
use distributed_group_member.Node.{Node}
use distributed_group_member.Gossip
use distributed_group_member.Gossip.{heartbeat_sender, update_known, follow_up, update_self}
use distributed_group_member.PingAck.Updates.{hear_from, accept, process_update, process_updates}

pub hear_from-heartbeat_sender :
    (id : NodeId) (inc : ℤ) (now : ℕ) (ml : MembershipList)
    → hear_from id inc now ml ≡ heartbeat_sender id inc now ml
unfolding hear_from heartbeat_sender
hear_from-heartbeat_sender id inc now ml = refl

accept-update_known :
    (enable : Bool) (u : MemberUpdate) (now : ℕ) (key : Text) (m : Member) (ml : MembershipList)
    → accept enable u now key m ml ≡ update_known enable u now key m ml
unfolding accept update_known
accept-update_known enable u now key m ml = refl

-- The two versions of `processUpdate` agree on every node and every update.
pub process_update-Gossip :
    (enable : Bool) (u : MemberUpdate) (reporter : NodeId) (now : ℕ) (nd : Node)
    → process_update enable u reporter now nd ≡ Gossip.process_update enable u reporter now nd
unfolding process_update Gossip.process_update accept update_known follow_up update_self
process_update-Gossip enable u reporter now nd = refl

-- The two detectors do the same to a node with every list of piggybacked updates.
pub process_updates-Gossip :
    (enable : Bool) (us : List MemberUpdate) (reporter : NodeId) (now : ℕ) (nd : Node)
    → process_updates enable us reporter now nd ≡ Gossip.process_updates enable us reporter now nd
unfolding process_updates Gossip.process_updates
process_updates-Gossip enable [] reporter now nd = refl
process_updates-Gossip enable (u ∷ us) reporter now nd =
    ap (process_updates enable us reporter now) (process_update-Gossip enable u reporter now nd)
    ∙ process_updates-Gossip enable us reporter now _
