-- ===== src/PingAck/Invariant/Group.antt =====
-- Joins, leaves and their messages under the SWIM-style detector, against the invariant of the node: they
-- do what they do under the gossip detector.
use distributed_group_member.Common.{refl, sym, subst, ℕ, ◌<◌, []}
use distributed_group_member.Types.{Text, Message, plain, join, zero_id}
use distributed_group_member.Node.{Node}
use distributed_group_member.Suspicion.Entries.{Inv}
use distributed_group_member.Gossip.{GossipManager}
use distributed_group_member.Gossip.Handlers.{
  handle_alive_message-Keeps, handle_suspect_message-Keeps,
}
use distributed_group_member.Gossip.Invariant.{
  handle_join-Inv, handle_join_response-Keeps, handle_leave-Inv, join_group-Inv, leave_group-Inv,
}
use distributed_group_member.PingAck.{PingAckManager}
use distributed_group_member.PingAck.Group.{
  handle_join, handle_join_response, handle_alive_message, handle_suspect_message, handle_leave,
  join_group, leave_group,
}
use distributed_group_member.PingAck.Group.Agreement.{group_handlers-Gossip}

-- The gossip detector with the flags of this one.
abbrev twin : PingAckManager → GossipManager
twin p = record {
  fanout = p.k;
  enable_suspicion = p.enable_suspicion;
  active = p.active;
  timeouts = p.timeouts;
}

-- What the group handlers keep, of both detectors.
pub record GroupKept (p : PingAckManager) (msg : Message) (now : ℕ) (nd : Node) : Type 0 where
  pub join_kept : Inv (handle_join p msg now nd)
  pub response_kept : Inv (handle_join_response p msg now nd)
  pub alive_kept : Inv (handle_alive_message p msg now nd)
  pub suspect_kept : Inv (handle_suspect_message p msg now nd)
  pub gone_kept : Inv (handle_leave msg now nd)

pub group_handlers-Inv :
    (p : PingAckManager) (msg : Message) (now : ℕ) (nd : Node)
    → 0 < now
    → Inv nd
    → GroupKept p msg now nd
group_handlers-Inv p msg now nd t v =
    let same = group_handlers-Gossip (twin p) p msg [] now nd refl refl in
    record {
      join_kept = subst Inv (sym same.0) (handle_join-Inv (twin p) msg now nd v);
      response_kept = subst Inv (sym same.1) (handle_join_response-Keeps (twin p) msg now nd v).inv;
      alive_kept = subst Inv (sym same.2) (handle_alive_message-Keeps (twin p) msg now nd t v).inv;
      suspect_kept =
          subst Inv (sym same.3) (handle_suspect_message-Keeps (twin p) msg now nd t v).inv;
      gone_kept = subst Inv (sym same.4) (handle_leave-Inv msg now nd v);
    }

module _ (p : PingAckManager) (now : ℕ) (nd : Node) (v : Inv nd) where
  zero : Message
  zero = plain join nd.membership.local_node zero_id nd.membership.incarnation

  pub ping_join_group-Inv : (addr : Text) → Inv (join_group p addr now nd).1
  ping_join_group-Inv addr =
      let same = group_handlers-Gossip (twin p) p zero addr now nd refl refl in
      subst Inv (sym same.5) (join_group-Inv (twin p) addr now nd v)

  pub ping_leave_group-Inv : Inv (leave_group p now nd).1
  ping_leave_group-Inv =
      let same = group_handlers-Gossip (twin p) p zero [] now nd refl refl in
      subst Inv (sym same.6) (leave_group-Inv (twin p) now nd v)
