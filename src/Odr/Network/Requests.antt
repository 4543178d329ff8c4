-- ===== src/Odr/Network/Requests.antt =====
-- What ODR.c does with an RREQ keeps its routes true, and what it sends is true.
use cse.Base.{
  ℕ, ◌+◌, ◌≡◌, inl, inr, subst, Bytes, List, ◌++◌, some, Bool, true, false, ◌==◌, ltb,
  if◌then◌else◌, u32, ntohl, htonl, get_elem?, All, All-append, same, ◌‼◌, at-eq-ok, Sound,
  Sound-ok, Sound-if, Sound-bind, Bool-cases, length,
}
use cse.Odr.Types.{RoutingEntry, Payload, Rreq, rreq, Action, Odr}
use cse.Odr.Routes.{find_route, find_usable, improve, learn_reverse}
use cse.Odr.Request.{
  answer, is_fresh, own_reply, known_reply, flood, one_more_hop, note_id, as_destination,
  as_informed, as_relay, by_role, on_rreq,
}
use cse.Odr.Network.{Topology, Joined}
use cse.Odr.Network.Truth.{Has, BodyTrue, ActTrue, NodeTrue, ResultTrue, improve-RouteTrue}
use cse.Odr.Network.Parts.{
  note_id-True, flood-True, answer-True, one_more_hop-True, own_reply-True, known_reply-True,
}

-- A frame that comes from node `x`, which has the hardware address in its header.
module _ (t : Topology) (Origin : Payload → Type 0) (u : ℕ) {x k : ℕ} (index : ℕ) (mac : Bytes)
    (joined : Joined t u index x k) (has : Has (t.macs x) mac) where
  module _ {s : Odr} (number : ℕ) (e : RoutingEntry) (efficient : Bool) (q : Rreq)
      (n : NodeTrue t u s) (found : get_elem? s.routing_table number ≡ some e)
      (true_q : BodyTrue t Origin x (rreq q)) where
    flooded :
        (q' : Rreq)
        → BodyTrue t Origin x (rreq q')
        → All (ActTrue t Origin u) (flood s.if_macs 0 index (one_more_hop q'))
    flooded q' true_q' =
        flood-True t Origin u s.if_macs 0 index (one_more_hop q')
          (λ m h. subst (λ macs. Has macs m) n.macs h)
          (one_more_hop-True t Origin u q' joined true_q')

    as_destination-True :
        same q.dst_addr s.node_addr ≡ true
        → Sound (ResultTrue t Origin u) (as_destination s number e efficient index mac q)
    unfolding as_destination
    as_destination-True h = Sound-bind (answer s e efficient index mac q (own_reply q)) _ (λ acts p.
        Sound-ok (note_id s number e q, acts)
          (
            note_id-True t Origin u number e q n found,
            (answer-True t Origin u e efficient index mac q (own_reply q) n
                  (own_reply-True t Origin u q n h)).at
                acts p,
          ))

    as_informed-True :
        (known : RoutingEntry) (forced : Bool)
        → get_elem? s.routing_table (find_usable q.dst_addr forced s.routing_table) ≡ some known
        → Sound (ResultTrue t Origin u) (as_informed s number e known efficient index mac q)
    unfolding as_informed
    as_informed-True known forced usable =
        Sound-bind (answer s e efficient index mac q (known_reply q known.hop_cnt)) _ (λ acts p.
          let answered =
            (answer-True t Origin u e efficient index mac q (known_reply q known.hop_cnt) n
                (known_reply-True t Origin u q known forced n usable)).at
              acts p in
          let passed = flooded (record q { rrep_sent = htonl 1 }) true_q in
          Sound-ok _
            (note_id-True t Origin u number e q n found, both efficient acts _ answered passed))
      where
        both :
            (b : Bool) (acts more : List Action)
            → All (ActTrue t Origin u) acts
            → All (ActTrue t Origin u) more
            → All (ActTrue t Origin u) (if b then acts ++ more else acts)
        both true acts more a m = All-append (ActTrue t Origin u) acts more a m
        both false acts more a m = a

    as_relay-True : ResultTrue t Origin u (as_relay s number e efficient index q)
    unfolding as_relay
    as_relay-True = (
      note_id-True t Origin u number e q n found,
      elim (Bool-cases (is_fresh e q efficient)) [
        | inl p ↦ rw p (flooded q true_q)
        | inr p ↦ rw p tt
      ],
    )

    by_role-True : Sound (ResultTrue t Origin u) (by_role s number e efficient index mac q)
    unfolding by_role
    by_role-True =
        let forced : Bool = ntohl q.discovery == 1 in
        let count : ℕ = find_usable q.dst_addr forced s.routing_table in
        Sound-if (same q.dst_addr s.node_addr) _ _ as_destination-True (λ _.
          Sound-if (ltb count (length s.routing_table)) _ _
            (λ _.
              Sound-bind (s.routing_table ‼ count) _
                (λ known h. as_informed-True known forced (at-eq-ok s.routing_table count h)))
            (λ _. Sound-ok (as_relay s number e efficient index q) as_relay-True))

  -- An RREQ.
  pub on_rreq-True :
      {s : Odr} (q : Rreq)
      → NodeTrue t u s
      → BodyTrue t Origin x (rreq q)
      → Sound (ResultTrue t Origin u) (on_rreq s index mac q)
  unfolding on_rreq learn_reverse
  on_rreq-True {s} q n true_q =
      let number : ℕ = find_route q.src_addr s.routing_table in
      let learnt =
        improve s.routing_table number (ntohl q.discovery) (u32 (ntohl q.hop_cnt + 1)) index mac in
      let after : NodeTrue t u (record s { routing_table = learnt.0 }) = record {
        own = n.own;
        macs = n.macs;
        routes =
            improve-RouteTrue t u index s.routing_table (ntohl q.discovery) n.routes joined has
              true_q;
      } in
      Sound-bind (learnt.0 ‼ number) _
        (λ e h. by_role-True number e learnt.1 q after (at-eq-ok learnt.0 number h) true_q)
