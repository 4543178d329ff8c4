-- ===== src/Odr/Request.antt =====
-- What ODR.c does with an RREQ that it receives.
use cse.Base.{
  ℕ, ◌+◌, Bytes, List, [], ◌∷◌, ◌++◌, Bool, ◌&&◌, ◌||◌, ltb, ◌==◌, if◌then◌else◌, length, set, same,
  u32, htonl, ntohl, Outcome, ok, ◌>>=◌, ◌‼◌,
}
use cse.Odr.Types.{
  RoutingEntry, Rreq, Rrep, rreq, rrep, Action, send_frame, proto_bits, broadcast_mac, Odr,
}
use cse.Odr.Routes.{find_route, find_usable, learn_reverse, if_mac}

-- The RREQ is new from its source, or came again over a better path.
unfoldable pub is_fresh : RoutingEntry → Rreq → Bool → Bool
is_fresh e q efficient =
    ltb e.broadcast_id (ntohl q.broadcast_id)
    || (e.broadcast_id == ntohl q.broadcast_id && efficient)

-- The RREP of the destination itself.
unfoldable pub own_reply : Rreq → Rrep
own_reply q = record {
  src_addr = q.dst_addr;
  dst_addr = q.src_addr;
  dst_port = htonl q.src_port;
  hop_cnt = htonl 0;
  discovery = htonl (if ntohl q.discovery == 1 then 1 else 0);
}

-- The RREP of a node that has a route of `hops` hops to the destination.
unfoldable pub known_reply : Rreq → ℕ → Rrep
known_reply q hops = record {
  src_addr = q.dst_addr;
  dst_addr = q.src_addr;
  dst_port = htonl q.src_port;
  hop_cnt = htonl hops;
  discovery = htonl 0;
}

-- An RREP goes back over the interface and to the address that the RREQ came from, if none was sent
-- before and the RREQ is fresh.
unfoldable pub answer :
    Odr → RoutingEntry → (efficient : Bool) → ℕ → Bytes → Rreq → Rrep → Outcome (List Action)
answer s e efficient index mac q r =
    if ntohl q.rrep_sent == 0 && is_fresh e q efficient
    then (if_mac s.if_macs e.outgoing_if >>= λ own. ok (
        send_frame index (index + 3) mac
          (record { dst_mac = mac; src_mac = own; proto = proto_bits; body = rrep r })
        ∷ []))
    else ok []

-- The RREQ goes out on every interface from number `count` on, but for number `skip`.
unfoldable pub flood : List Bytes → (count skip : ℕ) → Rreq → List Action
flood [] count skip q = []
flood (mac ∷ macs) count skip q =
    let rest = flood macs (count + 1) skip q in
    if count == skip
    then rest
    else send_frame count (count + 3) broadcast_mac
        (record { dst_mac = broadcast_mac; src_mac = mac; proto = proto_bits; body = rreq q })
      ∷ rest

-- `RRQ->hop_cnt=htonl(ntohl(RRQ->hop_cnt)+1)`
unfoldable pub one_more_hop : Rreq → Rreq
one_more_hop q = record q { hop_cnt = htonl (u32 (ntohl q.hop_cnt + 1)) }

-- `routing_table[number].broadcast_id=ntohl(RRQ->broadcast_id)`
unfoldable pub note_id : Odr → ℕ → RoutingEntry → Rreq → Odr
note_id s number e q = record s {
  routing_table = set s.routing_table number (record e { broadcast_id = ntohl q.broadcast_id });
}

-- This node is the destination.
unfoldable pub as_destination :
    Odr → ℕ → RoutingEntry → Bool → ℕ → Bytes → Rreq → Outcome (Odr × List Action)
as_destination s number e efficient index mac q =
    answer s e efficient index mac q (own_reply q) >>= λ acts. ok (note_id s number e q, acts)

-- This node has a route to the destination: `known`.
unfoldable pub as_informed :
    Odr → ℕ → RoutingEntry → RoutingEntry → Bool → ℕ → Bytes → Rreq → Outcome (Odr × List Action)
as_informed s number e known efficient index mac q =
    answer s e efficient index mac q (known_reply q known.hop_cnt) >>= λ acts. ok (
      note_id s number e q,
      if efficient
          then acts ++ flood s.if_macs 0 index (one_more_hop (record q { rrep_sent = htonl 1 }))
          else acts,
    )

-- Any other node passes the RREQ on.
unfoldable pub as_relay : Odr → ℕ → RoutingEntry → Bool → ℕ → Rreq → Odr × List Action
as_relay s number e efficient index q = (
  note_id s number e q,
  if is_fresh e q efficient then flood s.if_macs 0 index (one_more_hop q) else [],
)

-- The three roles that a node may have for an RREQ.
unfoldable pub by_role :
    Odr → ℕ → RoutingEntry → Bool → ℕ → Bytes → Rreq → Outcome (Odr × List Action)
by_role s number e efficient index mac q =
    let count = find_usable q.dst_addr (ntohl q.discovery == 1) s.routing_table in
    if same q.dst_addr s.node_addr
    then as_destination s number e efficient index mac q
    else if ltb count (length s.routing_table)
    then (s.routing_table ‼ count >>= λ known. as_informed s number e known efficient index mac q)
    else ok (as_relay s number e efficient index q)

-- An RREQ from `mac` on interface number `index`.
unfoldable pub on_rreq : Odr → ℕ → Bytes → Rreq → Outcome (Odr × List Action)
on_rreq s index mac q =
    let (table, efficient) = learn_reverse s.routing_table q index mac in
    let number = find_route q.src_addr s.routing_table in
    table ‼ number >>= λ e.
    by_role (record s { routing_table = table }) number e efficient index mac q
