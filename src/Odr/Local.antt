-- ===== src/Odr/Local.antt =====
-- What ODR.c does with a datagram of a local process: a reply of the local server, or a request of
-- a local client.
use cse.Base.{
  ℕ, ◌+◌, ◌-◌, Bytes, List, [], ◌∷◌, Bool, false, not, ◌&&◌, ltb, ◌==◌, if◌then◌else◌, length, set,
  u32, htonl, Outcome, ok, fault, ◌>>=◌, ◌‼◌, Option, none, some, get_elem?,
}
use cse.Odr.Types.{
  Rreq, Payload, payload, rreq, Action, send_frame, proto_bits, broadcast_mac, Odr, LocalMsg,
  RoutingEntry,
}
use cse.Odr.Routes.{find_route, if_mac}
use cse.Odr.Ports.{find_path}

-- A string copied by `strcpy`, or stored by `%s`, into an array of `size` bytes.
abbrev pub copy_into : ℕ → Bytes → Outcome Bytes
copy_into size text = if ltb (length text) size then ok text else fault

-- An application payload of this node, sent along a routing entry.
unfoldable pub send_payload :
    Odr
    → RoutingEntry
    → (src_port dst_port : ℕ) → (dst_addr message : Bytes) → Outcome (List Action)
send_payload s e src_port dst_port dst_addr message = do
  mac ← if_mac s.if_macs e.outgoing_if
  text ← copy_into 25 message
  let load : Payload = record {
    src_addr = s.node_addr;
    dst_addr = dst_addr;
    src_port = htonl src_port;
    dst_port = htonl dst_port;
    hop_cnt = htonl 0;
    len = htonl 4096;
    message = text;
  }
  ok (
      send_frame (e.outgoing_if - 3) e.outgoing_if e.next_hop
        (record { dst_mac = e.next_hop; src_mac = mac; proto = proto_bits; body = payload load })
      ∷ [])

-- The reply of the local server goes out as a payload, whether or not there is a route.
unfoldable pub server_reply : Odr → LocalMsg → Outcome (Odr × List Action)
server_reply s m = do
  e ← s.routing_table ‼ find_route m.dst_addr s.routing_table
  acts ← send_payload s e 5000 m.dst_port m.dst_addr m.message
  ok (s, acts)

-- An RREQ of this node, sent on every interface from number `count` on.
unfoldable pub flood_all : List Bytes → ℕ → Rreq → List Action
flood_all [] count q = []
flood_all (mac ∷ macs) count q =
    send_frame count (count + 3) broadcast_mac
      (record { dst_mac = broadcast_mac; src_mac = mac; proto = proto_bits; body = rreq q })
    ∷ flood_all macs (count + 1) q

-- A client that is not in the port table gets the next slot and the next port number; the slot
-- has 15 bytes for the path.
unfoldable pub register : Odr → ℕ → Bytes → Outcome Odr
register s index path =
    if index == s.port_cnt + 1
    then (if ltb (length path) 15 && ltb index (length s.port_table)
        then ok (record s {
          port_table = set s.port_table index (record { port = s.port; sun_path = path });
          port_cnt = s.port_cnt + 1;
          port = s.port + 1;
        })
        else fault)
    else ok s

-- `route_exist`
unfoldable pub route_exists : Option RoutingEntry → ℕ → Bool
route_exists none flag = false
route_exists (some e) flag = not (e.outgoing_if == 0) && flag == 0

-- The RREQ that starts a route discovery.
unfoldable pub first_rreq : Odr → LocalMsg → ℕ → Rreq
first_rreq s m port = record {
  src_addr = s.node_addr;
  dst_addr = m.dst_addr;
  src_port = htonl port;
  broadcast_id = htonl s.broadcast_id;
  hop_cnt = htonl 0;
  rrep_sent = htonl 0;
  discovery = htonl (if m.flag == 1 then 1 else 0);
}

-- The request goes out as a payload along the route.
unfoldable pub send_request : Odr → LocalMsg → ℕ → Outcome (Odr × List Action)
send_request s m index = do
  e ← s.routing_table ‼ find_route m.dst_addr s.routing_table
  p ← s.port_table ‼ index
  acts ← send_payload s e p.port 5000 m.dst_addr m.message
  ok (s, acts)

-- A route discovery, on every interface.
unfoldable pub discover : Odr → LocalMsg → ℕ → Outcome (Odr × List Action)
discover s m index = do
  p ← s.port_table ‼ index
  let t = record s { broadcast_id = u32 (s.broadcast_id + 1) }
  ok (t, flood_all t.if_macs 0 (first_rreq t m p.port))

-- A client's request: a payload if there is a route and no discovery is forced, or else an RREQ.
unfoldable pub client_request : Odr → LocalMsg → ℕ → Outcome (Odr × List Action)
client_request s m index = register s index m.sun_path >>= λ t.
    if route_exists (get_elem? t.routing_table (find_route m.dst_addr t.routing_table)) m.flag
    then send_request t m index
    else discover t m index

-- A datagram on the UNIX domain socket.
unfoldable pub on_local : Odr → LocalMsg → Outcome (Odr × List Action)
on_local s0 m = do
  addr ← copy_into 15 m.dst_addr
  let s = record s0 { local_path = m.sun_path }
  index ← find_path m.sun_path s.port_table (s.port_cnt + 1)
  if index == 0 then server_reply s m else client_request s m index
