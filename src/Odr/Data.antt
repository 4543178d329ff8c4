-- ===== src/Odr/Data.antt =====
-- What ODR.c does with an application payload that it receives, one round of its loop over the
-- sockets that `select` reports, and the set-up of its tables.
use cse.Base.{
  ℕ, ◌+◌, ◌-◌, Bytes, List, [], ◌∷◌, ◌++◌, codes, blank, decimal, if◌then◌else◌, same, ntohl,
  Outcome, ok, ◌>>=◌, ◌‼◌, Option, none, some,
}
use cse.Odr.Types.{
  Payload, payload, Body, rreq, rrep, Frame, Action, send_frame, send_local, proto_bits, Odr,
  LocalMsg, RoutingEntry, PortEntry, vm_addr,
}
use cse.Odr.Routes.{find_route, if_mac}
use cse.Odr.Ports.{find_port}
use cse.Odr.Local.{on_local}
use cse.Odr.Request.{on_rreq}
use cse.Odr.Reply.{on_rrep}

-- `sprintf(data, "%s %s %d", load->message, load->src_addr, load->src_port)`
unfoldable pub load_text : Payload → Bytes
load_text l = l.message ++ (blank ++ (l.src_addr ++ (blank ++ decimal l.src_port)))

-- The payload is for a local process.
unfoldable pub deliver : Odr → Payload → Outcome (Odr × List Action)
deliver s l = find_port (ntohl l.dst_port) s.port_table (s.port_cnt + 1) s.local_path >>= λ path.
    ok (record s { local_path = path }, send_local path (load_text l) ∷ [])

-- The payload goes on along the routing entry of its destination, unchanged.
unfoldable pub relay_payload : Odr → Payload → Outcome (Odr × List Action)
relay_payload s l = s.routing_table ‼ find_route l.dst_addr s.routing_table >>= λ e.
    if_mac s.if_macs e.outgoing_if >>= λ own. ok (
      s,
      send_frame (e.outgoing_if - 3) e.outgoing_if e.next_hop
            (record { dst_mac = e.next_hop; src_mac = own; proto = proto_bits; body = payload l })
          ∷ [],
    )

unfoldable pub on_payload : Odr → Payload → Outcome (Odr × List Action)
on_payload s l = if same l.dst_addr s.node_addr then deliver s l else relay_payload s l

-- The dispatch on `header->type`.
unfoldable pub on_body : Odr → ℕ → Bytes → Body → Outcome (Odr × List Action)
on_body s index mac (rreq q) = on_rreq s index mac q
on_body s index mac (rrep r) = on_rrep s index mac r
on_body s index mac (payload l) = on_payload s l

-- Two pieces of the loop one after the other; the calls of the first come first.
abbrev pub after : List Action → Outcome (Odr × List Action) → Outcome (Odr × List Action)
after acts m = m >>= λ r. ok (r.0, acts ++ r.1)

-- The loop over the interfaces: the frame that is readable on each, from number `index` on.
unfoldable pub on_frames : Odr → ℕ → List (Option Frame) → Outcome (Odr × List Action)
on_frames s index [] = ok (s, [])
on_frames s index (none ∷ frames) = on_frames s (index + 1) frames
on_frames s index (some f ∷ frames) =
    on_body s index f.src_mac f.body >>= λ r. after r.1 (on_frames r.0 (index + 1) frames)

-- One round: the UNIX domain socket first, if it is readable, then the interfaces.
unfoldable pub round : Odr → Option LocalMsg → List (Option Frame) → Outcome (Odr × List Action)
round s none frames = on_frames s 0 frames
round s (some m) frames = on_local s m >>= λ r. after r.1 (on_frames r.0 0 frames)

-- The initial routing table: what the stack holds, with the addresses and "no route" written in.
unfoldable pub init_routes : List Bytes → List RoutingEntry → List RoutingEntry
init_routes [] stack = []
init_routes (a ∷ addrs) [] = []
init_routes (a ∷ addrs) (e ∷ stack) =
    record e { dst_addr = a; outgoing_if = 0 } ∷ init_routes addrs stack

-- The state before the first round; `routes` are the ten entries, and `ports` the last nine, of
-- the tables in uninitialised stack; the first port entry is that of the local server.
unfoldable pub start : Bytes → List Bytes → List RoutingEntry → List PortEntry → Odr
unfolding init_routes vm_addr
start node_addr if_macs routes ports = record {
  node_addr = node_addr;
  if_macs = if_macs;
  routing_table = init_routes vm_addr routes;
  port_table = record { port = 5000; sun_path = codes "240411" } ∷ ports;
  port_cnt = 0;
  port = 6000;
  broadcast_id = 0;
  local_path = [];
}
