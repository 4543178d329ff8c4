-- ===== src/Odr/Network/Tests.antt =====
-- A network of two nodes: a route discovery, and a payload over the route.
use cse.Base.{
  ℕ, ◌+◌, ◌≡◌, refl, Bytes, List, [], ◌∷◌, Option, some, none, codes, replicate, htonl, ntohl, same,
  get_elem?, Outcome, ok, fault, ◌==◌, if◌then◌else◌, arith,
}
use cse.Odr.Types.{
  RoutingEntry, Rreq, Payload, rreq, rrep, payload, Frame, Action, Odr, LocalMsg, vm_addr,
  proto_bits, broadcast_mac, Body,
}
use cse.Odr.Routes.{
  find_route, find_usable, is_better, improve, learn_reverse, learn_forward, if_mac,
}
use cse.Odr.Ports.{find_path, find_port}
use cse.Odr.Local.{
  on_local, client_request, register, route_exists, discover, send_request, send_payload,
  first_rreq, flood_all,
}
use cse.Odr.Request.{on_rreq, by_role, as_destination, answer, own_reply, is_fresh, note_id}
use cse.Odr.Reply.{on_rrep, tell_client}
use cse.Odr.Data.{round, on_frames, on_body, on_payload, deliver, start, init_routes, load_text}
use cse.Odr.Network.{
  Topology, Joined, Network, Reach, begin, and_then, round_step, begun, after_round, Readable,
}
use cse.Odr.Network.Truth.{Via, TextTrue}
use cse.Odr.Network.Whole.{FromAsked, routes_are_real, told_is_asked}

abbrev vm2 : Bytes
vm2 = codes "130.245.156.22"

abbrev vm3 : Bytes
vm3 = codes "130.245.156.23"

-- Node 0 is VM2 and node 1 is VM3, and each has one interface.
abbrev two_nodes : Topology
two_nodes = record {
  addr = λ u. if u == 0 then vm2 else vm3;
  macs = λ u. replicate 6 (u + 1) ∷ [];
  segment = λ u i. some 7;
}

abbrev no_entry : RoutingEntry
no_entry = record { dst_addr = []; next_hop = []; outgoing_if = 9; hop_cnt = 9; broadcast_id = 0 }

abbrev first_net : Network
first_net =
    begun two_nodes (λ u. replicate 10 no_entry)
      (λ u. replicate 9 (record { port = 0; sun_path = [] }))

abbrev asks : LocalMsg
asks = record {
  sun_path = codes "temp.1";
  dst_addr = vm3;
  dst_port = 5000;
  message = codes "HI";
  flag = 0;
}

abbrev result : Odr → Outcome (Odr × List Action) → Odr × List Action
result s fault = (s, [])
result s (ok r) = r

-- A round of a node in which nothing, or just one frame, comes on its interface.
abbrev played : Network → (u : ℕ) → Option LocalMsg → List (Option Frame) → Network
played net u m frames = after_round net u m (result (net.odr u) (round (net.odr u) m frames))

abbrev on_air : (node : ℕ) → (dst : Bytes) → Body → Frame
on_air node dst b = record {
  dst_mac = dst;
  src_mac = replicate 6 (node + 1);
  proto = proto_bits;
  body = b;
}

abbrev seeks : Rreq
seeks = record {
  src_addr = vm2;
  dst_addr = vm3;
  src_port = htonl 6000;
  broadcast_id = htonl 1;
  hop_cnt = htonl 0;
  rrep_sent = htonl 0;
  discovery = htonl 0;
}

abbrev asked_net : Network
asked_net = played first_net 0 (some asks) (none ∷ [])

abbrev answered_net : Network
answered_net = played asked_net 1 none (some (on_air 0 broadcast_mac (rreq seeks)) ∷ [])

abbrev routed_net : Network
routed_net =
    played answered_net 0 none (some (on_air 1 (replicate 6 1) (rrep (own_reply seeks))) ∷ [])

abbrev carried : Payload
carried = record {
  src_addr = vm2;
  dst_addr = vm3;
  src_port = htonl 6000;
  dst_port = htonl 5000;
  hop_cnt = htonl 0;
  len = htonl 4096;
  message = codes "HI";
}

abbrev sent_net : Network
sent_net = played routed_net 0 (some asks) (none ∷ [])

abbrev last_net : Network
last_net = played sent_net 1 none (some (on_air 0 (replicate 6 2) (payload carried)) ∷ [])

abbrev Runs : Network → (u : ℕ) → Option LocalMsg → List (Option Frame) → Type 0
Runs net u m frames =
    (read : Readable two_nodes net.sent u 0 frames) × (round (net.odr u) m frames
      ≡ ok (result (net.odr u) (round (net.odr u) m frames)))

abbrev joined : (u v : ℕ) → Joined two_nodes u 0 v 0
joined u v = record { shared = 7; one = refl; other = refl }

-- VM3 knows the way to VM2.
abbrev route_back : RoutingEntry
route_back = record {
  dst_addr = vm2;
  next_hop = replicate 6 1;
  outgoing_if = 3;
  hop_cnt = 1;
  broadcast_id = 1;
}

all_run :
    (Runs first_net 0 (some asks) (none ∷ []))
    × (Runs asked_net 1 none (some (on_air 0 broadcast_mac (rreq seeks)) ∷ []))
    × (Runs answered_net 0 none (some (on_air 1 (replicate 6 1) (rrep (own_reply seeks))) ∷ []))
    × (Runs routed_net 0 (some asks) (none ∷ []))
    × (Runs sent_net 1 none (some (on_air 0 (replicate 6 2) (payload carried)) ∷ []))
    × (get_elem? (last_net.odr 1).routing_table 1 ≡ some route_back)
    × (get_elem? last_net.told 0
        ≡ some (record { node = 1; path = codes "240411"; text = load_text carried }))
unfolding round on_frames on_local client_request register route_exists discover first_rreq
    flood_all find_path find_route same start init_routes vm_addr htonl ntohl on_body on_rreq
    by_role as_destination answer own_reply is_fresh note_id learn_reverse learn_forward improve
    is_better find_usable if_mac on_rrep tell_client find_port send_request send_payload on_payload
    deliver
all_run = (
  (tt, refl),
  (((0, _, refl, refl, joined 1 0), tt), refl),
  (((0, _, refl, refl, joined 0 1), tt), refl),
  (tt, refl),
  (((0, _, refl, refl, joined 1 0), tt), refl),
  refl,
  refl,
)

reached : Reach two_nodes first_net last_net
reached =
    let (one, two, three, four, five, _, _) = all_run in
    and_then
      (and_then
        (and_then
          (and_then (and_then begin (round_step 0 _ _ _ one.0 one.1))
            (round_step 1 _ _ _ two.0 two.1))
          (round_step 0 _ _ _ three.0 three.1))
        (round_step 0 _ _ _ four.0 four.1))
      (round_step 1 _ _ _ five.0 five.1)

routes_are_real_example : Via two_nodes 1 route_back
routes_are_real_example =
    routes_are_real two_nodes (λ u. replicate 10 no_entry)
      (λ u. replicate 9 (record { port = 0; sun_path = [] })) reached 1 1 all_run.5
      (λ e. absurd (omega (arith, e)))

told_is_asked_example :
    TextTrue two_nodes (FromAsked two_nodes last_net.asked) 1 (load_text carried)
told_is_asked_example =
    told_is_asked two_nodes (λ u. replicate 10 no_entry)
      (λ u. replicate 9 (record { port = 0; sun_path = [] })) reached 0 all_run.6
