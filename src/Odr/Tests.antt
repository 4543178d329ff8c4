-- ===== src/Odr/Tests.antt =====
-- Runs of the model of ODR.c on concrete inputs, and the theorems at such inputs.
use cse.Base.{
  ◌≤◌, ◌≡◌, refl, Bytes, List, [], ◌∷◌, none, some, codes, replicate, All, arith, ok, htonl, ntohl,
  same, length,
}
use cse.Odr.Types.{
  RoutingEntry, PortEntry, Rreq, rreq, Frame, Action, send_frame, proto_bits, broadcast_mac, Odr,
  LocalMsg, vm_addr,
}
use cse.Odr.Routes.{find_route, find_usable, is_better, improve, learn_reverse}
use cse.Odr.Request.{is_fresh, flood, one_more_hop, note_id, as_relay, by_role, on_rreq}
use cse.Odr.Data.{on_body, on_frames, round, init_routes, start}
use cse.Odr.Invariant.{IsValid}
use cse.Odr.Rounds.{Reach, here, next, start-IsValid, reachable-IsValid}
use cse.Odr.Flood.{count_on, IsCopy, flood_lem}
use cse.Odr.Duplicate.{on_rreq-again}

abbrev mac_a : Bytes
mac_a = replicate 6 1

abbrev mac_b : Bytes
mac_b = replicate 6 2

abbrev mac_c : Bytes
mac_c = replicate 6 3

abbrev pub vm1 : Bytes
vm1 = codes "130.245.156.21"

abbrev vm2 : Bytes
vm2 = codes "130.245.156.22"

abbrev pub vm3 : Bytes
vm3 = codes "130.245.156.23"

abbrev no_entry : RoutingEntry
no_entry = record { dst_addr = []; next_hop = []; outgoing_if = 0; hop_cnt = 0; broadcast_id = 0 }

abbrev no_port : PortEntry
no_port = record { port = 0; sun_path = [] }

-- VM2 with two interfaces, before the first round.
abbrev pub fresh : Odr
fresh = start vm2 (mac_a ∷ mac_b ∷ []) (replicate 10 no_entry) (replicate 9 no_port)

-- VM1 looks for VM3.
abbrev request : Rreq
request = record {
  src_addr = vm1;
  dst_addr = vm3;
  src_port = htonl 6000;
  broadcast_id = htonl 1;
  hop_cnt = htonl 0;
  rrep_sent = htonl 0;
  discovery = htonl 0;
}

abbrev pub asks : LocalMsg
asks = record {
  sun_path = codes "temp.1";
  dst_addr = vm3;
  dst_port = 5000;
  message = codes "HI";
  flag = 0;
}

pub fresh-IsValid : IsValid fresh
fresh-IsValid =
    start-IsValid vm2 (mac_a ∷ mac_b ∷ []) (replicate 10 no_entry) (replicate 9 no_port) refl refl

abbrev frame_of : Rreq → Frame
frame_of q = record { dst_mac = broadcast_mac; src_mac = mac_c; proto = proto_bits; body = rreq q }

abbrev pub learnt_entry : RoutingEntry
learnt_entry = record {
  dst_addr = vm1;
  next_hop = mac_c;
  outgoing_if = 3;
  hop_cnt = 1;
  broadcast_id = 0;
}

-- VM2 after the request came in on its first interface.
abbrev pub relayed : Odr
relayed =
    note_id (record fresh { routing_table = (learn_reverse fresh.routing_table request 0 mac_c).0 })
      0 learnt_entry request

abbrev passed_on : List Action
passed_on =
    send_frame 1 4 broadcast_mac (record {
      dst_mac = broadcast_mac;
      src_mac = mac_b;
      proto = proto_bits;
      body = rreq (record request { hop_cnt = htonl 1 });
    })
    ∷ []

-- VM2 passes the request on over its other interface, with one hop more.
request-relayed : on_rreq fresh 0 mac_c request ≡ ok (relayed, passed_on)
unfolding on_rreq by_role as_relay note_id is_fresh one_more_hop flood learn_reverse improve
    is_better find_route find_usable same start init_routes vm_addr htonl ntohl
request-relayed = refl

round-relayed : round fresh none (some (frame_of request) ∷ none ∷ []) ≡ ok (relayed, passed_on)
unfolding round on_frames on_body on_rreq by_role as_relay note_id is_fresh one_more_hop flood
    learn_reverse improve is_better find_route find_usable same start init_routes vm_addr htonl
    ntohl
round-relayed = refl

two_frames : 2 ≤ length fresh.if_macs
unfolding start
two_frames = omega arith

relayed-Reach : Reach fresh relayed
relayed-Reach =
    next none (some (frame_of request) ∷ none ∷ []) (relayed, passed_on) here two_frames
      round-relayed refl

pub relayed-IsValid : IsValid relayed
relayed-IsValid =
    reachable-IsValid vm2 (mac_a ∷ mac_b ∷ []) (replicate 10 no_entry) (replicate 9 no_port) refl
      refl relayed-Reach

reachable-IsValid_example : IsValid relayed
reachable-IsValid_example =
    reachable-IsValid vm2 (mac_a ∷ mac_b ∷ []) (replicate 10 no_entry) (replicate 9 no_port) refl
      refl relayed-Reach

on_rreq-again_example : on_rreq relayed 0 mac_c request ≡ ok (relayed, [])
on_rreq-again_example =
    on_rreq-again fresh 0 mac_c request (unfold ntohl htonl in omega arith) request-relayed

abbrev forced_request : Rreq
forced_request = record request { discovery = htonl 1 }

abbrev forced_relayed : Odr
forced_relayed =
    note_id
      (record fresh {
        routing_table = (learn_reverse fresh.routing_table forced_request 0 mac_c).0;
      })
      0 learnt_entry forced_request

forced_relayed_once :
    on_rreq fresh 0 mac_c forced_request
    ≡ ok (forced_relayed, flood fresh.if_macs 0 0 (one_more_hop forced_request))
unfolding on_rreq by_role as_relay note_id is_fresh one_more_hop flood learn_reverse improve
    is_better find_route find_usable same start init_routes vm_addr htonl ntohl
forced_relayed_once = refl

flood_lem_example :
    (count_on 1 (flood (mac_a ∷ mac_b ∷ mac_c ∷ []) 0 1 request) ≡ 0)
    × All
        (IsCopy (mac_a ∷ mac_b ∷ mac_c ∷ []) 0 request)
        (flood (mac_a ∷ mac_b ∷ mac_c ∷ []) 0 1 request)
flood_lem_example = flood_lem (mac_a ∷ mac_b ∷ mac_c ∷ []) 1 1 request
