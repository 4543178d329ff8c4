-- ===== src/Messages/Tests.antt =====
-- Runs of the model of API.c on concrete inputs, and the theorems there.
use cse.Base.{
  ◌+◌, ◌<◌, ◌^◌, ◌≡◌, ◌++◌, ◌∷◌, refl, Bytes, [], some, ok, take, codes, arith, decimal,
  digits_fuel, before_nul, htonl, replicate, All, same, get_elem?,
}
use cse.Messages.{Request, msg_send, scan_request, is_space, is_digit}
use cse.Messages.Digits.{NoDigitFirst}
use cse.Messages.Programs.{Server, server_round}
use cse.Messages.Answers.{IsPlainLoad, behind}
use cse.Messages.Astray.{local_request, answer_load, answer_goes_astray}
use cse.Odr.Types.{
  Payload, payload, send_frame, send_local, proto_bits, RoutingEntry, PortEntry, Odr, vm_addr,
}
use cse.Odr.Routes.{find_route, if_mac}
use cse.Odr.Local.{on_local}
use cse.Odr.Data.{load_text, on_payload, start}
use cse.Odr.Rounds.{start-IsValid}
use cse.Odr.Network.Discovery.{server_entry}
use cse.Messages.Trips.{IsWord, scan_request-msg_send}

abbrev asking : Request
asking = record {
  dst_addr = codes "130.245.156.23";
  dst_port = 5000;
  message = codes "HI";
  flag = 0;
}

abbrev nothing : Request
nothing = record { dst_addr = []; dst_port = 0; message = []; flag = 1 }

address_IsWord : IsWord (codes "130.245.156.23")
unfolding is_space
address_IsWord = (
  refl,
  (
    refl,
    (
      refl,
      (refl, (refl, (refl, (refl, (refl, (refl, (refl, (refl, (refl, (refl, (refl, tt))))))))))),
    ),
  ),
)

asking_text : msg_send asking ≡ codes "130.245.156.23 5000 HI 0"
unfolding msg_send decimal digits_fuel
asking_text = refl

scan_request-msg_send_example : scan_request nothing (msg_send asking ++ codes " 17") ≡ asking
scan_request-msg_send_example =
    scan_request-msg_send nothing asking (codes " 17") address_IsWord
      (unfold is_space in (refl, (refl, tt))) (omega arith) (omega arith) (unfold is_digit in refl)

-- A request of node 3 at node 1.
abbrev load : Payload
load = record {
  src_addr = codes "130.245.156.23";
  dst_addr = codes "130.245.156.21";
  src_port = htonl 6000;
  dst_port = 5000;
  hop_cnt = 1;
  len = 2;
  message = codes "HI";
}

load-IsPlainLoad : IsPlainLoad load
unfolding htonl
load-IsPlainLoad = record {
  message_word = unfold is_space in (refl, (refl, tt));
  message_text = ground arith;
  addr_word = address_IsWord;
  addr_text = ground arith;
  port_small = omega arith;
}

load_shown : load_text load ≡ codes "HI 130.245.156.23 1880555520"
unfolding load_text decimal digits_fuel htonl
load_shown = refl

abbrev none_before : Server
none_before = record { reply = record { recvmsg = []; src_addr = []; src_port = 0 }; recv = 0 }

clean : NoDigitFirst (behind [] (load_text load))
unfolding load_text decimal digits_fuel before_nul is_digit htonl
clean = tt

abbrev date : Bytes
date = codes "Wed Nov 12 10:00:00 2014"

abbrev mac : Bytes
mac = replicate 6 1

abbrev to_vm3 : RoutingEntry
to_vm3 = record {
  dst_addr = codes "130.245.156.23";
  next_hop = mac;
  outgoing_if = 3;
  hop_cnt = 1;
  broadcast_id = 1;
}

-- ODR.c on node 1, with a route to node 3, and on node 3.
abbrev at_vm1 : Odr
at_vm1 = record {
  node_addr = codes "130.245.156.21";
  if_macs = mac ∷ [];
  routing_table = to_vm3 ∷ [];
  port_table = server_entry ∷ [];
  port_cnt = 0;
  port = 6000;
  broadcast_id = 0;
  local_path = [];
}

abbrev at_vm3 : Odr
at_vm3 =
    start (codes "130.245.156.23") (mac ∷ []) (replicate 10 to_vm3)
      (replicate 9 (record { port = 0; sun_path = [] }))

at_vm1_routes :
    (get_elem? at_vm1.routing_table (find_route (codes "130.245.156.23") at_vm1.routing_table)
      ≡ some to_vm3)
    × (if_mac at_vm1.if_macs 3 ≡ ok mac)
unfolding find_route same if_mac
at_vm1_routes = (refl, refl)

small_ports :
    All (λ (e : PortEntry). e.port < 2 ^ 16) (take (at_vm3.port_cnt + 1) at_vm3.port_table)
unfolding start
small_ports = omega arith

answer_goes_astray_example :
    let a =
      answer_load (codes "130.245.156.21") (codes "130.245.156.23") (htonl 6000) (codes "Wed") in
    (t : Server) × (q : Request) × (server_round none_before [] (load_text load) date ≡ ok (t, q))
    × (on_local at_vm1 (local_request (scan_request nothing (msg_send q ++ [])))
        ≡ ok (
          record at_vm1 { local_path = codes "240411" },
          send_frame 0 3 mac
                (record { dst_mac = mac; src_mac = mac; proto = proto_bits; body = payload a })
              ∷ [],
        ))
    × (on_payload at_vm3 a ≡ ok (at_vm3, send_local at_vm3.local_path (load_text a) ∷ []))
answer_goes_astray_example =
    answer_goes_astray none_before load [] date (codes "Wed")
      (codes "ov 12 10:00:00 2014" ++ (13 ∷ 10 ∷ [])) [] 78 2 6000 nothing at_vm1 at_vm3
      (unfold vm_addr in refl) load-IsPlainLoad clean refl (omega arith) (omega arith) refl
      (unfold is_space in (refl, (refl, (refl, tt)))) (omega arith)
      (unfold is_space is_digit in (refl, refl, refl, refl)) ([], refl) at_vm1_routes.0
      at_vm1_routes.1
      (start-IsValid (codes "130.245.156.23") (mac ∷ []) (replicate 10 to_vm3)
        (replicate 9 (record { port = 0; sun_path = [] })) refl refl)
      (unfold start in refl) small_ports
