-- ===== src/Messages/Astray.antt =====
-- The way of a server's answer: from server.c through the text of API.c and ODR.c on its node to ODR.c
-- on the node of the client.
use cse.Base.{
  ℕ, suc, ◌+◌, ◌-◌, ◌^◌, ◌<◌, ◌≡◌, refl, ap, subst, ◌∙◌, Bytes, [], ◌∷◌, ◌++◌, some, get_elem?, All,
  take, codes, htonl, blank, ok, ltb, length, same, same_refl, true, arith,
}
use cse.Messages.{Request, msg_send, scan_request}
use cse.Messages.Digits.{NoDigitFirst}
use cse.Messages.Trips.{IsWord, IsPlain, message_cut}
use cse.Messages.Programs.{Server, server_round}
use cse.Messages.Answers.{IsPlainLoad, behind, server_round_lem}
use cse.Odr.Types.{
  Payload, payload, send_frame, send_local, proto_bits, RoutingEntry, Odr, LocalMsg, vm_addr,
}
use cse.Odr.Routes.{find_route, if_mac}
use cse.Odr.Ports.{find_path}
use cse.Odr.Local.{on_local, send_payload, server_reply}
use cse.Odr.Data.{load_text, on_payload, deliver}
use cse.Odr.Invariant.{IsValid}
use cse.Odr.Delivery.{finds_no_port}
use cse.Odr.Network.Discovery.{server_entry, HasServer}
use cse.Odr.Network.Discovery.Start.{short}

-- What ODR.c makes of a datagram of its local server.
abbrev pub local_request : Request → LocalMsg
local_request r = record {
  sun_path = codes "240411";
  dst_addr = r.dst_addr;
  dst_port = r.dst_port;
  message = r.message;
  flag = r.flag;
}

abbrev pub answer_load : (own client : Bytes) → (port : ℕ) → (text : Bytes) → Payload
answer_load own client port text = record {
  src_addr = own;
  dst_addr = client;
  src_port = htonl 5000;
  dst_port = htonl port;
  hop_cnt = htonl 0;
  len = htonl 4096;
  message = text;
}

finds_server :
    (s : Odr) → HasServer s → find_path (codes "240411") s.port_table (s.port_cnt + 1) ≡ ok 0
finds_server s (ports, table) =
    let n : s.port_cnt + 1 ≡ suc s.port_cnt = omega arith in
    ap (λ t. find_path (codes "240411") t (s.port_cnt + 1)) table
    ∙ (ap (find_path (codes "240411") (server_entry ∷ ports)) n ∙ unfold find_path same in refl)

-- ODR.c sends a datagram of the local server along the route to its address.
sends_answer :
    (s : Odr) (r : Request) {e : RoutingEntry} {own : Bytes}
    → HasServer s
    → length r.dst_addr < 15
    → length r.message < 25
    → get_elem? s.routing_table (find_route r.dst_addr s.routing_table) ≡ some e
    → if_mac s.if_macs e.outgoing_if ≡ ok own
    → on_local s (local_request r)
      ≡ ok (
        record s { local_path = codes "240411" },
        send_frame (e.outgoing_if - 3) e.outgoing_if e.next_hop (record {
          dst_mac = e.next_hop;
          src_mac = own;
          proto = proto_bits;
          body = payload (answer_load s.node_addr r.dst_addr r.dst_port r.message);
        })
            ∷ [],
      )
unfolding on_local server_reply send_payload
sends_answer s r {e} {own} server fits room there ready =
    let a : ltb (length r.dst_addr) 15 ≡ true = ground arith in
    let b : ltb (length r.message) 25 ≡ true = ground arith in
    rw (a, finds_server s server, there, ready, b) refl

gets_astray :
    (s : Odr) (a : Payload) (p : ℕ)
    → IsValid s
    → a.dst_addr ≡ s.node_addr
    → 0 < p
    → p < 2 ^ 16
    → All (λ e. e.port < 2 ^ 16) (take (s.port_cnt + 1) s.port_table)
    → a.dst_port ≡ htonl (htonl p)
    → on_payload s a ≡ ok (s, send_local s.local_path (load_text a) ∷ [])
unfolding on_payload deliver
gets_astray s a p v here pos small ports twice =
    let own : same a.dst_addr s.node_addr ≡ true =
      subst (λ b. same a.dst_addr b ≡ true) here (same_refl a.dst_addr) in
    rw (own, finds_no_port s p a.dst_port v pos small ports twice) refl

-- A request of two words from one of the ten nodes, by a client with port `p`, comes to server.c with
-- the bytes of the port swapped, and what the server's array holds behind it begins with no digit:
-- the server answers to that port. ODR.c on its node, whose first port entry is the server's, reads
-- the first word of the date, and if it has a route to the client's node and the word has fewer than
-- 25 bytes, with a blank and then no number behind it, sends the word on as a payload to that port.
-- ODR.c on the client's node, if all ports there have 16 bits, finds no entry for it, and gives it to
-- the local process that was last written to or heard from, whichever that is.
pub answer_goes_astray :
    (server : Server) (l : Payload) (memory date w cs tail : Bytes) (c i p : ℕ) (old : Request)
    (s client : Odr) {e : RoutingEntry} {own : Bytes}
    → get_elem? vm_addr i ≡ some l.src_addr
    → IsPlainLoad l
    → NoDigitFirst (behind memory (load_text l))
    → l.src_port ≡ htonl p
    → 0 < p
    → p < 2 ^ 16
    → take 24 date ++ (13 ∷ 10 ∷ []) ≡ w ++ (blank ++ (c ∷ cs))
    → IsWord w
    → length w < 25
    → IsPlain c
    → HasServer s
    → get_elem? s.routing_table (find_route l.src_addr s.routing_table) ≡ some e
    → if_mac s.if_macs e.outgoing_if ≡ ok own
    → IsValid client
    → l.src_addr ≡ client.node_addr
    → All (λ e. e.port < 2 ^ 16) (take (client.port_cnt + 1) client.port_table)
    → let a = answer_load s.node_addr l.src_addr l.src_port w in
      (t : Server) × (q : Request) × (server_round server memory (load_text l) date ≡ ok (t, q))
      × (on_local s (local_request (scan_request old (msg_send q ++ tail)))
          ≡ ok (
            record s { local_path = codes "240411" },
            send_frame (e.outgoing_if - 3) e.outgoing_if e.next_hop (record {
              dst_mac = e.next_hop;
              src_mac = own;
              proto = proto_bits;
              body = payload a;
            })
                ∷ [],
          ))
      × (on_payload client a ≡ ok (client, send_local client.local_path (load_text a) ∷ []))
answer_goes_astray server l memory date w cs tail c i p old s client {e} {own} known plain rest
      swapped pos small date_words is_word room plain_c has_server there ready valid here ports =
    let q : Request = record {
      dst_addr = l.src_addr;
      dst_port = l.src_port;
      message = take 24 date ++ (13 ∷ 10 ∷ []);
      flag = 0;
    } in
    let q' : Request = record q { message = w; flag = old.flag } in
    let (t, answered) = server_round_lem server l memory date i known plain rest in
    let read : scan_request old (msg_send q ++ tail) ≡ q' =
      message_cut old q w cs tail c plain.addr_word is_word date_words plain_c plain.port_small in
    let fits : length q'.dst_addr < 15 =
      (let n : length l.src_addr ≡ 14 = short i known in omega arith) in
    (
      t,
      q,
      answered,
      ap (λ r. on_local s (local_request r)) read
          ∙ sends_answer s q' has_server fits room there ready,
      gets_astray client (answer_load s.node_addr l.src_addr l.src_port w) p valid here pos small
          ports (ap htonl swapped),
    )
