-- ===== src/Odr/Network/Discovery/Arrives.antt =====
-- The request of a client that asks twice: first for a route, and then along it.
use mathlib.Core.List.{append-nil}
use cse.Base.{
  ℕ, ◌+◌, ◌-◌, ◌<◌, ◌≡◌, ◌≢◌, refl, sym, ap, subst, ◌∙◌, Bytes, List, [], ◌∷◌, codes, some, true,
  false, ◌==◌, ltb, htonl, ntohl-htonl, get_elem?, length, same, same_refl, ok, ◌‼◌, arith,
}
use cse.Odr.Types.{RoutingEntry, PortEntry, Payload, payload, Action, Odr, LocalMsg, vm_addr}
use cse.Odr.Routes.{find_route, if_mac}
use cse.Odr.Ports.{find_path}
use cse.Odr.Local.{on_local, client_request, register, route_exists, send_request, send_payload}
use cse.Odr.Data.{start, round, on_frames, load_text}
use cse.Odr.Network.{Topology, Network, after_round, round_step, Reach, begin, and_then, begun}
use cse.Odr.Network.Discovery.{RoutesTo, Apart, Trail, server_entry}
use cse.Odr.Network.Discovery.Start.{NoIds, short, after_request}
use cse.Odr.Network.Discovery.Backs.{if_mac-at}
use cse.Odr.Network.Discovery.Leads.{Leads-other}
use cse.Odr.Network.Discovery.Air.{Aired, now}
use cse.Odr.Network.Discovery.Along.{both_ways}
use cse.Odr.Network.Discovery.Carried.{load_frame, carry}
use cse.Odr.Network.Discovery.Found.{found}

-- What the first client of a node sends to a server, and its request again, with no discovery forced.
abbrev pub client_load : Topology → ℕ → LocalMsg → Payload
client_load t u m = record {
  src_addr = t.addr u;
  dst_addr = m.dst_addr;
  src_port = htonl 6000;
  dst_port = htonl 5000;
  hop_cnt = htonl 0;
  len = htonl 4096;
  message = m.message;
}

abbrev pub again : LocalMsg → LocalMsg
again m = record m { flag = 0 }

abbrev client_entry : LocalMsg → PortEntry
client_entry m = record { port = 6000; sun_path = m.sun_path }

-- The client is entry 1 of the port table, and its requests go out along a route.
module _ {t : Topology} {u i : ℕ} {s : Odr} (m : LocalMsg) (ports : List PortEntry)
    (routes : RoutesTo t m.dst_addr u i s)
    (table : s.port_table ≡ server_entry ∷ client_entry m ∷ ports) (cnt : s.port_cnt ≡ 1) where
  sends_load :
      i < length (t.macs u)
      → length m.message < 25
      → (own : Bytes) × (send_payload s routes.entry 6000 5000 m.dst_addr m.message
          ≡ ok (
              load_frame routes.entry.outgoing_if routes.entry.next_hop own (client_load t u m)
              ∷ []))
  unfolding send_payload
  sends_load lt fits =
      let (own, ready) =
        if_mac-at s.if_macs i (subst (λ (l : List Bytes). i < length l) (sym routes.macs) lt) in
      let ready_there : if_mac s.if_macs routes.entry.outgoing_if ≡ ok own =
        ap (if_mac s.if_macs) routes.out ∙ ready in
      let room : ltb (length m.message) 25 ≡ true = ground arith in
      (
        own,
        rw (ready_there, room)
            (ap
              (λ a. ok (
                load_frame routes.entry.outgoing_if routes.entry.next_hop own
                  (record (client_load t u m) { src_addr = a })
                ∷ []))
              routes.own),
      )

  finds_client :
      same (codes "240411") m.sun_path ≡ false
      → find_path m.sun_path s.port_table (s.port_cnt + 1) ≡ ok 1
  unfolding find_path
  finds_client client =
      ap (λ l. find_path m.sun_path l (s.port_cnt + 1)) table
      ∙ (ap (λ n. find_path m.sun_path (server_entry ∷ client_entry m ∷ ports) (n + 1)) cnt
          ∙ two_entries client (same_refl m.sun_path))
    where
      two_entries :
          same (codes "240411") m.sun_path ≡ false
          → same m.sun_path m.sun_path ≡ true
          → find_path m.sun_path (server_entry ∷ client_entry m ∷ ports) 2 ≡ ok 1
      two_entries other itself = rw (other, itself) refl

  registered : register s 1 m.sun_path ≡ ok s
  unfolding register
  registered = let p : (1 == s.port_cnt + 1) ≡ false = ground (arith, cnt) in rw p refl

  has_route :
      i < length (t.macs u)
      → route_exists (get_elem? s.routing_table (find_route m.dst_addr s.routing_table)) 0 ≡ true
  unfolding route_exists
  has_route lt =
      let p : (routes.entry.outgoing_if == 0) ≡ false = ground (arith, routes.out) in
      rw (routes.there, p) refl

  sends_again :
      i < length (t.macs u)
      → length m.message < 25
      → (own : Bytes) × (client_request s (again m) 1
          ≡ ok (
            s,
            load_frame routes.entry.outgoing_if routes.entry.next_hop own (client_load t u m) ∷ [],
          ))
  unfolding client_request send_request
  sends_again lt fits =
      let (own, sent) = sends_load lt fits in
      let p : (s.port_table ‼ 1) ≡ ok (client_entry m) = ap (λ l. l ‼ 1) table in
      (own, rw (registered, has_route lt, routes.there, p, sent) refl)

-- A client that has asked before, and whose node has a route now.
asks_again :
    {t : Topology} {u i : ℕ} {s : Odr} (m : LocalMsg) (ports : List PortEntry)
    → s.port_table ≡ server_entry ∷ client_entry m ∷ ports
    → s.port_cnt ≡ 1
    → (routes : RoutesTo t m.dst_addr u i s) → i < length (t.macs u)
    → length m.message < 25
    → length m.dst_addr ≡ 14
    → same (codes "240411") m.sun_path ≡ false
    → (own : Bytes) × (on_local s (again m)
        ≡ ok (
          record s { local_path = m.sun_path },
          load_frame routes.entry.outgoing_if routes.entry.next_hop own (client_load t u m) ∷ [],
        ))
unfolding on_local
asks_again {t} {u} {i} {s} m ports table cnt routes lt fits short client =
    let s' : Odr = record s { local_path = m.sun_path } in
    let routes' : RoutesTo t m.dst_addr u i s' = record {
      own = routes.own;
      macs = routes.macs;
      entry = routes.entry;
      there = routes.there;
      out = routes.out;
    } in
    let (own, sent) = sends_again {s = s'} m ports routes' table cnt lt fits in
    let room : ltb (length m.dst_addr) 15 ≡ true = ground (arith, short) in
    let place = finds_client {s = s'} m ports routes' table cnt client in
    (own, rw (room, place, sent) refl)

-- The port table of the node after the client's first request.
after_request-table :
    (t : Topology) (u : ℕ) (routes : List RoutingEntry) (ports : List PortEntry) (m : LocalMsg)
    → length ports ≡ 9
    → (rest : List PortEntry) × ((after_request
          (start (t.addr u) (t.macs u) routes ports)
          m).port_table
        ≡ server_entry ∷ client_entry m ∷ rest)
after_request-table t u routes [] m nine = absurd (omega arith)
after_request-table t u routes (p ∷ ports) m nine = (ports, unfold start in refl)

after_request-cnt :
    (t : Topology) (u : ℕ) (routes : List RoutingEntry) (ports : List PortEntry) (m : LocalMsg)
    → (after_request (start (t.addr u) (t.macs u) routes ports) m).port_cnt ≡ 1
after_request-cnt t u routes ports m = unfold start in refl

-- For nodes that begin with no broadcast id on the stack where their routing tables lie, zero, and a
-- first client of one of them, with a path below 15 bytes and not that of the server, that asks for another of the ten
-- addresses: if a path of distinct nodes leads from an interface of its node to a node with that
-- address, and goes on at every node over another interface than it came by, and if the message fits
-- in a payload, then there are rounds of these nodes after which the local server of a node with the
-- address has been told that message, with the address of the client's node and the client's port
-- number as the payload holds it.
pub request_arrives :
    (t : Topology) (routes : ℕ → List RoutingEntry) (ports : ℕ → List PortEntry) (u i : ℕ)
    (nodes : List ℕ) (m : LocalMsg) (from to : ℕ)
    → ((w : ℕ) → length (routes w) ≡ 10)
    → ((w : ℕ) → length (ports w) ≡ 9)
    → ((w : ℕ) → NoIds (routes w))
    → get_elem? vm_addr from ≡ some (t.addr u)
    → get_elem? vm_addr to ≡ some m.dst_addr
    → t.addr u ≢ m.dst_addr
    → same (codes "240411") m.sun_path ≡ false
    → length m.sun_path < 15
    → length m.message < 25
    → i < length (t.macs u)
    → Apart u nodes
    → Trail t (t.addr u) m.dst_addr u i nodes
    → (last : Network) × (node : ℕ) × Reach t (begun t routes ports) last
      × (t.addr node ≡ m.dst_addr)
      × (get_elem? last.told 0
          ≡ some
              (record { node = node; path = codes "240411"; text = load_text (client_load t u m) }))
unfolding round on_frames
request_arrives t routes ports u i nodes m from to ten nine ids src_node dst_node ne client brief
      fits out apart path =
    let (mid, reached, routes_to, leads, table, cnt) =
      found t routes ports u i nodes m from to ten nine ids src_node dst_node ne client brief out
        apart path in
    let (rest, entries) = after_request-table t u (routes u) (ports u) m (nine u) in
    let (own, done) =
      asks_again m rest (table ∙ entries) (cnt ∙ after_request-cnt t u (routes u) (ports u) m)
        routes_to out fits (short to dst_node) client in
    let s : Odr = record (mid.odr u) { local_path = m.sun_path } in
    let frame : Action =
      load_frame routes_to.entry.outgoing_if routes_to.entry.next_hop own (client_load t u m) in
    let r : Odr × List Action = (s, frame ∷ []) in
    let ran : round (mid.odr u) (some (again m)) [] ≡ ok r =
      rw (done, append-nil (frame ∷ [])) refl in
    let next : Network = after_round mid u (some (again m)) r in
    let socket : routes_to.entry.outgoing_if - 3 ≡ i = omega (arith, routes_to.out) in
    let on_air : Aired next.sent u i (payload (client_load t u m)) = now refl socket refl in
    let step : Reach t mid next = and_then begin (round_step u (some (again m)) [] r tt ran) in
    let (last, a) =
      carry (client_load t u m) (ntohl-htonl 5000 (omega arith)) next (λ w. refl) on_air
        (Leads-other u s apart leads) in
    (last, a.node, both_ways (both_ways reached step) a.path, a.here, a.told)
