-- ===== src/Odr/Network/Discovery/Start.antt =====
-- The source of a route discovery, as its process begins: a client asks, and the RREQ goes out.
use cse.Base.{
  ◌<◌, ℕ, suc, ◌+◌, ◌≤◌, ◌≡◌, refl, ap, ◌∙◌, Bytes, List, [], ◌∷◌, codes, some, true, false, ◌==◌,
  ltb, if◌then◌else◌, htonl, ntohl-htonl, get_elem?, length, length-set, set, All, All-get_elem?,
  same, ok, u32, arith,
}
use cse.Odr.Types.{RoutingEntry, PortEntry, Rreq, Odr, LocalMsg, vm_addr}
use cse.Odr.Routes.{find_route}
use cse.Odr.Ports.{find_path}
use cse.Odr.Local.{
  on_local, client_request, register, route_exists, discover, first_rreq, flood_all,
}
use cse.Odr.Data.{start, init_routes}
use cse.Odr.Rounds.{start-IsValid}
use cse.Odr.Network.{Topology}
use cse.Odr.Network.Discovery.{HasServer, IsBlank, Blank, Seeks}
use cse.Odr.Network.Discovery.Tables.{find_route_total}

-- The stack has no broadcast id where the routing table lies.
abbrev pub NoIds : List RoutingEntry → Type 0
NoIds routes = All (λ e. e.broadcast_id ≡ 0) routes

init_routes-IsBlank :
    (addrs : List Bytes) (stack : List RoutingEntry)
    → NoIds stack
    → All IsBlank (init_routes addrs stack)
unfolding init_routes
init_routes-IsBlank [] stack h = tt
init_routes-IsBlank (a ∷ addrs) [] h = tt
init_routes-IsBlank (a ∷ addrs) (e ∷ stack) h = ((refl, h.0), init_routes-IsBlank addrs stack h.1)

pub start-Blank :
    (t : Topology) (u : ℕ) (routes : List RoutingEntry) (ports : List PortEntry)
    → length routes ≡ 10
    → length ports ≡ 9
    → NoIds routes
    → Blank t u (start (t.addr u) (t.macs u) routes ports)
unfolding start
start-Blank t u routes ports h k none_noted = record {
  own = refl;
  macs = refl;
  addrs = (start-IsValid (t.addr u) (t.macs u) routes ports h k).addrs;
  blank = init_routes-IsBlank vm_addr routes none_noted;
  server = (ports, refl);
}

pub short : (known : ℕ) {a : Bytes} → get_elem? vm_addr known ≡ some a → length a ≡ 14
short known there = All-get_elem? (λ a. length a ≡ 14) vm_addr known all_short there
  where
    all_short : All (λ a. length a ≡ 14) vm_addr
    all_short =
        unfold vm_addr in
        (refl, (refl, (refl, (refl, (refl, (refl, (refl, (refl, (refl, (refl, tt))))))))))

-- The state after the request of the first client.
abbrev pub after_request : Odr → LocalMsg → Odr
after_request s m = record s {
  port_table = set s.port_table 1 (record { port = s.port; sun_path = m.sun_path });
  port_cnt = s.port_cnt + 1;
  port = s.port + 1;
  broadcast_id = u32 (s.broadcast_id + 1);
  local_path = m.sun_path;
}

-- The RREQ of the first client of a node.
abbrev pub sought : Topology → ℕ → LocalMsg → Rreq
sought t u m = record {
  src_addr = t.addr u;
  dst_addr = m.dst_addr;
  src_port = htonl 6000;
  broadcast_id = htonl 1;
  hop_cnt = htonl 0;
  rrep_sent = htonl 0;
  discovery = htonl (if m.flag == 1 then 1 else 0);
}

pub sought-Seeks :
    (t : Topology) (u : ℕ) (m : LocalMsg) → Seeks (t.addr u) m.dst_addr (sought t u m)
sought-Seeks t u m = record {
  from = refl;
  to = refl;
  open_yet = ntohl-htonl 0 (omega arith);
  first = ntohl-htonl 1 (omega arith);
}

module _ (t : Topology) (u : ℕ) (routes : List RoutingEntry) (m : LocalMsg)
    (ten : length routes ≡ 10) (ids : NoIds routes) (known : ℕ)
    (is_node : get_elem? vm_addr known ≡ some m.dst_addr)
    (client : same (codes "240411") m.sun_path ≡ false) (brief : length m.sun_path < 15) where
  abbrev pub fresh : List PortEntry → Odr
  fresh ports = start (t.addr u) (t.macs u) routes ports

  no_route :
      (ports : List PortEntry)
      → length ports ≡ 9
      → route_exists
          (get_elem?
            (fresh ports).routing_table
            (find_route m.dst_addr (fresh ports).routing_table))
          m.flag
        ≡ false
  unfolding route_exists
  no_route ports nine =
      let b = start-Blank t u routes ports ten nine ids in
      let table : List RoutingEntry = (fresh ports).routing_table in
      let (e, there) =
        find_route_total m.dst_addr table known (ap (λ l. get_elem? l known) b.addrs ∙ is_node) in
      let is_blank : IsBlank e =
        All-get_elem? IsBlank table (find_route m.dst_addr table) b.blank there in
      rw there (simp (is_blank.0) refl)

  pub asks_all :
      (ports : List PortEntry)
      → length ports ≡ 9
      → on_local (fresh ports) m
        ≡ ok (after_request (fresh ports) m, flood_all (t.macs u) 0 (sought t u m))
  unfolding on_local client_request register discover first_rreq find_path start
  asks_all [] nine = absurd (omega arith)
  asks_all (p ∷ ports) nine =
      let fits : ltb (length m.dst_addr) 15 ≡ true =
        let n : length m.dst_addr ≡ 14 = short known is_node in ground arith in
      let room : ltb 1 (suc (suc (length ports))) ≡ true = ground arith in
      let path_fits : ltb (length m.sun_path) 15 ≡ true = ground arith in
      rw (fits, client, path_fits, room, no_route (p ∷ ports) nine) refl

  pub after_request-Blank :
      (ports : List PortEntry)
      → length ports ≡ 9
      → Blank t u (after_request (fresh ports) m)
        × ((after_request (fresh ports) m).port_cnt + 1
            ≤ length (after_request (fresh ports) m).port_table)
  after_request-Blank ports nine =
      let b = start-Blank t u routes ports ten nine ids in
      (
        record {
          own = b.own;
          macs = b.macs;
          addrs = b.addrs;
          blank = b.blank;
          server = still_there;
        },
        room,
      )
    where
      still_there : HasServer (after_request (fresh ports) m)
      still_there =
          unfold start in (set ports 0 (record { port = 6000; sun_path = m.sun_path }), refl)

      room :
          (after_request (fresh ports) m).port_cnt + 1
          ≤ length (after_request (fresh ports) m).port_table
      room =
          unfold start in
          omega (
            arith,
            length-set (fresh ports).port_table 1
                (record { port = (fresh ports).port; sun_path = m.sun_path }),
            nine,
          )
