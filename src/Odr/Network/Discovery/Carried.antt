-- ===== src/Odr/Network/Discovery/Carried.antt =====
-- A payload along routes: it arrives, and the local server of the last node is told.
use cse.Base.{
  ℕ, suc, ◌+◌, ◌-◌, ◌<◌, ◌≡◌, ◌≢◌, refl, sym, ap, subst, ◌∙◌, Bytes, List, [], ◌∷◌, codes, some,
  none, true, false, ◌==◌, get_elem?, length, same, same_refl, ntohl, ok, ◌>>=◌, Bool-cases, inl,
  inr, arith,
}
use cse.Odr.Types.{Payload, payload, Action, send_frame, send_local, proto_bits, Odr}
use cse.Odr.Routes.{if_mac}
use cse.Odr.Ports.{find_port}
use cse.Odr.Data.{on_body, on_payload, deliver, relay_payload, load_text}
use cse.Odr.Network.{Topology, Network, put_node, after_round, Reach, begin, and_then}
use cse.Odr.Network.Discovery.{HasServer, RoutesTo, server_entry}
use cse.Odr.Network.Discovery.Tables.{same_ne}
use cse.Odr.Network.Discovery.Backs.{if_mac-at}
use cse.Odr.Network.Discovery.Leads.{Home, Leads, leads_home, leads_on}
use cse.Odr.Network.Discovery.Air.{Aired, now, hears_step}
use cse.Odr.Network.Discovery.Along.{both_ways, joined_back}

abbrev pub load_frame : (out : ℕ) (next own : Bytes) → Payload → Action
load_frame out next own l =
    send_frame (out - 3) out next
      (record { dst_mac = next; src_mac = own; proto = proto_bits; body = payload l })

-- A node on the way sends the payload on over its route, and stays as it is.
hands_on :
    {t : Topology} {v i : ℕ} {s : Odr} (l : Payload) (routes : RoutesTo t l.dst_addr v i s)
    → t.addr v ≢ l.dst_addr
    → i < length (t.macs v)
    → (own : Bytes) × (on_payload s l
        ≡ ok (s, load_frame routes.entry.outgoing_if routes.entry.next_hop own l ∷ []))
unfolding on_payload relay_payload
hands_on {t} {v} {i} {s} l routes away lt =
    let not_own : same l.dst_addr s.node_addr ≡ false =
      same_ne l.dst_addr s.node_addr (λ h. away (sym routes.own ∙ sym h)) in
    let (own, ready) =
      if_mac-at s.if_macs i (subst (λ (l : List Bytes). i < length l) (sym routes.macs) lt) in
    let ready_there : if_mac s.if_macs routes.entry.outgoing_if ≡ ok own =
      ap (if_mac s.if_macs) routes.out ∙ ready in
    (own, rw (not_own, routes.there, ready_there) refl)

-- The first port entry is that of the local server.
first_port :
    (s : Odr) (port : ℕ)
    → HasServer s
    → port ≡ 5000
    → find_port port s.port_table (s.port_cnt + 1) s.local_path ≡ ok (codes "240411")
first_port s port (ports, table) is_server =
    let n : s.port_cnt + 1 ≡ suc s.port_cnt = omega arith in
    ap (λ p. find_port p s.port_table (s.port_cnt + 1) s.local_path) is_server
    ∙ (ap (λ t. find_port 5000 t (s.port_cnt + 1) s.local_path) table
        ∙ (ap (λ k. find_port 5000 (server_entry ∷ ports) k s.local_path) n
            ∙ unfold find_port in refl))

-- The node with the address tells its local server.
tells_server :
    {t : Topology} {v : ℕ} {s : Odr} (l : Payload)
    → Home t l.dst_addr v s
    → ntohl l.dst_port ≡ 5000
    → on_payload s l
      ≡ ok
          (record s { local_path = codes "240411" }, send_local (codes "240411") (load_text l) ∷ [])
unfolding on_payload deliver
tells_server {t} {v} {s} l home port =
    let own : same l.dst_addr s.node_addr ≡ true =
      ap (same l.dst_addr) (home.own ∙ home.here) ∙ same_refl l.dst_addr in
    rw own (
      ap
        (λ m. m >>= λ path. ok (record s { local_path = path }, send_local path (load_text l) ∷ []))
        (first_port s (ntohl l.dst_port) home.server port))

put_back : (v : ℕ) (odr : ℕ → Odr) (w : ℕ) → put_node v (odr v) odr w ≡ odr w
put_back v odr w = elim (Bool-cases (w == v)) [
  | inl p ↦ let e : v ≡ w = ground arith in rw p (ap odr e)
  | inr p ↦ rw p refl
]

-- The network when the payload has come to the local server of the node with its address.
pub record Arrived (t : Topology) (net last : Network) (l : Payload) : Type 0 where
  pub path : Reach t net last
  pub node : ℕ
  pub here : t.addr node ≡ l.dst_addr
  pub told :
      get_elem? last.told 0
      ≡ some (record { node = node; path = codes "240411"; text = load_text l })

pub carry :
    {t : Topology} {odr : ℕ → Odr} (l : Payload)
    → ntohl l.dst_port ≡ 5000
    → (net : Network) {u i : ℕ} {nodes : List ℕ} → ((w : ℕ) → net.odr w ≡ odr w)
    → Aired net.sent u i (payload l)
    → Leads t l.dst_addr odr u i nodes
    → (last : Network) × Arrived t net last l
unfolding on_body
carry {t} {odr} l port net as_was aired (leads_home v k joined home) =
    let home' : Home t l.dst_addr v (net.odr v) =
      subst (Home t l.dst_addr v) (sym (as_was v)) home in
    let r : Odr × List Action = (
      record (net.odr v) { local_path = codes "240411" },
      send_local (codes "240411") (load_text l) ∷ [],
    ) in
    (
      after_round net v none r,
      record {
        path = and_then begin (hears_step (joined_back joined) aired r (tells_server l home' port));
        node = v;
        here = home.here;
        told = refl;
      },
    )
carry {t} {odr} l port net as_was aired (leads_on v k i' joined routes away lt far rest) =
    let routes' : RoutesTo t l.dst_addr v i' (net.odr v) =
      subst (RoutesTo t l.dst_addr v i') (sym (as_was v)) routes in
    let (own, done) = hands_on l routes' away lt in
    let r : Odr × List Action =
      (net.odr v, load_frame routes'.entry.outgoing_if routes'.entry.next_hop own l ∷ []) in
    let next : Network = after_round net v none r in
    let out : routes'.entry.outgoing_if - 3 ≡ i' = omega (arith, routes'.out) in
    let (last, a) =
      carry l port next (λ w. put_back v net.odr w ∙ as_was w) (now refl out refl) rest in
    (
      last,
      record {
        path = both_ways (and_then begin (hears_step (joined_back joined) aired r done)) a.path;
        node = a.node;
        here = a.here;
        told = a.told;
      },
    )
