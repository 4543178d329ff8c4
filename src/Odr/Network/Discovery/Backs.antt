-- ===== src/Odr/Network/Discovery/Backs.antt =====
-- A node on the way passes the RREP back.
use cse.Base.{
  inl, inr, ℕ, ◌+◌, ◌-◌, ◌<◌, ◌≡◌, ◌≢◌, refl, sym, ap, ap₂, subst, ◌∙◌, Bytes, List, [], ◌∷◌, map,
  some, false, ltb, u32, ntohl, htonl, get_elem?, get_elem?-lt, get_elem?-set_self, get_elem?_total,
  length, set, All-get_elem?, same, ok, arith,
}
use cse.Odr.Types.{RoutingEntry, Rrep, rrep, Action, send_frame, Odr, proto_bits}
use cse.Odr.Routes.{find_route, learn_forward, if_mac}
use cse.Odr.Routes.Learn.{
  rerouted, map-set, improve-addrs, find_route-map, find_route-addr, improve_lem,
}
use cse.Odr.Reply.{on_rrep, relay_rrep}
use cse.Odr.Invariant.{addr_of}
use cse.Odr.Network.{Topology}
use cse.Odr.Network.Discovery.{Unusable, RoutesTo, Turned}
use cse.Odr.Network.Discovery.Tables.{same_ne, find_route_ne, improve_blank}

pub if_mac-at :
    (macs : List Bytes) (k : ℕ) → k < length macs → (own : Bytes) × (if_mac macs (k + 3) ≡ ok own)
unfolding if_mac
if_mac-at macs k lt =
    let (own, there) = get_elem?_total macs k lt in
    let above : ltb (k + 3) 3 ≡ false = ground arith in
    let same_place : k + 3 - 3 ≡ k = omega arith in (own, rw (above, same_place, there) refl)

-- The RREP one hop further.
unfoldable pub one_back : Rrep → Rrep
one_back r = record r { hop_cnt = htonl (u32 (ntohl r.hop_cnt + 1)) }

-- What the header of an RREP leaves of the route back to where it goes.
module _ (table : List RoutingEntry) (r : Rrep) (index : ℕ) (mac : Bytes) {e f : RoutingEntry}
    (there : get_elem? table (find_route r.dst_addr table) ≡ some e)
    (answerer : get_elem? table (find_route r.src_addr table) ≡ some f)
    (ne : r.dst_addr ≢ r.src_addr) where
  learn_forward-addrs : map addr_of (learn_forward table r index mac) ≡ map addr_of table
  unfolding learn_forward
  learn_forward-addrs = improve-addrs table (find_route r.src_addr table) _ _ _ _

  pub learn_forward-keeps :
      get_elem?
        (learn_forward table r index mac)
        (find_route r.dst_addr (learn_forward table r index mac))
      ≡ some e
  unfolding learn_forward
  learn_forward-keeps =
      let number : ℕ = find_route r.src_addr table in
      let others =
        (improve_lem table number (ntohl r.discovery) (u32 (ntohl r.hop_cnt + 1)) index mac f
          answerer).9 in
      ap (get_elem? (learn_forward table r index mac))
        (find_route-map r.dst_addr (learn_forward table r index mac) table learn_forward-addrs)
      ∙ (others (find_route r.dst_addr table)
            (λ h. find_route_ne r.dst_addr r.src_addr table there answerer ne (sym h))
          ∙ there)

abbrev pub back_frame : (k : ℕ) (next own : Bytes) → Rrep → Action
back_frame k next own r =
    send_frame k (k + 3) next
      (record { dst_mac = next; src_mac = own; proto = proto_bits; body = rrep r })

relay_known :
    (s : Odr) (r : Rrep) (k : ℕ) (own : Bytes) {e : RoutingEntry}
    → get_elem? s.routing_table (find_route r.dst_addr s.routing_table) ≡ some e
    → if_mac s.if_macs e.outgoing_if ≡ ok own
    → e.outgoing_if ≡ k + 3
    → relay_rrep s r ≡ ok (s, back_frame k e.next_hop own (one_back r) ∷ [])
unfolding relay_rrep one_back
relay_known s r k own {e} there ready out =
    let same_place : e.outgoing_if - 3 ≡ k = omega arith in
    rw (there, ready)
      (ap₂
        (λ i o. ok (
          s,
          send_frame i o e.next_hop (record {
            dst_mac = e.next_hop;
            src_mac = own;
            proto = proto_bits;
            body = rrep (record r { hop_cnt = htonl (u32 (ntohl r.hop_cnt + 1)) });
          })
              ∷ [],
        ))
        same_place out)

pub learn_forward_blank :
    (table : List RoutingEntry) (r : Rrep) (index : ℕ) (mac : Bytes) (e : RoutingEntry)
    → get_elem? table (find_route r.src_addr table) ≡ some e
    → e.outgoing_if ≡ 0
    → learn_forward table r index mac
      ≡ set table (find_route r.src_addr table) (rerouted e index (u32 (ntohl r.hop_cnt + 1)) mac)
unfolding learn_forward
learn_forward_blank table r index mac e h z =
    ap (λ p. p.0)
      (improve_blank table (find_route r.src_addr table) (ntohl r.discovery)
        (u32 (ntohl r.hop_cnt + 1)) index mac e h z)

pub learn_forward_finds :
    (table : List RoutingEntry) (r : Rrep) (index : ℕ) (mac : Bytes) (e : RoutingEntry)
    → get_elem? table (find_route r.src_addr table) ≡ some e
    → e.outgoing_if ≡ 0
    → get_elem?
        (learn_forward table r index mac)
        (find_route r.src_addr (learn_forward table r index mac))
      ≡ some (rerouted e index (u32 (ntohl r.hop_cnt + 1)) mac)
learn_forward_finds table r index mac e h z =
    let number : ℕ = find_route r.src_addr table in
    let e' : RoutingEntry = rerouted e index (u32 (ntohl r.hop_cnt + 1)) mac in
    let written = learn_forward_blank table r index mac e h z in
    let same_place : find_route r.src_addr (set table number e') ≡ number =
      find_route-map r.src_addr (set table number e') table
        (map-set addr_of table number e' h refl) in
    rw written (
      ap (get_elem? (set table number e')) same_place
      ∙ get_elem?-set_self table number e' (get_elem?-lt table number h))

-- A node with a route back and none to the answering node passes the RREP on, and has then a route
-- to that node over the interface that the RREP came by.
pub passes_back :
    {t : Topology} {v k : ℕ} {s : Odr} (r : Rrep) (index : ℕ) (mac : Bytes) {f : RoutingEntry}
    → Turned t r.dst_addr r.src_addr v k s
    → get_elem? s.routing_table (find_route r.src_addr s.routing_table) ≡ some f
    → r.dst_addr ≢ r.src_addr
    → t.addr v ≢ r.dst_addr
    → k < length (t.macs v)
    → (s' : Odr) × (next own : Bytes) × (on_rrep s index mac r
        ≡ ok (s', back_frame k next own (one_back r) ∷ []))
      × RoutesTo t r.src_addr v index s'
unfolding on_rrep
passes_back {t} {v} {k} {s} r index mac {f} turned answerer ne not_here lt =
    let table : List RoutingEntry = learn_forward s.routing_table r index mac in
    let kept = learn_forward-keeps s.routing_table r index mac turned.there answerer ne in
    let not_own : same r.dst_addr s.node_addr ≡ false =
      same_ne r.dst_addr s.node_addr (λ h. not_here (sym turned.own ∙ sym h)) in
    let (own, ready) =
      if_mac-at s.if_macs k (subst (λ (l : List Bytes). k < length l) (sym turned.macs) lt) in
    let ready_there : if_mac s.if_macs turned.entry.outgoing_if ≡ ok own =
      ap (if_mac s.if_macs) turned.back ∙ ready in
    (
      record s { routing_table = table },
      turned.entry.next_hop,
      own,
      rw not_own
          (relay_known (record s { routing_table = table }) r k own kept ready_there turned.back),
      record {
        own = turned.own;
        macs = turned.macs;
        entry = rerouted f index (u32 (ntohl r.hop_cnt + 1)) mac;
        there = learn_forward_finds s.routing_table r index mac f answerer (no_route unused);
        out = refl;
      },
    )
  where
    unused : Unusable r.src_addr f
    unused =
        All-get_elem? (Unusable r.src_addr) s.routing_table (find_route r.src_addr s.routing_table)
          turned.unusable answerer

    no_route : Unusable r.src_addr f → f.outgoing_if ≡ 0
    no_route (inl away) = absurd (away (find_route-addr r.src_addr s.routing_table answerer))
    no_route (inr z) = z
