-- ===== src/Odr/Network/Discovery/Nodes.antt =====
-- A node on the way passes the RREQ on, and has then a route to the source.
use cse.Base.{
  inl, ℕ, ◌+◌, ◌≡◌, ◌≢◌, refl, sym, ap, ◌∙◌, Bytes, List, map, some, true, false, ◌==◌, ltb, u32,
  ntohl, get_elem?, get_elem?-lt, get_elem?-set_self, length, set, All-set, All-get_elem?, same, ok,
  arith,
}
use cse.Odr.Types.{RoutingEntry, Rreq, Odr, vm_addr}
use cse.Odr.Routes.{find_route, learn_reverse}
use cse.Odr.Routes.Learn.{rerouted, map-set, find_route-map, find_route-addr}
use cse.Odr.Request.{on_rreq, by_role, as_relay, is_fresh, note_id, flood, one_more_hop}
use cse.Odr.Invariant.{addr_of}
use cse.Odr.Network.{Topology}
use cse.Odr.Network.Discovery.{Unusable, IsBlank, Blank, Turned}
use cse.Odr.Network.Discovery.Tables.{
  same_ne, find_route_total, improve_blank, find_usable_none, set-Unusable,
}

-- A table in which the entry of an address was written twice, and stayed that of the address.
module _ (table : List RoutingEntry) (n : ℕ) (src : Bytes) {e : RoutingEntry} (f g : RoutingEntry)
    (at_src : find_route src table ≡ n) (there : get_elem? table n ≡ some e)
    (kept : f.dst_addr ≡ e.dst_addr) (still : g.dst_addr ≡ f.dst_addr) where
  abbrev pub twice : List RoutingEntry
  twice = set (set table n f) n g

  pub set_there : get_elem? (set table n f) n ≡ some f
  set_there = get_elem?-set_self table n f (get_elem?-lt table n there)

  pub twice_addrs : map addr_of twice ≡ map addr_of table
  twice_addrs =
      map-set addr_of (set table n f) n g set_there still ∙ map-set addr_of table n f there kept

  pub twice_there : get_elem? twice (find_route src twice) ≡ some g
  twice_there =
      let place : find_route src twice ≡ n = find_route-map src twice table twice_addrs ∙ at_src in
      ap (get_elem? twice) place
      ∙ get_elem?-set_self (set table n f) n g (get_elem?-lt (set table n f) n set_there)

abbrev pub place : Odr → Rreq → ℕ
place s q = find_route q.src_addr s.routing_table

-- The entry of the source after the header, and the state with it.
abbrev pub back : RoutingEntry → Rreq → (k : ℕ) → Bytes → RoutingEntry
back e q k mac = rerouted e k (u32 (ntohl q.hop_cnt + 1)) mac

abbrev pub learnt : Odr → Rreq → RoutingEntry → Odr
learnt s q e = record s { routing_table = set s.routing_table (place s q) e }

module _ {t : Topology} {v : ℕ} {s : Odr} (b : Blank t v s) (q : Rreq) where
  pub entry_of :
      (known : ℕ)
      → get_elem? vm_addr known ≡ some q.src_addr
      → (e : RoutingEntry) × (get_elem? s.routing_table (place s q) ≡ some e) × IsBlank e
  entry_of known is_node =
      let (e, there) =
        find_route_total q.src_addr s.routing_table known
          (ap (λ l. get_elem? l known) b.addrs ∙ is_node) in
      (e, there, All-get_elem? IsBlank s.routing_table (place s q) b.blank there)

  module _ (k : ℕ) (mac : Bytes) {e : RoutingEntry}
      (there : get_elem? s.routing_table (place s q) ≡ some e) (is_blank : IsBlank e) where
    pub on_rreq-by_role :
        on_rreq s k mac q
        ≡ by_role (learnt s q (back e q k mac)) (place s q) (back e q k mac) true k mac q
    unfolding on_rreq learn_reverse
    on_rreq-by_role =
        let better =
          improve_blank s.routing_table (place s q) (ntohl q.discovery) (u32 (ntohl q.hop_cnt + 1))
            k mac e there is_blank.0 in
        rw
          (
            better,
            get_elem?-set_self s.routing_table (place s q) (back e q k mac)
                (get_elem?-lt s.routing_table (place s q) there),
          )
          refl

    pub is_fresh_back : ntohl q.broadcast_id ≡ 1 → is_fresh (back e q k mac) q true ≡ true
    unfolding is_fresh
    is_fresh_back first = simp (first, is_blank.1) refl

    pub noted-Turned :
        q.src_addr ≢ q.dst_addr
        → Turned t q.src_addr q.dst_addr v k
            (note_id (learnt s q (back e q k mac)) (place s q) (back e q k mac) q)
    unfolding note_id
    noted-Turned ne =
        let away : e.dst_addr ≢ q.dst_addr =
          λ h. ne (sym (find_route-addr q.src_addr s.routing_table there) ∙ h) in
        let noted : RoutingEntry = record (back e q k mac) {
          broadcast_id = ntohl q.broadcast_id;
        } in
        record {
          own = b.own;
          macs = b.macs;
          addrs =
              twice_addrs s.routing_table (place s q) q.src_addr (back e q k mac) noted refl there
                refl refl
              ∙ b.addrs;
          entry = noted;
          there =
              twice_there s.routing_table (place s q) q.src_addr (back e q k mac) noted refl there
                refl refl;
          back = refl;
          unusable =
              All-set (Unusable q.dst_addr) (set s.routing_table (place s q) (back e q k mac))
                (place s q) noted
                (set-Unusable q.dst_addr s.routing_table (place s q) (back e q k mac) b.blank away)
                (inl away);
        }

    -- Neither the source nor the destination: it passes the RREQ on over its other interfaces.
    pub passes_on :
        ntohl q.broadcast_id ≡ 1
        → q.src_addr ≢ q.dst_addr
        → q.dst_addr ≢ t.addr v
        → on_rreq s k mac q
          ≡ ok (
            note_id (learnt s q (back e q k mac)) (place s q) (back e q k mac) q,
            flood s.if_macs 0 k (one_more_hop q),
          )
    unfolding by_role as_relay
    passes_on first ne not_here =
        let table : List RoutingEntry = set s.routing_table (place s q) (back e q k mac) in
        let not_own : same q.dst_addr s.node_addr ≡ false =
          same_ne q.dst_addr s.node_addr (λ h. not_here (h ∙ b.own)) in
        let is_src : e.dst_addr ≡ q.src_addr = find_route-addr q.src_addr s.routing_table there in
        let none_usable = find_usable_none q.dst_addr (ntohl q.discovery == 1) table (
          set-Unusable q.dst_addr s.routing_table (place s q) (back e q k mac) b.blank
            (λ h. ne (sym is_src ∙ h))) in
        let not_less : ltb (length table) (length table) ≡ false = ground arith in
        on_rreq-by_role ∙ rw (not_own, none_usable, not_less, is_fresh_back first) refl
