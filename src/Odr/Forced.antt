-- ===== src/Odr/Forced.antt =====
-- An RREQ with a forced discovery, which every entry of the routing table takes for a better route.
use cse.Base.{
  ℕ, ◌+◌, ◌≡◌, refl, sym, ◌∙◌, Bytes, List, [], ◌∷◌, some, true, false, length, set, get_elem?,
  same, u32, ntohl, ok, arith, ltb_self, get_elem?-set_self, get_elem?-lt,
}
use cse.Odr.Types.{RoutingEntry, Rreq, Action, Odr}
use cse.Odr.Routes.{find_route, find_usable, is_better, learn_reverse}
use cse.Odr.Routes.Learn.{rerouted, map-set, improve_better, improve-addrs, find_route-map}
use cse.Odr.Request.{is_fresh, flood, one_more_hop, note_id, as_relay, by_role, on_rreq}
use cse.Odr.Duplicate.{noted, on_rreq-state}

find_usable_forced :
    (addr : Bytes) (table : List RoutingEntry) → find_usable addr true table ≡ length table
unfolding find_usable
find_usable_forced addr [] = refl
find_usable_forced addr (e ∷ es) = ground (arith, find_usable_forced addr es)

is_fresh_again :
    (e : RoutingEntry) (q : Rreq) → e.broadcast_id ≡ ntohl q.broadcast_id → is_fresh e q true ≡ true
unfolding is_fresh
is_fresh_again e q h = ground arith

module _ (q : Rreq) (forced : ntohl q.discovery ≡ 1) where
  forced_by_role :
      (s : Odr) (number : ℕ) (e : RoutingEntry) (index : ℕ) (mac : Bytes)
      → same q.dst_addr s.node_addr ≡ false
      → e.broadcast_id ≡ ntohl q.broadcast_id
      → by_role s number e true index mac q
        ≡ ok (note_id s number e q, flood s.if_macs 0 index (one_more_hop q))
  unfolding by_role as_relay
  forced_by_role s number e index mac away same_id = rw (
    away,
    forced,
    find_usable_forced q.dst_addr s.routing_table,
    ltb_self (length s.routing_table),
    is_fresh_again e q same_id,
  )

  forced_settled :
      (s : Odr) (number : ℕ) (e : RoutingEntry) (index : ℕ) (mac : Bytes)
      → same q.dst_addr s.node_addr ≡ false
      → get_elem? s.routing_table number ≡ some (noted e q)
      → number ≡ find_route q.src_addr s.routing_table
      → (u : Odr) × (on_rreq s index mac q ≡ ok (u, flood s.if_macs 0 index (one_more_hop q)))
  unfolding on_rreq learn_reverse is_better
  forced_settled s number e index mac away p at =
      let e' = rerouted (noted e q) index (u32 (ntohl q.hop_cnt + 1)) mac in
      let table = set s.routing_table number e' in
      (
        note_id (record s { routing_table = table }) number e' q,
        rw
            (
              ← at,
              improve_better s.routing_table number (ntohl q.discovery) (u32 (ntohl q.hop_cnt + 1))
                  index mac (noted e q) p (forced_better (noted e q) index),
              get_elem?-set_self s.routing_table number e' (get_elem?-lt s.routing_table number p),
            )
            (forced_by_role (record s { routing_table = table }) number e' index mac away refl),
      )
    where
      forced_better :
          (old : RoutingEntry) (i : ℕ)
          → is_better old (ntohl q.discovery) (u32 (ntohl q.hop_cnt + 1)) i ≡ true
      forced_better old i = rw (forced, is_better)

-- A node that is not the destination floods an RREQ with a forced discovery each time that it
-- receives it again: with whatever hop count, over whatever interface, from whatever neighbour.
forced_floods_again :
    (s : Odr) (index : ℕ) (mac : Bytes) (q : Rreq) {t : Odr} {acts : List Action}
    → ntohl q.discovery ≡ 1
    → same q.dst_addr s.node_addr ≡ false
    → on_rreq s index mac q ≡ ok (t, acts)
    → (index' hops' : ℕ) (mac' : Bytes)
    → let q' = record q { hop_cnt = hops' } in
      (u : Odr) × (on_rreq t index' mac' q' ≡ ok (u, flood s.if_macs 0 index' (one_more_hop q')))
unfolding note_id learn_reverse
forced_floods_again s index mac q {t} forced away h index' hops' mac' =
    let (e, p, st) = on_rreq-state s index mac q h in
    let number = find_route q.src_addr s.routing_table in
    let table = (learn_reverse s.routing_table q index mac).0 in
    let same_addrs =
      map-set (λ e. e.dst_addr) table number (noted e q) p refl
      ∙ improve-addrs s.routing_table number (ntohl q.discovery) (u32 (ntohl q.hop_cnt + 1)) index
          mac in
    rw st (
      forced_settled (record q { hop_cnt = hops' }) forced
        (note_id (record s { routing_table = table }) number e q) number e index' mac' away
        (get_elem?-set_self table number (noted e q) (get_elem?-lt table number p))
        (sym (find_route-map q.src_addr _ _ same_addrs)))
