-- ===== src/Odr/Duplicate.antt =====
-- An RREQ that comes again by the same way.
use cse.Base.{
  ℕ, ◌+◌, ◌≡◌, ◌≢◌, refl, sym, ap, ◌∙◌, inl, inr, Bytes, List, [], some, Bool, false, ltb, ◌==◌,
  length, set, get_elem?, same, u32, ntohl, ok, ◌‼◌, arith, Bool-cases, get_elem?_total,
  get_elem?-set_self, get_elem?-lt, set_same, Sound, sound_rules, at-eq-ok, ltb→lt, >>=-eq-ok,
}
use cse.Odr.Types.{RoutingEntry, Rreq, Rrep, Action, Odr}
use cse.Odr.Routes.{find_route, find_usable, is_better, improve, learn_reverse}
use cse.Odr.Routes.Learn.{
  rerouted, map-set, improve_cases, improve_better, improve_kept, improve-addrs, find_route-map,
}
use cse.Odr.Request.{
  is_fresh, answer, own_reply, known_reply, note_id, as_destination, as_informed, as_relay, by_role,
  on_rreq,
}

rerouted_settled :
    (old : RoutingEntry) (d h i : ℕ) (mac : Bytes)
    → d ≢ 1
    → is_better (rerouted old i h mac) d h i ≡ false
unfolding is_better
rerouted_settled old d h i mac nd = ground arith

rerouted_unique :
    (old e : RoutingEntry) (i h : ℕ) (mac : Bytes)
    → some (rerouted old i h mac) ≡ some e
    → rerouted old i h mac ≡ e
rerouted_unique old e i h mac eq = cc

-- After the update by a header, the same header is no better.
settled :
    (table : List RoutingEntry) (number d h i : ℕ) (mac : Bytes) (e : RoutingEntry)
    → d ≢ 1
    → get_elem? (improve table number d h i mac).0 number ≡ some e
    → is_better e d h i ≡ false
settled table number d h i mac e nd p = elim (improve_cases table number d h i mac) [
  | inl q ↦ elim (Bool-cases (is_better e d h i)) [
    | inl b ↦
        let at_table : get_elem? table number ≡ some e = rw q at p in
        absurd (ground (arith, improve_better table number d h i mac e at_table b, q))
    | inr b ↦ b
  ]
  | inr (old, g, b, q) ↦
      let wrote : get_elem? (set table number (rerouted old i h mac)) number ≡ some e = rw q at p in
      let here =
        get_elem?-set_self table number (rerouted old i h mac) (get_elem?-lt table number g) in
      rw (← rerouted_unique old e i h mac (cc)) (rerouted_settled old d h i mac nd)
]

-- The entry with the id of the RREQ noted.
abbrev pub noted : RoutingEntry → Rreq → RoutingEntry
noted e q = record e { broadcast_id = ntohl q.broadcast_id }

-- Every role notes the id, and changes nothing else.
by_role-state :
    (s : Odr) (number : ℕ) (e : RoutingEntry) (b : Bool) (index : ℕ) (mac : Bytes) (q : Rreq)
    → Sound (λ r. r.0 ≡ note_id s number e q) (by_role s number e b index mac q)
unfolding by_role as_destination as_informed as_relay
by_role-state s number e b index mac q = search sound_rules depth 9

-- What `on_rreq` leaves: the learnt table with the id noted at the source's entry.
pub on_rreq-state :
    (s : Odr) (index : ℕ) (mac : Bytes) (q : Rreq) {r : Odr × List Action}
    → on_rreq s index mac q ≡ ok r
    → (e : RoutingEntry) × (get_elem?
          (learn_reverse s.routing_table q index mac).0
          (find_route q.src_addr s.routing_table)
        ≡ some e)
      × (r.0
          ≡ note_id
              (record s { routing_table = (learn_reverse s.routing_table q index mac).0 })
              (find_route q.src_addr s.routing_table)
              e
              q)
unfolding on_rreq
on_rreq-state s index mac q {r} h =
    let table = (learn_reverse s.routing_table q index mac).0 in
    let number = find_route q.src_addr s.routing_table in
    let t = record s { routing_table = table } in
    let b = (learn_reverse s.routing_table q index mac).1 in
    let (e, found, rest) = >>=-eq-ok (table ‼ number) (λ e. by_role t number e b index mac q) h in
    (e, at-eq-ok table number found, (by_role-state t number e b index mac q).at r rest)

stale : (e : RoutingEntry) (q : Rreq) → is_fresh (noted e q) q false ≡ false
unfolding is_fresh
stale e q = ground arith

note_again :
    (s : Odr) (number : ℕ) (e : RoutingEntry) (q : Rreq)
    → get_elem? s.routing_table number ≡ some (noted e q)
    → note_id s number (noted e q) q ≡ s
unfolding note_id
note_again s number e q p = rw (set_same s.routing_table number p)

answer-stale :
    (s : Odr) (e : RoutingEntry) (index : ℕ) (mac : Bytes) (q : Rreq) (r : Rrep)
    → answer s (noted e q) false index mac q r ≡ ok []
unfolding answer
answer-stale s e index mac q r = ground (arith, stale e q)

module _ (s : Odr) (number : ℕ) (e : RoutingEntry) (index : ℕ) (mac : Bytes) (q : Rreq)
    (p : get_elem? s.routing_table number ≡ some (noted e q)) where
  as_destination-stale : as_destination s number (noted e q) false index mac q ≡ ok (s, [])
  unfolding as_destination
  as_destination-stale = rw (answer-stale s e index mac q (own_reply q), note_again s number e q p)

  as_informed-stale :
      (known : RoutingEntry) → as_informed s number (noted e q) known false index mac q ≡ ok (s, [])
  unfolding as_informed
  as_informed-stale known =
      rw (answer-stale s e index mac q (known_reply q known.hop_cnt), note_again s number e q p)

  as_relay-stale : as_relay s number (noted e q) false index q ≡ (s, [])
  unfolding as_relay
  as_relay-stale = rw (stale e q, note_again s number e q p)

  -- A stale RREQ that gives no better route is dropped, in every role.
  by_role-stale : by_role s number (noted e q) false index mac q ≡ ok (s, [])
  unfolding by_role
  by_role-stale = elim (Bool-cases (same q.dst_addr s.node_addr)) [
    | inl here ↦ rw here as_destination-stale
    | inr away ↦ elim (Bool-cases (ltb count (length s.routing_table))) [
      | inl usable ↦
          let (known, found) = get_elem?_total s.routing_table count (ltb→lt _ _ usable) in
          rw (away, usable, found) (as_informed-stale known)
      | inr none_usable ↦ rw (away, none_usable) (ap ok as_relay-stale)
    ]
  ]
    where
      count : ℕ
      count = find_usable q.dst_addr (ntohl q.discovery == 1) s.routing_table

  -- So is one whose header the entry of its source has taken in.
  on_rreq-settled :
      number ≡ find_route q.src_addr s.routing_table
      → is_better (noted e q) (ntohl q.discovery) (u32 (ntohl q.hop_cnt + 1)) index ≡ false
      → on_rreq s index mac q ≡ ok (s, [])
  unfolding on_rreq learn_reverse
  on_rreq-settled at b =
      rw
        (
          ← at,
          improve_kept s.routing_table number (ntohl q.discovery) (u32 (ntohl q.hop_cnt + 1)) index
              mac (noted e q) p b,
          p,
        )
        by_role-stale

-- An RREQ that came once, with no forced discovery, and comes again over the same interface from
-- the same neighbour changes nothing and causes no frame: no second reply, and no second flood.
pub on_rreq-again :
    (s : Odr) (index : ℕ) (mac : Bytes) (q : Rreq) {t : Odr} {acts : List Action}
    → ntohl q.discovery ≢ 1
    → on_rreq s index mac q ≡ ok (t, acts)
    → on_rreq t index mac q ≡ ok (t, [])
unfolding note_id learn_reverse is_better
on_rreq-again s index mac q {t} nd h =
    let (e, p, st) = on_rreq-state s index mac q h in
    let number = find_route q.src_addr s.routing_table in
    let table = (learn_reverse s.routing_table q index mac).0 in
    let better =
      settled s.routing_table number (ntohl q.discovery) (u32 (ntohl q.hop_cnt + 1)) index mac e nd
        p in
    let same_addrs =
      map-set (λ e. e.dst_addr) table number (noted e q) p refl
      ∙ improve-addrs s.routing_table number (ntohl q.discovery) (u32 (ntohl q.hop_cnt + 1)) index
          mac in
    rw st (
      on_rreq-settled (note_id (record s { routing_table = table }) number e q) number e index mac q
        (get_elem?-set_self table number (noted e q) (get_elem?-lt table number p))
        (sym (find_route-map q.src_addr _ _ same_addrs)) better)
