-- ===== src/Odr/Network/Parts.antt =====
-- The pieces of the handlers of ODR.c: what they send is true, and what they write keeps the routes true.
use cse.Base.{
  ℕ, suc, ◌+◌, ◌-◌, ◌<◌, ◌^◌, ◌≡◌, ◌≢◌, inl, inr, refl, subst, ◌∙◌, Bytes, List, [], ◌∷◌, some,
  Bool, true, not, ◌&&◌, ◌==◌, ltb, u32, ntohl, htonl, ntohl-htonl, get_elem?, All, All-set,
  All-get_elem?, same, same→eq, ok, ◌‼◌, at-eq-ok, Sound, sound_rules, Bool-cases, arith,
}
use cse.Odr.Types.{RoutingEntry, Payload, Rreq, Rrep, rreq, rrep, Body, send_frame, Odr}
use cse.Odr.Routes.{find_usable, if_mac}
use cse.Odr.Request.{answer, own_reply, known_reply, flood, one_more_hop, note_id}
use cse.Odr.Network.{Topology, Joined, hop}
use cse.Odr.Network.Truth.{
  Has, Far, Via, RouteTrue, BodyTrue, ActTrue, NodeTrue, here-Far, next-Far,
}

pub find_usable_found :
    (addr : Bytes) (forced : Bool) (table : List RoutingEntry) {e : RoutingEntry}
    → get_elem? table (find_usable addr forced table) ≡ some e
    → (e.dst_addr ≡ addr) × (e.outgoing_if ≢ 0)
unfolding find_usable
find_usable_found addr forced [] h = absurd (cc)
find_usable_found addr forced (x ∷ xs) {e} h =
    elim (Bool-cases (same x.dst_addr addr && (not (x.outgoing_if == 0) && not forced))) [
      | inl p ↦
          let here : some x ≡ some e = rw p at h in
          let is_e : x ≡ e = cc in
          let both : (same x.dst_addr addr ≡ true) × (x.outgoing_if ≢ 0) =
            (ground arith, λ z. absurd (ground arith)) in
          rw (← is_e) (same→eq x.dst_addr addr both.0, both.1)
      | inr p ↦ find_usable_found addr forced xs (rw p at h)
    ]

pub if_mac-Has : (macs : List Bytes) (o : ℕ) {own : Bytes} → if_mac macs o ≡ ok own → Has macs own
unfolding if_mac
if_mac-Has macs o {own} h = elim (Bool-cases (ltb o 3)) [
  | inl p ↦ absurd (cc (rw p at h))
  | inr p ↦ let e : (macs ‼ (o - 3)) ≡ ok own = rw p at h in (o - 3, at-eq-ok macs (o - 3) e)
]

pub u32_lt : (n : ℕ) → u32 n < 2 ^ 32
u32_lt n = omega arith

module _ (t : Topology) (Origin : Payload → Type 0) (u : ℕ) where
  pub Via-Far : (e : RoutingEntry) → Via t u e → Far t u e.dst_addr e.hop_cnt
  Via-Far e via = record {
    length_of = suc via.rest;
    walk = hop via.index via.there via.joined via.walk;
    counted = omega (arith, via.hops);
  }

  -- An entry with an interface is a route.
  pub linked-Via :
      {s : Odr} (number : ℕ) {e : RoutingEntry}
      → NodeTrue t u s
      → get_elem? s.routing_table number ≡ some e
      → e.outgoing_if ≢ 0
      → Via t u e
  linked-Via {s} number {e} n found linked =
      go (All-get_elem? (RouteTrue t u) s.routing_table number n.routes found)
    where
      go : RouteTrue t u e → Via t u e
      go (inl z) = absurd (linked z)
      go (inr v) = v

  pub note_id-True :
      {s : Odr} (number : ℕ) (e : RoutingEntry) (q : Rreq)
      → NodeTrue t u s
      → get_elem? s.routing_table number ≡ some e
      → NodeTrue t u (note_id s number e q)
  unfolding note_id
  note_id-True {s} number e q n found = record {
    own = n.own;
    macs = n.macs;
    routes =
        All-set (RouteTrue t u) s.routing_table number
          (record e { broadcast_id = ntohl q.broadcast_id }) n.routes
          (go (All-get_elem? (RouteTrue t u) s.routing_table number n.routes found));
  }
    where
      go : RouteTrue t u e → RouteTrue t u (record e { broadcast_id = ntohl q.broadcast_id })
      go (inl z) = inl z
      go (inr v) = inr (record {
        index = v.index;
        node = v.node;
        there = v.there;
        rest = v.rest;
        out = v.out;
        joined = v.joined;
        mac = v.mac;
        walk = v.walk;
        hops = v.hops;
      })

  pub flood-True :
      (macs : List Bytes) (count skip : ℕ) (q : Rreq)
      → ((mac : Bytes) → Has macs mac → Has (t.macs u) mac)
      → BodyTrue t Origin u (rreq q)
      → All (ActTrue t Origin u) (flood macs count skip q)
  unfolding flood
  flood-True [] count skip q own true_q = tt
  flood-True (mac ∷ macs) count skip q own true_q =
      let rest = flood-True macs (count + 1) skip q (λ m h. own m (suc h.0, h.1)) true_q in
      elim (Bool-cases (count == skip)) [
        | inl p ↦ rw p rest
        | inr p ↦ rw p ((own mac (0, refl), true_q), rest)
      ]

  -- A frame with the hardware address of an interface of this node.
  pub own_frame :
      {s : Odr} (o socket ifindex : ℕ) (own mac dst : Bytes) (proto : ℕ) (b : Body)
      → NodeTrue t u s
      → if_mac s.if_macs o ≡ ok own
      → BodyTrue t Origin u b
      → All (ActTrue t Origin u) (
          send_frame socket ifindex mac
            (record { dst_mac = dst; src_mac = own; proto = proto; body = b })
          ∷ [])
  own_frame {s} o socket ifindex own mac dst proto b n h true_b =
      ((subst (λ macs. Has macs own) n.macs (if_mac-Has s.if_macs o h), true_b), tt)

  pub nothing_sent : All (ActTrue t Origin u) []
  nothing_sent = tt

  pub answer-True :
      {s : Odr} (e : RoutingEntry) (efficient : Bool) (index : ℕ) (mac : Bytes) (q : Rreq)
      (r : Rrep)
      → NodeTrue t u s
      → BodyTrue t Origin u (rrep r)
      → Sound (All (ActTrue t Origin u)) (answer s e efficient index mac q r)
  unfolding answer
  answer-True e efficient index mac q r n true_r =
      search (sound_rules, own_frame, nothing_sent) depth 9

  -- The RREQ counts one hop more where it goes on.
  pub one_more_hop-True :
      {x k index : ℕ} (q : Rreq)
      → Joined t u index x k
      → BodyTrue t Origin x (rreq q)
      → BodyTrue t Origin u (rreq (one_more_hop q))
  unfolding one_more_hop
  one_more_hop-True q joined far =
      let e : ntohl (htonl (u32 (ntohl q.hop_cnt + 1))) ≡ u32 (ntohl q.hop_cnt + 1) =
        ntohl-htonl (u32 (ntohl q.hop_cnt + 1)) (u32_lt (ntohl q.hop_cnt + 1)) in
      rw e (next-Far joined far)

  pub own_reply-True :
      {s : Odr} (q : Rreq)
      → NodeTrue t u s
      → same q.dst_addr s.node_addr ≡ true
      → BodyTrue t Origin u (rrep (own_reply q))
  unfolding own_reply
  own_reply-True {s} q n h =
      let e : ntohl (htonl 0) ≡ 0 = ntohl-htonl 0 (omega arith) in
      rw e (here-Far (same→eq q.dst_addr s.node_addr h ∙ n.own))

  pub known_reply-True :
      {s : Odr} (q : Rreq) (known : RoutingEntry) (forced : Bool)
      → NodeTrue t u s
      → get_elem? s.routing_table (find_usable q.dst_addr forced s.routing_table) ≡ some known
      → BodyTrue t Origin u (rrep (known_reply q known.hop_cnt))
  unfolding known_reply
  known_reply-True {s} q known forced n found =
      let (same_addr, linked) = find_usable_found q.dst_addr forced s.routing_table found in
      let via = linked-Via (find_usable q.dst_addr forced s.routing_table) n found linked in
      let low : known.hop_cnt < 2 ^ 32 = omega (arith, via.hops) in
      let e : ntohl (htonl known.hop_cnt) ≡ known.hop_cnt = ntohl-htonl known.hop_cnt low in
      rw e (subst (λ a. Far t u a known.hop_cnt) same_addr (Via-Far known via))
