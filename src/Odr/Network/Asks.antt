-- ===== src/Odr/Network/Asks.antt =====
-- What ODR.c does with a datagram of a local process keeps its routes true, and what it sends is true.
use cse.Base.{
  ◌&&◌, ℕ, suc, ◌+◌, ◌-◌, ◌≡◌, inl, inr, refl, subst, Bytes, List, [], ◌∷◌, ◌==◌, ltb, ntohl, htonl,
  ntohl-htonl, get_elem?, All, ok, ◌‼◌, Sound, Sound-ok, Sound-if, Sound-bind, Sound-fault, length,
  Bool-cases, arith,
}
use cse.Odr.Types.{RoutingEntry, Payload, Rreq, rreq, payload, Odr, LocalMsg, proto_bits}
use cse.Odr.Routes.{find_route, if_mac}
use cse.Odr.Ports.{find_path}
use cse.Odr.Local.{
  copy_into, send_payload, server_reply, flood_all, register, route_exists, first_rreq,
  send_request, discover, client_request, on_local,
}
use cse.Odr.Network.{Topology}
use cse.Odr.Network.Truth.{Has, Far, BodyTrue, ActTrue, NodeTrue, ResultTrue, here-Far}
use cse.Odr.Network.Parts.{own_frame}
use cse.Odr.Network.Others.{same_routes}

copy_into_same :
    (size : ℕ) (text : Bytes) {copy : Bytes} → copy_into size text ≡ ok copy → copy ≡ text
copy_into_same size text h = elim (Bool-cases (ltb (length text) size)) [
  | inl p ↦ cc (rw p at h)
  | inr p ↦ absurd (cc (rw p at h))
]

-- A payload with the address of its node, and the destination and the message that a datagram names.
abbrev pub IsFrom : Bytes → LocalMsg → Payload → Type 0
IsFrom own m l = (l.src_addr ≡ own) × (l.dst_addr ≡ m.dst_addr) × (l.message ≡ m.message)

module _ (t : Topology) (Origin : Payload → Type 0) (u : ℕ) (m : LocalMsg)
    (origin : (l : Payload) → IsFrom (t.addr u) m l → Origin l) where
  send_payload-True :
      {s : Odr} (e : RoutingEntry) (src_port dst_port : ℕ)
      → NodeTrue t u s
      → Sound (All (ActTrue t Origin u)) (send_payload s e src_port dst_port m.dst_addr m.message)
  unfolding send_payload
  send_payload-True {s} e src_port dst_port n =
      Sound-bind (if_mac s.if_macs e.outgoing_if) _ (λ own h.
        Sound-bind (copy_into 25 m.message) _ (λ text copied. Sound-ok _ (
          own_frame t Origin u e.outgoing_if (e.outgoing_if - 3) e.outgoing_if own e.next_hop
            e.next_hop proto_bits
            (payload (record {
              src_addr = s.node_addr;
              dst_addr = m.dst_addr;
              src_port = htonl src_port;
              dst_port = htonl dst_port;
              hop_cnt = htonl 0;
              len = htonl 4096;
              message = text;
            }))
            n h (origin _ (n.own, refl, copy_into_same 25 m.message copied)))))

  server_reply-True : {s : Odr} → NodeTrue t u s → Sound (ResultTrue t Origin u) (server_reply s m)
  unfolding server_reply
  server_reply-True {s} n =
      Sound-bind (s.routing_table ‼ find_route m.dst_addr s.routing_table) _ (λ e _.
        Sound-bind (send_payload s e 5000 m.dst_port m.dst_addr m.message) _
          (λ acts h. Sound-ok (s, acts) (n, (send_payload-True e 5000 m.dst_port n).at acts h)))

  send_request-True :
      {s : Odr} (index : ℕ)
      → NodeTrue t u s
      → Sound (ResultTrue t Origin u) (send_request s m index)
  unfolding send_request
  send_request-True {s} index n =
      Sound-bind (s.routing_table ‼ find_route m.dst_addr s.routing_table) _ (λ e _.
        Sound-bind (s.port_table ‼ index) _ (λ p _.
          Sound-bind (send_payload s e p.port 5000 m.dst_addr m.message) _
            (λ acts h. Sound-ok (s, acts) (n, (send_payload-True e p.port 5000 n).at acts h))))

  flood_all-True :
      (macs : List Bytes) (count : ℕ) (q : Rreq)
      → ((mac : Bytes) → Has macs mac → Has (t.macs u) mac)
      → BodyTrue t Origin u (rreq q)
      → All (ActTrue t Origin u) (flood_all macs count q)
  unfolding flood_all
  flood_all-True [] count q own true_q = tt
  flood_all-True (mac ∷ macs) count q own true_q = (
    (own mac (0, refl), true_q),
    flood_all-True macs (count + 1) q (λ m h. own m (suc h.0, h.1)) true_q,
  )

  discover-True :
      {s : Odr} (index : ℕ) → NodeTrue t u s → Sound (ResultTrue t Origin u) (discover s m index)
  unfolding discover first_rreq
  discover-True {s} index n =
      let zero_hops : ntohl (htonl 0) ≡ 0 = ntohl-htonl 0 (omega arith) in
      let here : Far t u s.node_addr (ntohl (htonl 0)) = rw zero_hops (here-Far n.own) in
      Sound-bind (s.port_table ‼ index) _ (λ p _. Sound-ok _ (
        same_routes t Origin u n refl refl refl,
        flood_all-True s.if_macs 0 _ (λ mac h. subst (λ macs. Has macs mac) n.macs h) here,
      ))

  register-True :
      {s : Odr} (index : ℕ) (path : Bytes)
      → NodeTrue t u s
      → Sound (NodeTrue t u) (register s index path)
  unfolding register
  register-True {s} index path n =
      Sound-if (index == s.port_cnt + 1) _ _
        (λ _.
          Sound-if (ltb (length path) 15 && ltb index (length s.port_table)) _ _
            (λ _. Sound-ok _ (same_routes t Origin u n refl refl refl)) (λ _. Sound-fault))
        (λ _. Sound-ok s n)

  client_request-True :
      {s : Odr} (index : ℕ)
      → NodeTrue t u s
      → Sound (ResultTrue t Origin u) (client_request s m index)
  unfolding client_request
  client_request-True {s} index n = Sound-bind (register s index m.sun_path) _ (λ s' h.
      let n' = (register-True index m.sun_path n).at s' h in
      Sound-if
        (route_exists (get_elem? s'.routing_table (find_route m.dst_addr s'.routing_table)) m.flag)
        _ _ (λ _. send_request-True index n') (λ _. discover-True index n'))

  pub on_local-True : {s : Odr} → NodeTrue t u s → Sound (ResultTrue t Origin u) (on_local s m)
  unfolding on_local
  on_local-True {s} n =
      let n' : NodeTrue t u (record s { local_path = m.sun_path }) =
        same_routes t Origin u n refl refl refl in
      Sound-bind (copy_into 15 m.dst_addr) _ (λ addr _.
        Sound-bind (find_path m.sun_path s.port_table (s.port_cnt + 1)) _ (λ index _.
          Sound-if (index == 0) _ _ (λ _. server_reply-True n')
            (λ _. client_request-True index n')))
