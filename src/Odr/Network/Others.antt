-- ===== src/Odr/Network/Others.antt =====
-- What ODR.c does with an RREP, a payload and a local datagram keeps its routes true, and what it
-- sends and tells is true.
use cse.Base.{
  ℕ, ◌+◌, ◌-◌, ◌≡◌, inl, inr, refl, sym, subst, ◌∙◌, Bytes, [], ◌∷◌, true, u32, ntohl, htonl,
  ntohl-htonl, All, same, same→eq, ok, ◌>>=◌, ◌‼◌, Sound, Sound-ok, Sound-if, Sound-bind,
}
use cse.Odr.Types.{
  RoutingEntry, Payload, Rrep, rreq, rrep, payload, Body, send_frame, send_local, Odr, proto_bits,
}
use cse.Odr.Routes.{find_route, improve, learn_forward, if_mac}
use cse.Odr.Ports.{find_port}
use cse.Odr.Reply.{reply_text, tell_client, relay_rrep, on_rrep}
use cse.Odr.Data.{load_text, deliver, relay_payload, on_payload, on_body}
use cse.Odr.Network.{Topology, Joined}
use cse.Odr.Network.Truth.{
  Has, Far, RouteTrue, BodyTrue, NodeTrue, ResultTrue, next-Far, improve-RouteTrue,
}
use cse.Odr.Network.Parts.{u32_lt, own_frame}
use cse.Odr.Network.Requests.{on_rreq-True}

module _ (t : Topology) (Origin : Payload → Type 0) (u : ℕ) where
  pub same_routes :
      {s s' : Odr}
      → NodeTrue t u s
      → s'.node_addr ≡ s.node_addr
      → s'.if_macs ≡ s.if_macs
      → s'.routing_table ≡ s.routing_table
      → NodeTrue t u s'
  same_routes n a m r = record {
    own = a ∙ n.own;
    macs = m ∙ n.macs;
    routes = subst (All (RouteTrue t u)) (sym r) n.routes;
  }

  tell_client-True :
      {s : Odr} (r : Rrep) → NodeTrue t u s → Sound (ResultTrue t Origin u) (tell_client s r)
  unfolding tell_client
  tell_client-True {s} r n =
      Sound-bind (find_port (ntohl r.dst_port) s.port_table (s.port_cnt + 1) s.local_path) _
        (λ path _.
          Sound-ok (record s { local_path = path }, send_local path (reply_text r) ∷ [])
            (same_routes n refl refl refl, (inl (r, refl), tt)))

  deliver-True :
      {s : Odr} (l : Payload)
      → NodeTrue t u s
      → Origin l
      → same l.dst_addr s.node_addr ≡ true
      → Sound (ResultTrue t Origin u) (deliver s l)
  unfolding deliver
  deliver-True {s} l n origin h =
      Sound-bind (find_port (ntohl l.dst_port) s.port_table (s.port_cnt + 1) s.local_path) _
        (λ path _.
          Sound-ok (record s { local_path = path }, send_local path (load_text l) ∷ [])
            (
              same_routes n refl refl refl,
              (inr (l, refl, same→eq l.dst_addr s.node_addr h ∙ n.own, origin), tt),
            ))

  -- A frame on the way that a route shows.
  forwarded-True :
      {s : Odr} (e : RoutingEntry) (b : Body)
      → NodeTrue t u s
      → BodyTrue t Origin u b
      → Sound (ResultTrue t Origin u) (
          if_mac s.if_macs e.outgoing_if >>= λ own. ok (
            s,
            send_frame
                  (e.outgoing_if - 3)
                  e.outgoing_if
                  e.next_hop
                  (record { dst_mac = e.next_hop; src_mac = own; proto = proto_bits; body = b })
                ∷ [],
          ))
  forwarded-True {s} e b n true_b = Sound-bind (if_mac s.if_macs e.outgoing_if) _ (λ own h.
      Sound-ok _ (
        n,
        own_frame t Origin u e.outgoing_if (e.outgoing_if - 3) e.outgoing_if own e.next_hop
            e.next_hop proto_bits b n h true_b,
      ))

  on_payload-True :
      {s : Odr} (l : Payload)
      → NodeTrue t u s
      → Origin l
      → Sound (ResultTrue t Origin u) (on_payload s l)
  unfolding on_payload relay_payload
  on_payload-True {s} l n origin =
      Sound-if (same l.dst_addr s.node_addr) _ _ (deliver-True l n origin) (λ _.
        Sound-bind (s.routing_table ‼ find_route l.dst_addr s.routing_table) _
          (λ e _. forwarded-True e (payload l) n origin))

  relay_rrep-True :
      {s : Odr} (r : Rrep)
      → NodeTrue t u s
      → Far t u r.src_addr (u32 (ntohl r.hop_cnt + 1))
      → Sound (ResultTrue t Origin u) (relay_rrep s r)
  unfolding relay_rrep
  relay_rrep-True {s} r n far =
      let hops : ℕ = u32 (ntohl r.hop_cnt + 1) in
      let e : ntohl (htonl hops) ≡ hops = ntohl-htonl hops (u32_lt (ntohl r.hop_cnt + 1)) in
      let counted : Far t u r.src_addr (ntohl (htonl hops)) = rw e far in
      Sound-bind (s.routing_table ‼ find_route r.dst_addr s.routing_table) _
        (λ e _. forwarded-True e (rrep (record r { hop_cnt = htonl hops })) n counted)

  module _ {x k : ℕ} (index : ℕ) (mac : Bytes) (joined : Joined t u index x k)
      (has : Has (t.macs x) mac) where
    on_rrep-True :
        {s : Odr} (r : Rrep)
        → NodeTrue t u s
        → BodyTrue t Origin x (rrep r)
        → Sound (ResultTrue t Origin u) (on_rrep s index mac r)
    unfolding on_rrep learn_forward
    on_rrep-True {s} r n true_r =
        let learnt =
          (improve s.routing_table (find_route r.src_addr s.routing_table) (ntohl r.discovery)
            (u32 (ntohl r.hop_cnt + 1)) index mac).0 in
        let after : NodeTrue t u (record s { routing_table = learnt }) = record {
          own = n.own;
          macs = n.macs;
          routes =
              improve-RouteTrue t u index s.routing_table (ntohl r.discovery) n.routes joined has
                true_r;
        } in
        Sound-if (same r.dst_addr s.node_addr) _ _ (λ _. tell_client-True r after)
          (λ _. relay_rrep-True r after (next-Far joined true_r))

    pub on_body-True :
        {s : Odr} (b : Body)
        → NodeTrue t u s
        → BodyTrue t Origin x b
        → Sound (ResultTrue t Origin u) (on_body s index mac b)
    unfolding on_body
    on_body-True (rreq q) n true_b = on_rreq-True t Origin u index mac joined has q n true_b
    on_body-True (rrep r) n true_b = on_rrep-True r n true_b
    on_body-True (payload l) n true_b = on_payload-True l n true_b
