-- ===== src/Odr/Delivery.antt =====
-- Where ODR.c takes a reply or a payload: to a local process by its port, or to the next node.
use cse.Base.{
  ℕ, zero, suc, ◌+◌, ◌-◌, ◌^◌, ◌≤◌, ◌<◌, ◌≡◌, ◌≢◌, refl, ◌↔◌, inl, inr, Bytes, List, [], ◌∷◌, some,
  false, ltb, ◌==◌, length, take, get_elem?, All, htonl, htonl-lt, ntohl, ntohl-htonl, ok, fault,
  arith, Option-cases, Bool-cases, All-get_elem?, get_elem?_total, ==_iff,
}
use cse.Odr.Types.{RoutingEntry, PortEntry, Rrep, Payload, send_local, Odr, LocalMsg}
use cse.Odr.Routes.{find_route, if_mac}
use cse.Odr.Ports.{find_port}
use cse.Odr.Local.{first_rreq}
use cse.Odr.Request.{own_reply, known_reply}
use cse.Odr.Reply.{tell_client, reply_text}
use cse.Odr.Data.{relay_payload}
use cse.Odr.Invariant.{IsValid, RouteOk}

-- The bytes of a port number the other way round are no port number.
htonl-port : (p : ℕ) → 0 < p → p < 2 ^ 16 → 2 ^ 16 ≤ htonl p
unfolding htonl
htonl-port p h k = omega arith

-- A search for a port that no entry in use has leaves the path as it is.
find_port_none :
    (port : ℕ) (t : List PortEntry) (n : ℕ) (path : Bytes)
    → n ≤ length t
    → All (λ e. e.port < port) (take n t)
    → find_port port t n path ≡ ok path
unfolding find_port
find_port_none port t zero path h a = refl
find_port_none port [] (suc n) path h a = absurd (omega arith)
find_port_none port (e ∷ es) (suc n) path h a =
    ground (arith, find_port_none port es n path (omega arith) a.1)

All-weaken :
    (bound port : ℕ) (t : List PortEntry)
    → bound ≤ port
    → All (λ e. e.port < bound) t
    → All (λ e. e.port < port) t
All-weaken bound port [] h a = tt
All-weaken bound port (e ∷ es) h a = (omega arith, All-weaken bound port es h a.1)

-- A port number that comes with its bytes swapped is in no entry.
pub finds_no_port :
    (s : Odr) (p port : ℕ)
    → IsValid s
    → 0 < p
    → p < 2 ^ 16
    → All (λ e. e.port < 2 ^ 16) (take (s.port_cnt + 1) s.port_table)
    → port ≡ htonl (htonl p)
    → find_port (ntohl port) s.port_table (s.port_cnt + 1) s.local_path ≡ ok s.local_path
finds_no_port s p port v pos small ports twice = rw (
  twice,
  ntohl-htonl (htonl p) (htonl-lt p),
  find_port_none (htonl p) s.port_table (s.port_cnt + 1) s.local_path (omega (arith, v.ten_ports))
      (All-weaken (2 ^ 16) (htonl p) _ (htonl-port p pos small) ports),
)

astray :
    (s : Odr) (r : Rrep) (p : ℕ)
    → IsValid s
    → 0 < p
    → p < 2 ^ 16
    → All (λ e. e.port < 2 ^ 16) (take (s.port_cnt + 1) s.port_table)
    → r.dst_port ≡ htonl (htonl p)
    → tell_client s r ≡ ok (s, send_local s.local_path (reply_text r) ∷ [])
unfolding tell_client
astray s r p v pos small ports twice = rw (finds_no_port s p r.dst_port v pos small ports twice)

-- The RREP for a client's RREQ carries the port with its bytes swapped once too often: on the node
-- of the client it finds no entry of the port table, if all ports there have 16 bits, and goes to
-- the local process that was last written to or heard from, whichever that is.
pub reply_goes_astray :
    (s t : Odr) (m : LocalMsg) (p hops : ℕ)
    → IsValid s
    → 0 < p
    → p < 2 ^ 16
    → All (λ e. e.port < 2 ^ 16) (take (s.port_cnt + 1) s.port_table)
    → let own = own_reply (first_rreq t m p) in
      let known = known_reply (first_rreq t m p) hops in
      (tell_client s own ≡ ok (s, send_local s.local_path (reply_text own) ∷ []))
      × (tell_client s known ≡ ok (s, send_local s.local_path (reply_text known) ∷ []))
unfolding own_reply known_reply first_rreq
reply_goes_astray s t m p hops v pos small ports = (
  astray s (own_reply (first_rreq t m p)) p v pos small ports refl,
  astray s (known_reply (first_rreq t m p) hops) p v pos small ports refl,
)

-- The socket of a valid entry with a route is there.
if_mac_total :
    (macs : List Bytes) (e : RoutingEntry)
    → RouteOk (length macs) e
    → e.outgoing_if ≢ 0
    → (own : Bytes) × (if_mac macs e.outgoing_if ≡ ok own)
unfolding if_mac
if_mac_total macs e h linked =
    let (own, p) = get_elem?_total macs (e.outgoing_if - 3) (omega arith) in
    let far : ltb e.outgoing_if 3 ≡ false = ground arith in (own, rw (far, p))

if_mac_zero : (macs : List Bytes) (k : ℕ) → k ≡ 0 → if_mac macs k ≡ fault
unfolding if_mac
if_mac_zero macs k h = rw h

module _ (s : Odr) (v : IsValid s) where
  relay_works :
      (l : Payload) (e : RoutingEntry)
      → get_elem? s.routing_table (find_route l.dst_addr s.routing_table) ≡ some e
      → relay_payload s l ≡ fault
      → e.outgoing_if ≡ 0
  unfolding relay_payload
  relay_works l e p f = elim (Bool-cases (e.outgoing_if == 0)) [
    | inl z ↦ (==_iff _ _).0 z
    | inr linked ↦
        let (own, q) =
          if_mac_total s.if_macs e (All-get_elem? _ s.routing_table _ v.routes p) (ground arith) in
        absurd (cc (rw (p, q) at f))
  ]

  relay_unlinked :
      (l : Payload)
      → ((e : RoutingEntry)
          → get_elem? s.routing_table (find_route l.dst_addr s.routing_table) ≡ some e
          → e.outgoing_if ≡ 0)
      → relay_payload s l ≡ fault
  unfolding relay_payload
  relay_unlinked l h =
      elim (Option-cases (get_elem? s.routing_table (find_route l.dst_addr s.routing_table))) [
        | inl p ↦ rw p
        | inr (e, p) ↦ rw (p, if_mac_zero s.if_macs e.outgoing_if (h e p))
      ]

  -- A payload to be relayed makes the code read outside its arrays exactly when no entry has the
  -- address, or the entry has no route: the relay does not look before it uses `outgoing_if-3` as an
  -- index.
  relay_payload_faults :
      (l : Payload)
      → (relay_payload s l ≡ fault) ↔ (
          (e : RoutingEntry)
          → get_elem? s.routing_table (find_route l.dst_addr s.routing_table) ≡ some e
          → e.outgoing_if ≡ 0)
  relay_payload_faults l = (λ f e p. relay_works l e p f, relay_unlinked l)
