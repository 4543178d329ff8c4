-- ===== src/Odr/Rounds.antt =====
-- The rounds of the loop of ODR.c: every state that they reach is valid.
use cse.Base.{
  ◌&&◌, ℕ, ◌+◌, ◌≤◌, ◌<◌, ◌≡◌, refl, sym, ◌∙◌, inl, Bytes, List, [], ◌∷◌, ◌++◌, Option, none, some,
  set, get_elem?, length, map, All, length-set, arith, Outcome, ok, Sound, Sound-bind, Sound-ok,
  Sound-if, Sound-fault, sound_rules, ==_iff, subst, if◌then◌else◌, ltb, ◌==◌,
}
use cse.Odr.Types.{RoutingEntry, PortEntry, Frame, Action, Odr, LocalMsg, vm_addr}
use cse.Odr.Routes.{find_route}
use cse.Odr.Local.{
  register, route_exists, send_request, discover, server_reply, client_request, on_local,
}
use cse.Odr.Data.{on_body, on_frames, after, round, start, init_routes}
use cse.Odr.Invariant.{IsValid, IsValid-path, Kept, RouteOk, addr_of, same-Kept, on_body-IsValid}

-- The port table has room while the new client's slot is below ten.
registered-IsValid :
    {s : Odr} (index : ℕ) (p : PortEntry)
    → IsValid s
    → index ≡ s.port_cnt + 1
    → index < length s.port_table
    → IsValid (record s {
      port_table = set s.port_table index p;
      port_cnt = s.port_cnt + 1;
      port = s.port + 1;
    })
registered-IsValid {s} index p v e lt = record {
  addrs = v.addrs;
  routes = v.routes;
  ten_ports = length-set s.port_table index p ∙ v.ten_ports;
  ports_used = omega (arith, v.ten_ports);
}

register-IsValid :
    {s : Odr} (index : ℕ) (path : Bytes)
    → IsValid s
    → Sound (λ t. IsValid t × (t.if_macs ≡ s.if_macs)) (register s index path)
unfolding register
register-IsValid {s} index path v =
    Sound-if (index == s.port_cnt + 1) _ _
      (λ p.
        Sound-if (ltb (length path) 15 && ltb index (length s.port_table)) _ _
          (λ lt. Sound-ok _ (
            registered-IsValid index (record { port = s.port; sun_path = path }) v
                ((==_iff _ _).0 p) (ground arith),
            refl,
          ))
          (λ _. Sound-fault))
      (λ _. Sound-ok _ (v, refl))

discovered-IsValid : {s : Odr} (k : ℕ) → IsValid s → IsValid (record s { broadcast_id = k })
discovered-IsValid k v = record {
  addrs = v.addrs;
  routes = v.routes;
  ten_ports = v.ten_ports;
  ports_used = v.ports_used;
}

discovered-Kept :
    {s : Odr} (k : ℕ) (acts : List Action)
    → IsValid s
    → Kept s.if_macs (record s { broadcast_id = k }, acts)
discovered-Kept k acts v = (discovered-IsValid k v, refl)

request-IsValid :
    {t : Odr} (m : LocalMsg) (index : ℕ)
    → IsValid t
    → Sound (Kept t.if_macs) (send_request t m index) × Sound (Kept t.if_macs) (discover t m index)
unfolding send_request discover
request-IsValid m index v =
    (search (sound_rules, same-Kept) depth 9, search (sound_rules, discovered-Kept) depth 9)

Sound-Kept :
    {ms ns : List Bytes} {m : Outcome (Odr × List Action)}
    → ns ≡ ms
    → Sound (Kept ns) m
    → Sound (Kept ms) m
Sound-Kept e k = record { at = λ r p. ((k.at r p).0, (k.at r p).1 ∙ e) }

client_request-IsValid :
    {s : Odr} (m : LocalMsg) (index : ℕ)
    → IsValid s
    → Sound (Kept s.if_macs) (client_request s m index)
unfolding client_request
client_request-IsValid {s} m index v =
    Sound-bind (register s index m.sun_path)
      (λ t.
        if route_exists (get_elem? t.routing_table (find_route m.dst_addr t.routing_table)) m.flag
        then send_request t m index
        else discover t m index)
      (λ t h.
        let (w, same_ifs) = (register-IsValid index m.sun_path v).at t h in
        Sound-Kept same_ifs (
          Sound-if _ _ _ (λ _. (request-IsValid m index w).0) (λ _. (request-IsValid m index w).1)))

server_reply-IsValid :
    {s : Odr} (m : LocalMsg) → IsValid s → Sound (Kept s.if_macs) (server_reply s m)
unfolding server_reply
server_reply-IsValid m v = search (sound_rules, same-Kept) depth 9

received-IsValid :
    {s : Odr} (m : LocalMsg) (index : ℕ)
    → IsValid s
    → Sound (Kept s.if_macs) (
        if index == 0
        then server_reply (record s { local_path = m.sun_path }) m
        else client_request (record s { local_path = m.sun_path }) m index)
received-IsValid m index v =
    Sound-if (index == 0) _ _ (λ _. server_reply-IsValid m (IsValid-path m.sun_path v))
      (λ _. client_request-IsValid m index (IsValid-path m.sun_path v))

after-Kept :
    {ms ns : List Bytes} (acts : List Action) {m : Outcome (Odr × List Action)}
    → ns ≡ ms
    → Sound (Kept ns) m
    → Sound (Kept ms) (after acts m)
after-Kept {ms} acts {m} e k =
    Sound-bind {P = Kept ms} m (λ r. ok (r.0, acts ++ r.1))
      (λ r p. Sound-ok (r.0, acts ++ r.1) ((k.at r p).0, (k.at r p).1 ∙ e))

-- A datagram of a local process keeps the state valid.
on_local-IsValid : {s : Odr} (m : LocalMsg) → IsValid s → Sound (Kept s.if_macs) (on_local s m)
unfolding on_local
on_local-IsValid m v = search (sound_rules, received-IsValid) depth 9

-- The frames of one round keep the state valid.
on_frames-IsValid :
    {s : Odr} (index : ℕ) (frames : List (Option Frame))
    → IsValid s
    → index + length frames ≤ length s.if_macs
    → Sound (Kept s.if_macs) (on_frames s index frames)
unfolding on_frames
on_frames-IsValid index [] v lt = Sound-ok _ (v, refl)
on_frames-IsValid index (none ∷ frames) v lt = on_frames-IsValid (index + 1) frames v (omega arith)
on_frames-IsValid {s} index (some f ∷ frames) v lt =
    Sound-bind (on_body s index f.src_mac f.body)
      (λ r. after r.1 (on_frames r.0 (index + 1) frames))
      (λ r h.
        let (w, e) = (on_body-IsValid index f.src_mac f.body v (omega arith)).at r h in
        after-Kept r.1 e (
          on_frames-IsValid (index + 1) frames w (
            subst (λ (macs : List Bytes). index + 1 + length frames ≤ length macs) (sym e)
              (omega arith))))

-- One round of the loop keeps the state valid, whatever local processes and other nodes send: if it
-- ends without a fault, the routing table still has the ten addresses in their order, every route
-- goes over an interface that there is, and the port table is in bounds.
round-IsValid :
    {s : Odr} (m : Option LocalMsg) (frames : List (Option Frame)) {r : Odr × List Action}
    → IsValid s
    → length frames ≤ length s.if_macs
    → round s m frames ≡ ok r
    → IsValid r.0 × (r.0.if_macs ≡ s.if_macs)
unfolding round
round-IsValid none frames {r} v lt h = (on_frames-IsValid 0 frames v (omega arith)).at r h
round-IsValid {s} (some m) frames {r} v lt h =
    (Sound-bind {P = Kept s.if_macs} (on_local s m) (λ q. after q.1 (on_frames q.0 0 frames))
        (λ q p.
          let (w, e) = (on_local-IsValid m v).at q p in
          after-Kept q.1 e (
            on_frames-IsValid 0 frames w (
              subst (λ (macs : List Bytes). 0 + length frames ≤ length macs) (sym e)
                (omega arith))))).at
      r h

init_routes-addrs :
    (addrs : List Bytes) (stack : List RoutingEntry)
    → length stack ≡ length addrs
    → map addr_of (init_routes addrs stack) ≡ addrs
unfolding init_routes
init_routes-addrs [] stack h = refl
init_routes-addrs (a ∷ addrs) [] h = absurd (omega arith)
init_routes-addrs (a ∷ addrs) (e ∷ stack) h = rw (init_routes-addrs addrs stack (omega arith))

init_routes-RouteOk :
    (n : ℕ) (addrs : List Bytes) (stack : List RoutingEntry)
    → All (RouteOk n) (init_routes addrs stack)
unfolding init_routes
init_routes-RouteOk n [] stack = tt
init_routes-RouteOk n (a ∷ addrs) [] = tt
init_routes-RouteOk n (a ∷ addrs) (e ∷ stack) = (inl refl, init_routes-RouteOk n addrs stack)

pub start-IsValid :
    (own : Bytes) (macs : List Bytes) (routes : List RoutingEntry) (ports : List PortEntry)
    → length routes ≡ 10
    → length ports ≡ 9
    → IsValid (start own macs routes ports)
unfolding start vm_addr
start-IsValid own macs routes ports h k = record {
  addrs = init_routes-addrs vm_addr routes h;
  routes = init_routes-RouteOk (length macs) vm_addr routes;
  ten_ports = omega arith;
  ports_used = omega arith;
}

-- The states that the loop of ODR.c can reach, by any rounds that end without a fault.
pub data Reach (s : Odr) : Odr → Type 0 where
  here : Reach s s
  next :
      {t : Odr} (m : Option LocalMsg) (frames : List (Option Frame)) (r : Odr × List Action)
      → Reach s t
      → length frames ≤ length t.if_macs
      → round t m frames ≡ ok r
      → {u : Odr} → u ≡ r.0
      → Reach s u

Reach-IsValid : {s t : Odr} → IsValid s → Reach s t → IsValid t
Reach-IsValid v here = v
Reach-IsValid v (next m frames r path fits ran e) =
    subst IsValid (sym e) (round-IsValid m frames (Reach-IsValid v path) fits ran).0

-- Whatever the stack holds at first, and whatever comes in: as long as no round of the loop of ODR.c
-- makes an access out of the bounds of an array, its states are valid: the ten addresses in their
-- order, routes over interfaces that there are, the port table in bounds.
pub reachable-IsValid :
    (own : Bytes) (macs : List Bytes) (routes : List RoutingEntry) (ports : List PortEntry)
    {t : Odr}
    → length routes ≡ 10
    → length ports ≡ 9
    → Reach (start own macs routes ports) t
    → IsValid t
reachable-IsValid own macs routes ports h k =
    Reach-IsValid (start-IsValid own macs routes ports h k)
