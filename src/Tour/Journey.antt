-- ===== src/Tour/Journey.antt =====
-- The way of the packet of tour.c from its source through the nodes of the route.
use mathlib.Core.List.{append_assoc}
use cse.Base.{
  ℕ, suc, ◌+◌, ◌≤◌, ◌<◌, ◌≡◌, ◌≢◌, refl, sym, ap, ap₂, index_of_array, ◌∙◌, inl, inr, Bytes, List,
  [], ◌∷◌, ◌++◌, map, Option, none, some, true, false, ◌==◌, ltb, length, All, length-append,
  get_elem?, Outcome, ok, ◌>>=◌, >>=-eq-ok, arith, Bool-cases,
}
use cse.Tour.{
  RoutePacket, Ping, Tour, Call, send_route, areq, tour_id, vm_addr, before_index, named_node,
  named_nodes, first_packet, forward, sig_alrm, is_pinged, start_ping, visit, pass_on, on_route,
  echo_of, multicast, alarm, exit, join_group, echo,
}

-- The packet among the calls that a node makes.
abbrev pub sent : List Call → Option RoutePacket
sent [] = none
sent (send_route p ∷ cs) = some p
sent (_ ∷ cs) = sent cs

-- The node with address `addr` has sent the packet on, or nothing.
abbrev pub follow :
    Bytes
    → Option RoutePacket
    → (RoutePacket → Outcome (List Bytes × Option RoutePacket))
    → Outcome (List Bytes × Option RoutePacket)
follow addr none rest = ok (addr ∷ [], none)
follow addr (some p) rest = rest p >>= λ r. ok (addr ∷ r.0, r.1)

-- The addresses at which the packet arrives, one after the other, where the nodes that it meets are
-- in the states of the list; and the packet that is still on its way when the list has no more.
unfoldable pub travel : List Tour → RoutePacket → Outcome (List Bytes × Option RoutePacket)
travel [] p = ok ([], some p)
travel (t ∷ ts) p = on_route t p >>= λ r. follow p.ip_dst (sent r.1) (travel ts)

-- A node of the network, with room for one more ping.
abbrev pub IsReady : Tour → Type 0
IsReady t = ((own : Bytes) × (before_index vm_addr t.node ≡ ok own)) × (length t.pings < 10)

-- The packet is on its way to `addr`, and then to the addresses of `rest`.
pub record IsOnWay (p : RoutePacket) (addr : Bytes) (rest : List Bytes) : Type 0 where
  pub behind : List Bytes
  pub whole : p.source_route ≡ behind ++ (addr ∷ rest)
  pub place : p.offset ≡ length behind + 1
  pub end_at : p.total ≡ length p.source_route
  pub aim : p.ip_dst ≡ addr
  pub mark : p.ip_id ≡ tour_id

get_elem?-after :
    (xs : List Bytes) (a b : Bytes) (ys : List Bytes)
    → get_elem? (xs ++ (a ∷ b ∷ ys)) (suc (length xs)) ≡ some b
get_elem?-after [] a b ys = refl
get_elem?-after (x ∷ xs) a b ys = get_elem?-after xs a b ys

abbrev first_of : Option RoutePacket → Option RoutePacket → Option RoutePacket
first_of none o = o
first_of (some p) o = some p

sent-append : (cs ds : List Call) → sent (cs ++ ds) ≡ first_of (sent cs) (sent ds)
sent-append [] ds = refl
sent-append (join_group ∷ cs) ds = sent-append cs ds
sent-append (send_route p ∷ cs) ds = refl
sent-append (areq ip ∷ cs) ds = sent-append cs ds
sent-append (echo a k ∷ cs) ds = sent-append cs ds
sent-append (multicast m ∷ cs) ds = sent-append cs ds
sent-append (alarm k ∷ cs) ds = sent-append cs ds
sent-append (exit ∷ cs) ds = sent-append cs ds

sent-echoes : (ps : List Ping) (ds : List Call) → sent (map echo_of ps ++ ds) ≡ sent ds
sent-echoes [] ds = refl
sent-echoes (p ∷ ps) ds = sent-echoes ps ds

sent-sig_alrm : (t : Tour) → sent (sig_alrm t).1 ≡ none
unfolding sig_alrm
sent-sig_alrm t = ground (arith, sent-echoes t.pings (alarm 1 ∷ []))

-- With room for it, the ping starts without a fault, and sends no packet of the route.
start_ping_ok :
    (t : Tour) (src : Bytes)
    → length t.pings < 10
    → (s : Tour × List Call) × (start_ping t src ≡ ok s) × (sent s.1 ≡ none)
unfolding start_ping
start_ping_ok t src room = elim (Bool-cases (is_pinged src t.pings)) [
  | inl p ↦ ((t, []), rw p, refl)
  | inr p ↦
      let u : Tour = record t { pings = t.pings ++ (record { addr = src; cnt = 0 } ∷ []) } in
      (sig_alrm u, rw p (ground arith), sent-sig_alrm u)
]

sent-visit : (t : Tour) → sent (visit t).1 ≡ none
unfolding visit
sent-visit t = ground arith

visit-pings : (t : Tour) → ((visit t).0.pings ≡ t.pings) × ((visit t).0.node ≡ t.node)
unfolding visit
visit-pings t = (ground arith, ground arith)

first_of-none : (o : Option RoutePacket) → first_of o none ≡ o
first_of-none none = refl
first_of-none (some p) = refl

-- The packet that a node sends is the one that `pass_on` sends.
on_route-sent :
    (t : Tour) (p : RoutePacket) (r : Tour × List Call)
    → (p.ip_id == tour_id) ≡ true
    → pass_on (visit t).0 p ≡ ok r
    → length r.0.pings < 10
    → (s : Tour × List Call) × (on_route t p ≡ ok s) × (sent s.1 ≡ sent r.1)
unfolding on_route
on_route-sent t p r mark passed room =
    let (s, pinged, quiet) = start_ping_ok r.0 p.ip_src room in
    (
      (s.0, (visit t).1 ++ (r.1 ++ (areq p.ip_src ∷ s.1))),
      rw (mark, passed, pinged),
      sent-append (visit t).1 _
          ∙ rw (sent-visit t, sent-append r.1 (areq p.ip_src ∷ s.1), quiet)
              (first_of-none (sent r.1)),
    )

pass_on_last :
    (t : Tour) (p : RoutePacket)
    → p.offset ≡ p.total
    → pass_on t p ≡ ok (record t { last_node = 1 }, [])
unfolding pass_on
pass_on_last t p h = ground arith

pass_on_hop :
    (t : Tour) (p : RoutePacket) {next : RoutePacket}
    → p.offset ≢ p.total
    → forward t p ≡ ok next
    → pass_on t p ≡ ok (t, send_route next ∷ [])
unfolding pass_on
pass_on_hop t p ne h = elim (Bool-cases (p.offset == p.total)) [
  | inl e ↦ absurd (ground arith)
  | inr e ↦ rw (e, h)
]

-- The next packet, on its way to the next address.
forward-IsOnWay :
    (t : Tour) (p : RoutePacket) (addr addr' : Bytes) (rest : List Bytes)
    → IsReady t
    → IsOnWay p addr (addr' ∷ rest)
    → (next : RoutePacket) × (forward t p ≡ ok next) × IsOnWay next addr' rest
unfolding forward
forward-IsOnWay t p addr addr' rest ((own, known), _) w = (
  record p { ip_id = tour_id; ip_src = own; ip_dst = addr'; offset = p.offset + 1 },
  let at : p.offset + 1 ≡ suc (suc (length w.behind)) = omega (arith, w.place) in
      let aimed : before_index p.source_route (p.offset + 1) ≡ ok addr' =
        ap₂ before_index w.whole at
        ∙ ap index_of_array (get_elem?-after w.behind addr addr' rest) in
      rw (aimed, known),
  record {
    behind = w.behind ++ (addr ∷ []);
    whole = w.whole ∙ sym (append_assoc w.behind (addr ∷ []) (addr' ∷ rest));
    place = omega (arith, w.place, length-append w.behind (addr ∷ []));
    end_at = w.end_at;
    aim = refl;
    mark = refl;
  },
)

visit-IsReady : (t : Tour) → IsReady t → IsReady (visit t).0
visit-IsReady t ((own, known), room) = (
  (own, ap (before_index vm_addr) (visit-pings t).1 ∙ known),
  omega (arith, room, ap (length {A = Ping}) (visit-pings t).0),
)

length-cons-cons : (xs ys : List Bytes) (a b : Bytes) → length (xs ++ (a ∷ b ∷ ys)) ≢ length xs + 1
length-cons-cons xs ys a b e = absurd (omega (arith, length-append xs (a ∷ b ∷ ys), e))

travel-IsOnWay :
    (rest : List Bytes) (ts : List Tour) (p : RoutePacket) (addr : Bytes)
    → IsOnWay p addr rest
    → All IsReady ts
    → length ts ≡ suc (length rest)
    → travel ts p ≡ ok (addr ∷ rest, none)
unfolding travel
travel-IsOnWay rest [] p addr w ready same_length = absurd (omega arith)
travel-IsOnWay [] (t ∷ ts) p addr w (r, _) same_length =
    let u : Tour = record (visit t).0 { last_node = 1 } in
    let ended : p.offset ≡ p.total = omega (
      arith,
      w.place,
      w.end_at,
      ap (length {A = Bytes}) w.whole,
      length-append w.behind (addr ∷ []),
    ) in
    let (s, done, quiet) =
      on_route-sent t p (u, []) (rw w.mark refl) (pass_on_last (visit t).0 p ended)
        (visit-IsReady t r).1 in
    rw (done, quiet, w.aim)
travel-IsOnWay (addr' ∷ rest) (t ∷ ts) p addr w (r, ready) same_length =
    let (next, forwarded, w') =
      forward-IsOnWay (visit t).0 p addr addr' rest (visit-IsReady t r) w in
    let going : p.offset ≢ p.total = λ e.
      length-cons-cons w.behind rest addr addr'
        (sym (ap (length {A = Bytes}) w.whole) ∙ (sym w.end_at ∙ (sym e ∙ w.place))) in
    let (s, done, sends) =
      on_route-sent t p ((visit t).0, send_route next ∷ []) (rw w.mark refl)
        (pass_on_hop (visit t).0 p going forwarded) (visit-IsReady t r).1 in
    rw (done, sends, w.aim, travel-IsOnWay rest ts next addr' w' ready (omega arith))

ok_inj : {a b : List Bytes} → ok a ≡ ok b → a ≡ b
ok_inj h = cc

named_nodes-length :
    (args : List Bytes) {addrs : List Bytes}
    → named_nodes args ≡ ok addrs
    → length addrs ≡ length args
unfolding named_nodes
named_nodes-length [] h = ap (length {A = Bytes}) (sym (ok_inj h))
named_nodes-length (arg ∷ args) {addrs} h =
    let (a, one, more) = >>=-eq-ok (named_node arg) _ h in
    let (rest, others, whole) = >>=-eq-ok (named_nodes args) _ more in
    ap (length {A = Bytes}) (sym (ok_inj whole)) ∙ ap suc (named_nodes-length args others)

-- A tour from a node of the network, with at most 19 arguments that name nodes: the first packet is
-- made, and, whatever the states of the nodes that it meets (each with room for one more ping), it
-- arrives at exactly the named nodes, in the order of the arguments, and the last sends no packet on.
pub travel-first_packet :
    (node : ℕ) (args : List Bytes) (ts : List Tour) {own : Bytes} {addr : Bytes}
    {addrs : List Bytes}
    → before_index vm_addr node ≡ ok own
    → length args ≤ 19
    → named_nodes args ≡ ok (addr ∷ addrs)
    → All IsReady ts
    → length ts ≡ length args
    → (p : RoutePacket) × (first_packet node args ≡ ok p) × (travel ts p ≡ ok (addr ∷ addrs, none))
unfolding first_packet
travel-first_packet node args ts {own} {addr} {addrs} known few named ready same_length =
    let p : RoutePacket = record {
      ip_id = tour_id;
      ip_src = own;
      ip_dst = addr;
      offset = 2;
      total = length args + 1;
      source_route = own ∷ addr ∷ addrs;
    } in
    let few_enough : ltb 19 (length args) ≡ false = ground arith in
    let counted = named_nodes-length args named in
    (
      p,
      rw (few_enough, known, named),
      travel-IsOnWay addrs ts p addr
          (record {
            behind = own ∷ [];
            whole = refl;
            place = refl;
            end_at = omega (arith, counted);
            aim = refl;
            mark = refl;
          })
          ready (omega (arith, counted)),
    )
