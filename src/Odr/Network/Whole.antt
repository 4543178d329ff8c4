-- ===== src/Odr/Network/Whole.antt =====
-- What holds in every state that a network of ODR.c reaches.
use cse.Base.{
  ℕ, suc, ◌+◌, ◌≡◌, ◌≢◌, inl, inr, refl, subst, Bytes, List, [], ◌∷◌, ◌++◌, Option, some, none,
  ◌==◌, get_elem?, All, All-append, All-imp, All-get_elem?, Outcome, ok, Sound, Sound-ok,
  Sound-bind, Bool-cases, arith,
}
use cse.Odr.Types.{
  RoutingEntry, Payload, rreq, rrep, payload, Body, Frame, Action, send_frame, send_local, Odr,
  LocalMsg, PortEntry, vm_addr,
}
use cse.Odr.Local.{on_local}
use cse.Odr.Data.{on_body, on_frames, after, round, start, init_routes}
use cse.Odr.Network.{
  Topology, Transmission, Asked, Told, Network, frames_of, texts_of, asks_of, Readable, put_node,
  after_round, Step, round_step, Reach, begin, and_then, begun,
}
use cse.Odr.Network.Truth.{Has, Via, RouteTrue, BodyTrue, TextTrue, ActTrue, NodeTrue, ResultTrue}
use cse.Odr.Network.Parts.{linked-Via}
use cse.Odr.Network.Others.{on_body-True}
use cse.Odr.Network.Asks.{IsFrom, on_local-True}

-- The payload carries what a local process of its source asked for.
abbrev pub FromAsked : Topology → List Asked → Payload → Type 0
FromAsked t asked l =
    (j : ℕ) × (a : Asked) × (get_elem? asked j ≡ some a) × IsFrom (t.addr a.node) a.msg l

abbrev SentTrue : Topology → (Payload → Type 0) → Transmission → Type 0
SentTrue t Origin x = Has (t.macs x.node) x.frame.src_mac × BodyTrue t Origin x.node x.frame.body

abbrev ToldTrue : Topology → (Payload → Type 0) → Told → Type 0
ToldTrue t Origin x = TextTrue t Origin x.node x.text

record Inv (t : Topology) (net : Network) : Type 0 where
  pub nodes : (u : ℕ) → NodeTrue t u (net.odr u)
  pub sent : All (SentTrue t (FromAsked t net.asked)) net.sent
  pub told : All (ToldTrue t (FromAsked t net.asked)) net.told

-- What holds of a payload still holds when more was asked.
module _ (t : Topology) {Old New : Payload → Type 0} (more : (l : Payload) → Old l → New l) where
  BodyTrue-more : (x : ℕ) (b : Body) → BodyTrue t Old x b → BodyTrue t New x b
  BodyTrue-more x (rreq q) h = h
  BodyTrue-more x (rrep r) h = h
  BodyTrue-more x (payload l) h = more l h

  SentTrue-more : (x : Transmission) → SentTrue t Old x → SentTrue t New x
  SentTrue-more x h = (h.0, BodyTrue-more x.node x.frame.body h.1)

  ToldTrue-more : (x : Told) → ToldTrue t Old x → ToldTrue t New x
  ToldTrue-more x (inl r) = inl r
  ToldTrue-more x (inr (l, e, a, o)) = inr (l, e, a, more l o)

module _ (t : Topology) (Origin : Payload → Type 0) (u : ℕ) where
  frames_of-True :
      (acts : List Action)
      → All (ActTrue t Origin u) acts
      → All (SentTrue t Origin) (frames_of u acts)
  frames_of-True [] h = tt
  frames_of-True (send_frame socket ifindex mac f ∷ acts) h = (h.0, frames_of-True acts h.1)
  frames_of-True (send_local path text ∷ acts) h = frames_of-True acts h.1

  texts_of-True :
      (acts : List Action)
      → All (ActTrue t Origin u) acts
      → All (ToldTrue t Origin) (texts_of u acts)
  texts_of-True [] h = tt
  texts_of-True (send_frame socket ifindex mac f ∷ acts) h = texts_of-True acts h.1
  texts_of-True (send_local path text ∷ acts) h = (h.0, texts_of-True acts h.1)

  after-True :
      (acts : List Action) (rest : Outcome (Odr × List Action))
      → All (ActTrue t Origin u) acts
      → Sound (ResultTrue t Origin u) rest
      → Sound (ResultTrue t Origin u) (after acts rest)
  after-True acts rest all true_rest = Sound-bind rest _ (λ r h.
      let (n, more) = true_rest.at r h in
      Sound-ok (r.0, acts ++ r.1) (n, All-append (ActTrue t Origin u) acts r.1 all more))

  on_frames-True :
      {s : Odr} (sent : List Transmission) (i : ℕ) (frames : List (Option Frame))
      → NodeTrue t u s
      → All (SentTrue t Origin) sent
      → Readable t sent u i frames
      → Sound (ResultTrue t Origin u) (on_frames s i frames)
  unfolding on_frames
  on_frames-True {s} sent i [] n all read = Sound-ok (s, []) (n, tt)
  on_frames-True sent i (none ∷ frames) n all read = on_frames-True sent (i + 1) frames n all read
  on_frames-True {s} sent i (some f ∷ frames) n all ((j, x, there, same_frame, joined), read) =
      let true_x = All-get_elem? (SentTrue t Origin) sent j all there in
      let mac : Has (t.macs x.node) f.src_mac =
        subst (λ (g : Frame). Has (t.macs x.node) g.src_mac) same_frame true_x.0 in
      let body : BodyTrue t Origin x.node f.body =
        subst (λ (g : Frame). BodyTrue t Origin x.node g.body) same_frame true_x.1 in
      Sound-bind (on_body s i f.src_mac f.body) _ (λ r h.
        let (n', acts) = (on_body-True t Origin u i f.src_mac joined mac f.body n body).at r h in
        after-True r.1 (on_frames r.0 (i + 1) frames) acts
          (on_frames-True sent (i + 1) frames n' all read))

module _ (t : Topology) (net : Network) (inv : Inv t net) where
  more_asked :
      (u : ℕ) (m : Option LocalMsg) (l : Payload)
      → FromAsked t net.asked l
      → FromAsked t (asks_of u m ++ net.asked) l
  more_asked u none l h = h
  more_asked u (some m) l (j, a, there, from) = (suc j, a, there, from)

  round-True :
      (u : ℕ) (m : Option LocalMsg) (frames : List (Option Frame))
      → Readable t net.sent u 0 frames
      → Sound (ResultTrue t (FromAsked t (asks_of u m ++ net.asked)) u) (round (net.odr u) m frames)
  unfolding round
  round-True u none frames read =
      on_frames-True t (FromAsked t net.asked) u net.sent 0 frames (inv.nodes u) inv.sent read
  round-True u (some m) frames read =
      let Origin : Payload → Type 0 = FromAsked t (asks_of u (some m) ++ net.asked) in
      let sent : All (SentTrue t Origin) net.sent =
        All-imp (SentTrue-more t (more_asked u (some m))) net.sent inv.sent in
      Sound-bind (on_local (net.odr u) m) _ (λ r h.
        let (n, acts) =
          (on_local-True t Origin u m (λ l from. (0, record { node = u; msg = m }, refl, from))
              (inv.nodes u)).at
            r h in
        after-True t Origin u r.1 (on_frames r.0 0 frames) acts
          (on_frames-True t Origin u net.sent 0 frames n sent read))

  put_node-True :
      (u : ℕ) (s : Odr) → NodeTrue t u s → (v : ℕ) → NodeTrue t v (put_node u s net.odr v)
  put_node-True u s n v = elim (Bool-cases (v == u)) [
    | inl p ↦ let e : u ≡ v = ground arith in rw p (subst (λ w. NodeTrue t w s) e n)
    | inr p ↦ rw p (inv.nodes v)
  ]

  round-Inv :
      (u : ℕ) (m : Option LocalMsg) (frames : List (Option Frame)) (r : Odr × List Action)
      → Readable t net.sent u 0 frames
      → round (net.odr u) m frames ≡ ok r
      → Inv t (after_round net u m r)
  round-Inv u m frames r read ran =
      let Origin : Payload → Type 0 = FromAsked t (asks_of u m ++ net.asked) in
      let (n, acts) = (round-True u m frames read).at r ran in
      record {
        nodes = put_node-True u r.0 n;
        sent =
            All-append (SentTrue t Origin) (frames_of u r.1) net.sent
              (frames_of-True t Origin u r.1 acts)
              (All-imp (SentTrue-more t (more_asked u m)) net.sent inv.sent);
        told =
            All-append (ToldTrue t Origin) (texts_of u r.1) net.told
              (texts_of-True t Origin u r.1 acts)
              (All-imp (ToldTrue-more t (more_asked u m)) net.told inv.told);
      }

init_routes-True :
    (t : Topology) (u : ℕ) (addrs : List Bytes) (stack : List RoutingEntry)
    → All (RouteTrue t u) (init_routes addrs stack)
unfolding init_routes
init_routes-True t u [] stack = tt
init_routes-True t u (a ∷ addrs) [] = tt
init_routes-True t u (a ∷ addrs) (e ∷ stack) = (inl refl, init_routes-True t u addrs stack)

begun-Inv :
    (t : Topology) (routes : ℕ → List RoutingEntry) (ports : ℕ → List PortEntry)
    → Inv t (begun t routes ports)
unfolding start
begun-Inv t routes ports = record {
  nodes = λ u. record { own = refl; macs = refl; routes = init_routes-True t u vm_addr (routes u) };
  sent = tt;
  told = tt;
}

Step-Inv : (t : Topology) {net last : Network} → Step t net last → Inv t net → Inv t last
Step-Inv t {net} (round_step u m frames r read ran) inv = round-Inv t net inv u m frames r read ran

Reach-Inv : (t : Topology) {net last : Network} → Reach t net last → Inv t net → Inv t last
Reach-Inv t begin inv = inv
Reach-Inv t (and_then path s) inv = Step-Inv t s (Reach-Inv t path inv)

module _ (t : Topology) (routes : ℕ → List RoutingEntry) (ports : ℕ → List PortEntry)
    {net : Network} (path : Reach t (begun t routes ports) net) where
  -- In every state of a network of nodes that lose, repeat and reorder frames, and whose local
  -- processes send anything: an entry with an interface is a real route. The interface is on one
  -- segment with a node that has the next hop's hardware address, and from that node a walk over
  -- segments leads to the entry's destination, which has, as a 32-bit number, one hop less than the
  -- entry says.
  pub routes_are_real :
      (u i : ℕ) {e : RoutingEntry}
      → get_elem? (net.odr u).routing_table i ≡ some e
      → e.outgoing_if ≢ 0
      → Via t u e
  routes_are_real u i there linked =
      linked-Via t (FromAsked t net.asked) u i
        ((Reach-Inv t path (begun-Inv t routes ports)).nodes u) there linked

  -- In every state of a network of nodes that lose, repeat and reorder frames, and whose local
  -- processes send anything, what a node ever told a local process is either that there is a
  -- route, or a payload for this node's address that carries the message which a local process of
  -- the node with the payload's source address asked to send to that destination.
  pub told_is_asked :
      (i : ℕ) {x : Told}
      → get_elem? net.told i ≡ some x
      → TextTrue t (FromAsked t net.asked) x.node x.text
  told_is_asked i there =
      All-get_elem? (ToldTrue t (FromAsked t net.asked)) net.told i
        (Reach-Inv t path (begun-Inv t routes ports)).told there
