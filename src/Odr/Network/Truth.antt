-- ===== src/Odr/Network/Truth.antt =====
-- What makes the routes, the frames and the local datagrams of a network of ODR.c true.
use cse.Base.{
  ℕ, suc, ◌+◌, ◌≡◌, ◌⊎◌, inl, inr, refl, sym, Bytes, List, some, u32, ntohl, get_elem?, All,
  All-set, arith,
}
use cse.Odr.Types.{
  RoutingEntry, Payload, Rrep, rreq, rrep, payload, Body, Action, send_frame, send_local, Odr,
}
use cse.Odr.Routes.{find_route, improve}
use cse.Odr.Routes.Learn.{rerouted, improve_cases, find_route-addr}
use cse.Odr.Reply.{reply_text}
use cse.Odr.Data.{load_text}
use cse.Odr.Network.{Topology, Joined, Walk, arrived, hop}

abbrev pub Has {ℓ} : {A : Type ℓ} → List A → A → Type ℓ
Has xs a = (i : ℕ) × (get_elem? xs i ≡ some a)

module _ (t : Topology) where
  -- A walk from node `x` to the address that has `hops` hops, as a 32-bit number.
  pub record Far (x : ℕ) (addr : Bytes) (hops : ℕ) : Type 0 where
    pub length_of : ℕ
    pub walk : Walk t x addr length_of
    pub counted : hops ≡ u32 length_of

  -- A route of node `u`: its interface leads to a node that has the next hop's hardware address, and
  -- from which a walk goes to the destination that is one hop shorter than the entry says.
  pub record Via (u : ℕ) (e : RoutingEntry) : Type 0 where
    pub index : ℕ
    pub node : ℕ
    pub there : ℕ
    pub rest : ℕ
    pub out : e.outgoing_if ≡ index + 3
    pub joined : Joined t u index node there
    pub mac : Has (t.macs node) e.next_hop
    pub walk : Walk t node e.dst_addr rest
    pub hops : e.hop_cnt ≡ u32 (rest + 1)

  abbrev pub RouteTrue : ℕ → RoutingEntry → Type 0
  RouteTrue u e = (e.outgoing_if ≡ 0) ⊎ Via u e

  -- What node `x` sends: the hop count of an RREQ or an RREP is that of a walk back to its source;
  -- what holds of a payload is a parameter.
  abbrev pub BodyTrue : (Payload → Type 0) → ℕ → Body → Type 0
  BodyTrue Origin x (rreq q) = Far x q.src_addr (ntohl q.hop_cnt)
  BodyTrue Origin x (rrep r) = Far x r.src_addr (ntohl r.hop_cnt)
  BodyTrue Origin x (payload l) = Origin l

  -- What a node tells a local process: that there is a route, or a payload for this node.
  abbrev pub TextTrue : (Payload → Type 0) → ℕ → Bytes → Type 0
  TextTrue Origin u text =
      ((r : Rrep) × (text ≡ reply_text r))
      ⊎ ((l : Payload) × (text ≡ load_text l) × (l.dst_addr ≡ t.addr u) × Origin l)

  abbrev pub ActTrue : (Payload → Type 0) → ℕ → Action → Type 0
  ActTrue Origin u (send_frame socket ifindex mac f) =
      Has (t.macs u) f.src_mac × BodyTrue Origin u f.body
  ActTrue Origin u (send_local path text) = TextTrue Origin u text

  pub record NodeTrue (u : ℕ) (s : Odr) : Type 0 where
    pub own : s.node_addr ≡ t.addr u
    pub macs : s.if_macs ≡ t.macs u
    pub routes : All (RouteTrue u) s.routing_table

  abbrev pub ResultTrue : (Payload → Type 0) → ℕ → Odr × List Action → Type 0
  ResultTrue Origin u r = NodeTrue u r.0 × All (ActTrue Origin u) r.1

module _ {t : Topology} {u : ℕ} where
  pub here-Far : {addr : Bytes} → addr ≡ t.addr u → Far t u addr 0
  here-Far e = record { length_of = 0; walk = arrived (sym e); counted = refl }

  -- The walk goes on over the segment that the frame came over.
  pub next-Far :
      {x i k hops : ℕ} {addr : Bytes}
      → Joined t u i x k
      → Far t x addr hops
      → Far t u addr (u32 (hops + 1))
  next-Far {i = i} {k = k} {hops = hops} joined far = record {
    length_of = suc far.length_of;
    walk = hop i k joined far.walk;
    counted = omega (arith, far.counted);
  }

  rerouted-Via :
      {x k hops : ℕ} (index : ℕ) {addr mac : Bytes} (e : RoutingEntry)
      → Joined t u index x k
      → Has (t.macs x) mac
      → Far t x addr hops
      → e.dst_addr ≡ addr
      → Via t u (rerouted e index (u32 (hops + 1)) mac)
  rerouted-Via {x} {k} {hops} index e joined has far same_addr = record {
    index = index;
    node = x;
    there = k;
    rest = far.length_of;
    out = refl;
    joined = joined;
    mac = has;
    walk = rw same_addr far.walk;
    hops = omega (arith, far.counted);
  }

-- A header of a neighbour keeps the routes true.
pub improve-RouteTrue :
    (t : Topology) (u : ℕ) {x k hops : ℕ} (index : ℕ) {addr mac : Bytes} (table : List RoutingEntry)
    (discovery : ℕ)
    → All (RouteTrue t u) table
    → Joined t u index x k
    → Has (t.macs x) mac
    → Far t x addr hops
    → All
        (RouteTrue t u)
        (improve table (find_route addr table) discovery (u32 (hops + 1)) index mac).0
improve-RouteTrue t u {hops = hops} index {addr} {mac} table d all joined has far =
    elim (improve_cases table (find_route addr table) d (u32 (hops + 1)) index mac) [
      | inl p ↦ rw p all
      | inr (e, p, b, q) ↦ rw q (
          All-set (RouteTrue t u) table (find_route addr table)
            (rerouted e index (u32 (hops + 1)) mac) all
            (inr (rerouted-Via index e joined has far (find_route-addr addr table p))))
    ]
