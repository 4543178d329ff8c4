-- ===== src/Odr/Network/Discovery.antt =====
-- A route discovery of ODR.c along a path of nodes that know no routes yet.
pub mod Tables
pub mod Nodes
pub mod Backs
pub mod Leads
pub mod Ends
pub mod Start
pub mod Air
pub mod Along
pub mod Found
pub mod Carried
pub mod Arrives
mod Tests
use cse.Base.{
  ◌⊎◌, codes, ℕ, suc, ◌+◌, ◌<◌, ◌≡◌, ◌≢◌, Bytes, List, [], ◌∷◌, map, some, none, Option, get_elem?,
  length, ntohl, All,
}
use cse.Odr.Types.{RoutingEntry, PortEntry, Rreq, Rrep, Odr, vm_addr}
use cse.Odr.Routes.{find_route}
use cse.Odr.Invariant.{addr_of}
use cse.Odr.Network.{Topology, Joined}

-- No node of the list is this one.
abbrev pub Apart : ℕ → List ℕ → Type 0
Apart u [] = Unit
Apart u (v ∷ nodes) = (u ≢ v) × Apart u nodes

-- Nodes one after the other, from interface `i` of `u` on, to the one with the address `dst`. A node
-- on the way is not the source, and goes on over another interface than it came by; no node comes
-- twice.
pub data Trail (t : Topology) (src dst : Bytes) : (u i : ℕ) → List ℕ → Type 0 where
  ends :
      {u i : ℕ} (v k : ℕ)
      → Joined t u i v k
      → k < length (t.macs v)
      → t.addr v ≡ dst
      → Trail t src dst u i (v ∷ [])
  goes_on :
      {u i : ℕ} (v k i' : ℕ) {nodes : List ℕ}
      → Joined t u i v k
      → k < length (t.macs v)
      → i' < length (t.macs v)
      → k ≢ i'
      → t.addr v ≢ dst
      → t.addr v ≢ src
      → Apart v nodes
      → Trail t src dst v i' nodes
      → Trail t src dst u i (v ∷ nodes)

abbrev pub IsBlank : RoutingEntry → Type 0
IsBlank e = (e.outgoing_if ≡ 0) × (e.broadcast_id ≡ 0)

-- No entry of the destination has an interface.
abbrev pub Unusable : Bytes → RoutingEntry → Type 0
Unusable dst e = (e.dst_addr ≢ dst) ⊎ (e.outgoing_if ≡ 0)

-- The port table begins with the local server.
abbrev pub server_entry : PortEntry
server_entry = record { port = 5000; sun_path = codes "240411" }

abbrev pub HasServer : Odr → Type 0
HasServer s = (ports : List PortEntry) × (s.port_table ≡ server_entry ∷ ports)

-- The node has its address and its interfaces, and a table of the ten nodes without a route.
pub record Blank (t : Topology) (u : ℕ) (s : Odr) : Type 0 where
  pub own : s.node_addr ≡ t.addr u
  pub macs : s.if_macs ≡ t.macs u
  pub addrs : map addr_of s.routing_table ≡ vm_addr
  pub blank : All IsBlank s.routing_table
  pub server : HasServer s

-- The node has a route to the source over interface `k`, and none to the destination.
pub record Turned (t : Topology) (src dst : Bytes) (u k : ℕ) (s : Odr) : Type 0 where
  pub own : s.node_addr ≡ t.addr u
  pub macs : s.if_macs ≡ t.macs u
  pub addrs : map addr_of s.routing_table ≡ vm_addr
  pub entry : RoutingEntry
  pub there : get_elem? s.routing_table (find_route src s.routing_table) ≡ some entry
  pub back : entry.outgoing_if ≡ k + 3
  pub unusable : All (Unusable dst) s.routing_table

-- The node has a route to the address over interface `i`.
pub record RoutesTo (t : Topology) (dst : Bytes) (u i : ℕ) (s : Odr) : Type 0 where
  pub own : s.node_addr ≡ t.addr u
  pub macs : s.if_macs ≡ t.macs u
  pub entry : RoutingEntry
  pub there : get_elem? s.routing_table (find_route dst s.routing_table) ≡ some entry
  pub out : entry.outgoing_if ≡ i + 3

-- The first RREQ of the source, at any place, and an RREP to it.
pub record Seeks (src dst : Bytes) (q : Rreq) : Type 0 where
  pub from : q.src_addr ≡ src
  pub to : q.dst_addr ≡ dst
  pub open_yet : ntohl q.rrep_sent ≡ 0
  pub first : ntohl q.broadcast_id ≡ 1

pub record Answers (src dst : Bytes) (r : Rrep) : Type 0 where
  pub from : r.src_addr ≡ dst
  pub to : r.dst_addr ≡ src
