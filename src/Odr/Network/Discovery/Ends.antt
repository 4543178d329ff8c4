-- ===== src/Odr/Network/Discovery/Ends.antt =====
-- The two ends of a route discovery: the destination answers, and the source asks and learns.
use cse.Base.{
  ℕ, zero, suc, ◌+◌, ◌<◌, ◌≤◌, ◌≡◌, refl, sym, ap, subst, ◌∙◌, Bytes, List, [], ◌∷◌, some, true,
  ◌==◌, u32, ntohl, get_elem?, length, All-get_elem?, same, same_refl, ok, Bool-cases, arith, inl,
  inr,
}
use cse.Odr.Types.{RoutingEntry, PortEntry, Rreq, Rrep, Action, send_local, Odr, vm_addr}
use cse.Odr.Routes.{find_route, learn_forward}
use cse.Odr.Routes.Learn.{rerouted}
use cse.Odr.Ports.{find_port}
use cse.Odr.Request.{on_rreq, by_role, as_destination, answer, own_reply, note_id}
use cse.Odr.Reply.{on_rrep, tell_client, reply_text}
use cse.Odr.Network.{Topology}
use cse.Odr.Network.Discovery.{RoutesTo, IsBlank, Blank}
use cse.Odr.Network.Discovery.Tables.{find_route_total}
use cse.Odr.Network.Discovery.Leads.{Home}
use cse.Odr.Network.Discovery.Backs.{if_mac-at, back_frame, learn_forward_finds}
use cse.Odr.Network.Discovery.Nodes.{place, back, learnt, on_rreq-by_role, is_fresh_back}

-- The destination answers over the interface that the RREQ came by.
pub answers_back :
    {t : Topology} {v : ℕ} {s : Odr} (b : Blank t v s) (q : Rreq) (k : ℕ) (mac : Bytes)
    {e : RoutingEntry}
    → get_elem? s.routing_table (place s q) ≡ some e
    → IsBlank e
    → ntohl q.rrep_sent ≡ 0
    → ntohl q.broadcast_id ≡ 1
    → q.dst_addr ≡ t.addr v
    → k < length (t.macs v)
    → (s' : Odr) × (own : Bytes) × (on_rreq s k mac q
        ≡ ok (s', back_frame k mac own (own_reply q) ∷ []))
      × Home t q.dst_addr v s'
unfolding by_role as_destination answer note_id
answers_back {t} {v} {s} b q k mac {e} there is_blank unsent first here lt =
    let own_addr : same q.dst_addr s.node_addr ≡ true =
      ap (same q.dst_addr) (b.own ∙ sym here) ∙ same_refl q.dst_addr in
    let (own, ready) =
      if_mac-at s.if_macs k (subst (λ (l : List Bytes). k < length l) (sym b.macs) lt) in
    (
      note_id (learnt s q (back e q k mac)) (place s q) (back e q k mac) q,
      own,
      on_rreq-by_role b q k mac there is_blank
          ∙ rw (own_addr, unsent, is_fresh_back b q k mac there is_blank first, ready) refl,
      record { own = b.own; here = sym here; server = b.server },
    )

pub find_port_total :
    (port : ℕ) (table : List PortEntry) (n : ℕ) (path : Bytes)
    → n ≤ length table
    → (found : Bytes) × (find_port port table n path ≡ ok found)
unfolding find_port
find_port_total port table zero path h = (path, refl)
find_port_total port [] (suc n) path h = absurd (omega arith)
find_port_total port (e ∷ es) (suc n) path h = elim (Bool-cases (e.port == port)) [
  | inl p ↦ (e.sun_path, rw p refl)
  | inr p ↦ rw p (find_port_total port es n path (omega arith))
]

-- The source takes the route from the RREP, over the interface that it came by, and keeps its ports.
pub learns :
    {t : Topology} {u : ℕ} {s : Odr} (b : Blank t u s) (r : Rrep) (index known : ℕ) (mac : Bytes)
    → get_elem? vm_addr known ≡ some r.src_addr
    → r.dst_addr ≡ t.addr u
    → s.port_cnt + 1 ≤ length s.port_table
    → (s' : Odr) × (acts : List Action) × (on_rrep s index mac r ≡ ok (s', acts))
      × RoutesTo t r.src_addr u index s'
      × (s'.port_table ≡ s.port_table)
      × (s'.port_cnt ≡ s.port_cnt)
unfolding on_rrep tell_client
learns {t} {u} {s} b r index known mac is_node here room =
    let (old, there) =
      find_route_total r.src_addr s.routing_table known
        (ap (λ l. get_elem? l known) b.addrs ∙ is_node) in
    let is_blank : IsBlank old =
      All-get_elem? IsBlank s.routing_table (find_route r.src_addr s.routing_table) b.blank there in
    let own : same r.dst_addr s.node_addr ≡ true =
      ap (same r.dst_addr) (b.own ∙ sym here) ∙ same_refl r.dst_addr in
    let (path, told) =
      find_port_total (ntohl r.dst_port) s.port_table (s.port_cnt + 1) s.local_path room in
    (
      record s { routing_table = learn_forward s.routing_table r index mac; local_path = path },
      send_local path (reply_text r) ∷ [],
      rw (own, told) refl,
      record {
        own = b.own;
        macs = b.macs;
        entry = rerouted old index (u32 (ntohl r.hop_cnt + 1)) mac;
        there = learn_forward_finds s.routing_table r index mac old there is_blank.0;
        out = refl;
      },
      refl,
      refl,
    )
