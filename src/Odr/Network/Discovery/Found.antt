-- ===== src/Odr/Network/Discovery/Found.antt =====
-- A route discovery along a path leaves the source with a route to the destination.
use mathlib.Core.List.{append-nil}
use cse.Base.{
  ℕ, ◌+◌, ◌<◌, ◌≡◌, ◌≢◌, refl, sym, ap, subst, ◌∙◌, Bytes, List, [], ◌∷◌, codes, some, none, false,
  get_elem?, length, same, ok, arith,
}
use cse.Odr.Types.{RoutingEntry, PortEntry, Rreq, rreq, rrep, Action, Odr, LocalMsg, vm_addr}
use cse.Odr.Local.{flood_all}
use cse.Odr.Reply.{on_rrep}
use cse.Odr.Data.{on_body, on_frames, round}
use cse.Odr.Network.{
  Topology, Network, put_node, after_round, round_step, Reach, begin, and_then, begun,
}
use cse.Odr.Network.Discovery.{RoutesTo, Apart, Trail}
use cse.Odr.Network.Discovery.Ends.{learns}
use cse.Odr.Network.Discovery.Air.{Aired, moved, flood_all-Aired, hears_step}
use cse.Odr.Network.Discovery.Start.{
  NoIds, start-Blank, sought, sought-Seeks, asks_all, after_request-Blank, after_request,
}
use cse.Odr.Network.Discovery.Leads.{Leads, Leads-other, put_same}
use cse.Odr.Network.Discovery.Along.{both_ways, AllBlank, still_blank, search_along}

begun-AllBlank :
    (t : Topology) (routes : ℕ → List RoutingEntry) (ports : ℕ → List PortEntry)
    → ((w : ℕ) → length (routes w) ≡ 10)
    → ((w : ℕ) → length (ports w) ≡ 9)
    → ((w : ℕ) → NoIds (routes w))
    → (nodes : List ℕ) → AllBlank t (begun t routes ports) nodes
begun-AllBlank t routes ports ten nine ids [] = tt
begun-AllBlank t routes ports ten nine ids (w ∷ nodes) = (
  start-Blank t w (routes w) (ports w) (ten w) (nine w) (ids w),
  begun-AllBlank t routes ports ten nine ids nodes,
)

-- Nodes that begin, and a path of them from interface `i` of `u` to the node that the first client of
-- `u` asks for.
module _ (t : Topology) (routes : ℕ → List RoutingEntry) (ports : ℕ → List PortEntry) (u i : ℕ)
    (nodes : List ℕ) (m : LocalMsg) (from to : ℕ) (ten : (w : ℕ) → length (routes w) ≡ 10)
    (nine : (w : ℕ) → length (ports w) ≡ 9) (ids : (w : ℕ) → NoIds (routes w))
    (src_node : get_elem? vm_addr from ≡ some (t.addr u))
    (dst_node : get_elem? vm_addr to ≡ some m.dst_addr) (ne : t.addr u ≢ m.dst_addr)
    (client : same (codes "240411") m.sun_path ≡ false) (brief : length m.sun_path < 15)
    (out : i < length (t.macs u)) (apart : Apart u nodes)
    (path : Trail t (t.addr u) m.dst_addr u i nodes) where
  -- The source when it has the route: its port table is that of its first request.
  pub found :
      (last : Network) × Reach t (begun t routes ports) last
      × RoutesTo t m.dst_addr u i (last.odr u)
      × Leads t m.dst_addr last.odr u i nodes
      × ((last.odr u).port_table ≡ (after_request ((begun t routes ports).odr u) m).port_table)
      × ((last.odr u).port_cnt ≡ (after_request ((begun t routes ports).odr u) m).port_cnt)
  unfolding round on_body on_frames
  found =
      let net : Network = begun t routes ports in
      let q : Rreq = sought t u m in
      let r : Odr × List Action = (after_request (net.odr u) m, flood_all (t.macs u) 0 q) in
      let next : Network = after_round net u (some m) r in
      let asked =
        asks_all t u (routes u) m (ten u) (ids u) to dst_node client brief (ports u) (nine u) in
      let ran : round (net.odr u) (some m) [] ≡ ok r =
        rw (asked, append-nil (flood_all (t.macs u) 0 q)) refl in
      let step : Reach t net next = and_then begin (round_step u (some m) [] r tt ran) in
      let same_way : 0 + i ≡ i = omega arith in
      let on_air : Aired next.sent u i (rreq q) =
        moved same_way (flood_all-Aired (t.macs u) 0 u i q [] out) in
      let (mid, a) =
        search_along t (t.addr u) m.dst_addr from to src_node dst_node ne next q
          (sought-Seeks t u m) on_air
          (still_blank t net u (some m) r nodes apart
            (begun-AllBlank t routes ports ten nine ids nodes))
          path in
      let is_s : mid.odr u ≡ r.0 = a.others u apart ∙ put_same u r.0 net.odr in
      let (b, room) =
        after_request-Blank t u (routes u) m (ten u) (ids u) to dst_node client brief (ports u)
          (nine u) in
      let mac : Bytes = a.aired.what.frame.src_mac in
      let (s', acts, learnt_it, routes_to, table, cnt) =
        learns b a.reply i to mac (dst_node ∙ ap some (sym a.answers.from)) a.answers.to room in
      let res : Odr × List Action = (s', acts) in
      let took : on_body (mid.odr u) i mac (rrep a.reply) ≡ ok res =
        ap (λ z. on_rrep z i mac a.reply) is_s ∙ learnt_it in
      let is_last : put_node u s' mid.odr u ≡ s' = put_same u s' mid.odr in
      (
        after_round mid u none res,
        and_then (both_ways step a.path) (hears_step a.joined a.aired res took),
        subst (RoutesTo t m.dst_addr u i) (sym is_last)
            (subst (λ d. RoutesTo t d u i s') a.answers.from routes_to),
        Leads-other u s' apart a.leads,
        ap (λ (z : Odr). z.port_table) is_last ∙ table,
        ap (λ (z : Odr). z.port_cnt) is_last ∙ cnt,
      )

-- For nodes that begin with no broadcast id on the stack where their routing tables lie, zero, and a
-- first client of one of them, with a path below 15 bytes and not that of the server, that asks for another of the ten
-- addresses: if a path of distinct nodes leads from interface `i` of its node to a node with that
-- address, and goes on at every node over another interface than it came by, then there are rounds of
-- these nodes after which the client's node has a route to that address over `i`, and each node of the
-- path one over the interface by which the path goes on.
pub discovery_succeeds :
    (t : Topology) (routes : ℕ → List RoutingEntry) (ports : ℕ → List PortEntry) (u i : ℕ)
    (nodes : List ℕ) (m : LocalMsg) (from to : ℕ)
    → ((w : ℕ) → length (routes w) ≡ 10)
    → ((w : ℕ) → length (ports w) ≡ 9)
    → ((w : ℕ) → NoIds (routes w))
    → get_elem? vm_addr from ≡ some (t.addr u)
    → get_elem? vm_addr to ≡ some m.dst_addr
    → t.addr u ≢ m.dst_addr
    → same (codes "240411") m.sun_path ≡ false
    → length m.sun_path < 15
    → i < length (t.macs u)
    → Apart u nodes
    → Trail t (t.addr u) m.dst_addr u i nodes
    → (last : Network) × Reach t (begun t routes ports) last
      × RoutesTo t m.dst_addr u i (last.odr u)
      × Leads t m.dst_addr last.odr u i nodes
discovery_succeeds t routes ports u i nodes m from to ten nine ids src_node dst_node ne client brief
      out apart path =
    let (last, reached, routes_to, leads, _, _) =
      found t routes ports u i nodes m from to ten nine ids src_node dst_node ne client brief out
        apart path in
    (last, reached, routes_to, leads)
