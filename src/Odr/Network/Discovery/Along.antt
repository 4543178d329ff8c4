-- ===== src/Odr/Network/Discovery/Along.antt =====
-- An RREQ that goes out towards a path of nodes without routes is answered, node by node.
use cse.Base.{
  ℕ, ◌+◌, ◌<◌, ◌≡◌, ◌≢◌, refl, sym, ap, subst, ◌∙◌, Bytes, List, [], ◌∷◌, some, none, Option,
  get_elem?, length, All, ok, arith,
}
use cse.Odr.Types.{Rreq, Rrep, rreq, rrep, Action, Odr, LocalMsg, vm_addr}
use cse.Odr.Request.{flood, one_more_hop, own_reply, on_rreq, note_id}
use cse.Odr.Reply.{on_rrep}
use cse.Odr.Data.{on_body}
use cse.Odr.Network.{Topology, Joined, Network, after_round, Reach, begin, and_then}
use cse.Odr.Network.Discovery.{RoutesTo, Apart, Trail, ends, goes_on, Blank, Turned, Seeks, Answers}
use cse.Odr.Network.Discovery.Tables.{find_route_total}
use cse.Odr.Network.Discovery.Nodes.{place, back, learnt, entry_of, passes_on, noted-Turned}
use cse.Odr.Network.Discovery.Leads.{
  put_other, put_same, Home, Leads, leads_home, leads_on, Leads-other,
}
use cse.Odr.Network.Discovery.Backs.{passes_back, one_back, back_frame}
use cse.Odr.Network.Discovery.Ends.{answers_back}
use cse.Odr.Network.Discovery.Air.{Aired, now, moved, flood-Aired, hears_step}

pub joined_back : {t : Topology} {u i v k : ℕ} → Joined t u i v k → Joined t v k u i
joined_back j = record { shared = j.shared; one = j.other; other = j.one }

pub both_ways :
    {t : Topology} {net mid last : Network} → Reach t net mid → Reach t mid last → Reach t net last
both_ways one begin = one
both_ways one (and_then two s) = and_then (both_ways one two) s

-- What a node hears of a route discovery that went out on its interface: an RREP on its segment, at
-- which the nodes from there on have routes to the destination.
pub record Answered (t : Topology) (src dst : Bytes) (net last : Network) (u i : ℕ) (nodes : List ℕ)
    : Type 0 where
  pub path : Reach t net last
  pub reply : Rrep
  pub answers : Answers src dst reply
  pub by : ℕ
  pub socket : ℕ
  pub joined : Joined t u i by socket
  pub aired : Aired last.sent by socket (rrep reply)
  pub leads : Leads t dst last.odr u i nodes
  pub others : (w : ℕ) → Apart w nodes → last.odr w ≡ net.odr w

abbrev pub AllBlank : Topology → Network → List ℕ → Type 0
AllBlank t net nodes = All (λ w. Blank t w (net.odr w)) nodes

pub still_blank :
    (t : Topology) (net : Network) (v : ℕ) (m : Option LocalMsg) (r : Odr × List Action)
    (nodes : List ℕ)
    → Apart v nodes
    → AllBlank t net nodes
    → AllBlank t (after_round net v m r) nodes
still_blank t net v m r [] apart h = tt
still_blank t net v m r (w ∷ nodes) apart h = (
  subst (Blank t w) (sym (put_other v w r.0 net.odr (λ e. apart.0 (sym e)))) h.0,
  still_blank t net v m r nodes apart.1 h.1,
)

module _ (t : Topology) (src dst : Bytes) (from to : ℕ)
    (src_node : get_elem? vm_addr from ≡ some src) (dst_node : get_elem? vm_addr to ≡ some dst)
    (ne : src ≢ dst) where
  -- The last node of the path answers.
  end_answers :
      (net : Network) {u i : ℕ} (v k : ℕ) (q : Rreq)
      → Seeks src dst q
      → Aired net.sent u i (rreq q)
      → Blank t v (net.odr v)
      → Joined t u i v k
      → k < length (t.macs v)
      → t.addr v ≡ dst
      → (last : Network) × Answered t src dst net last u i (v ∷ [])
  unfolding on_body own_reply
  end_answers net v k q sk aired b joined lt here =
      let mac : Bytes = aired.what.frame.src_mac in
      let (e, there, is_blank) = entry_of b q from (src_node ∙ ap some (sym sk.from)) in
      let (s', own, done, home) =
        answers_back b q k mac there is_blank sk.open_yet sk.first (sk.to ∙ sym here) lt in
      let r : Odr × List Action = (s', back_frame k mac own (own_reply q) ∷ []) in
      (
        after_round net v none r,
        record {
          path = and_then begin (hears_step (joined_back joined) aired r done);
          reply = own_reply q;
          answers = record { from = sk.to; to = sk.from };
          by = v;
          socket = k;
          joined = joined;
          aired = now refl refl refl;
          leads = leads_home v k joined (
              subst (Home t dst v) (sym (put_same v s' net.odr))
                (subst (λ d. Home t d v s') sk.to home));
          others = λ w apart. put_other v w s' net.odr apart.0;
        },
      )

  -- A node on the way passes the RREP back that its own segment gave it.
  hands_back :
      (net mid : Network) {u i : ℕ} (v k i' : ℕ) (nodes : List ℕ)
      → (s : Odr) → mid.odr v ≡ s
      → Turned t src dst v k s
      → Joined t u i v k
      → k < length (t.macs v)
      → t.addr v ≢ src
      → t.addr v ≢ dst
      → i' < length (t.macs v)
      → Apart v nodes
      → Leads t dst mid.odr v i' nodes
      → Reach t net mid
      → ((w : ℕ) → Apart w (v ∷ nodes) → mid.odr w ≡ net.odr w)
      → (r : Rrep) → Answers src dst r
      → (by socket : ℕ) → Joined t v i' by socket
      → Aired mid.sent by socket (rrep r)
      → (last : Network) × Answered t src dst net last u i (v ∷ nodes)
  unfolding on_body one_back
  hands_back net mid v k i' nodes s is_s turned joined lt not_src not_dst lt' apart leads path
        others r ans by socket near aired =
      let mac : Bytes = aired.what.frame.src_mac in
      let turned' : Turned t r.dst_addr r.src_addr v k s =
        subst (λ d. Turned t r.dst_addr d v k s) (sym ans.from)
          (subst (λ a. Turned t a dst v k s) (sym ans.to) turned) in
      let (f, there) =
        find_route_total r.src_addr s.routing_table to
          (ap (λ l. get_elem? l to) turned.addrs ∙ (dst_node ∙ ap some (sym ans.from))) in
      let (s', next, own, done, routes) =
        passes_back r i' mac turned' there (λ h. ne (sym ans.to ∙ (h ∙ ans.from)))
          (λ h. not_src (h ∙ ans.to)) lt in
      let res : Odr × List Action = (s', back_frame k next own (one_back r) ∷ []) in
      let ran : on_body (mid.odr v) i' mac (rrep r) ≡ ok res =
        ap (λ z. on_rrep z i' mac r) is_s ∙ done in
      (
        after_round mid v none res,
        record {
          path = and_then path (hears_step near aired res ran);
          reply = one_back r;
          answers = record { from = ans.from; to = ans.to };
          by = v;
          socket = k;
          joined = joined;
          aired = now refl refl refl;
          leads =
              leads_on v k i' joined
                (subst (RoutesTo t dst v i') (sym (put_same v s' mid.odr))
                  (subst (λ d. RoutesTo t d v i' s') ans.from routes))
                not_dst lt' apart (Leads-other v s' apart leads);
          others = λ w far. put_other v w s' mid.odr far.0 ∙ others w far;
        },
      )

  -- A node on the way passes the RREQ on, and has then a route to the source.
  on_way :
      (s : Odr) (v k : ℕ) (mac : Bytes) (q : Rreq)
      → Seeks src dst q
      → Blank t v s
      → t.addr v ≢ dst
      → (s' : Odr) × (on_rreq s k mac q ≡ ok (s', flood s.if_macs 0 k (one_more_hop q)))
        × Turned t src dst v k s'
  on_way s v k mac q sk b not_dst =
      let (e, there, is_blank) = entry_of b q from (src_node ∙ ap some (sym sk.from)) in
      (
        note_id (learnt s q (back e q k mac)) (place s q) (back e q k mac) q,
        passes_on b q k mac there is_blank sk.first (λ h. ne (sym sk.from ∙ (h ∙ sk.to)))
            (λ h. not_dst (sym h ∙ sk.to)),
        subst
            (λ d.
              Turned t src d v k
                (note_id (learnt s q (back e q k mac)) (place s q) (back e q k mac) q))
            sk.to
            (subst
              (λ a.
                Turned t a q.dst_addr v k
                  (note_id (learnt s q (back e q k mac)) (place s q) (back e q k mac) q))
              sk.from
              (noted-Turned b q k mac there is_blank (λ h. ne (sym sk.from ∙ (h ∙ sk.to))))),
      )

  one_more-Seeks : (q : Rreq) → Seeks src dst q → Seeks src dst (one_more_hop q)
  unfolding one_more_hop
  one_more-Seeks q sk = record {
    from = sk.from;
    to = sk.to;
    open_yet = sk.open_yet;
    first = sk.first;
  }

  -- An RREQ that goes out towards a path of nodes without routes is answered.
  pub search_along :
      (net : Network) {u i : ℕ} {nodes : List ℕ} (q : Rreq)
      → Seeks src dst q
      → Aired net.sent u i (rreq q)
      → AllBlank t net nodes
      → Trail t src dst u i nodes
      → (last : Network) × Answered t src dst net last u i nodes
  unfolding on_body
  search_along net q sk aired all (ends v k joined lt here) =
      end_answers net v k q sk aired all.0 joined lt here
  search_along net q sk aired all
        (goes_on v k i' {nodes} joined lt lt' other_way not_dst not_src apart rest) =
      let mac : Bytes = aired.what.frame.src_mac in
      let (s', done, turned) = on_way (net.odr v) v k mac q sk all.0 not_dst in
      let res : Odr × List Action = (s', flood (net.odr v).if_macs 0 k (one_more_hop q)) in
      let next : Network = after_round net v none res in
      let out : i' < length (net.odr v).if_macs =
        subst (λ (l : List Bytes). i' < length l) (sym all.0.macs) lt' in
      let same_way : i' ≡ 0 + i' = omega arith in
      let on_air : Aired next.sent v i' (rreq (one_more_hop q)) = moved (sym same_way) (
        flood-Aired (net.odr v).if_macs 0 k v i' (one_more_hop q) net.sent out
          (λ h. other_way (h ∙ sym same_way))) in
      let (mid, a) =
        search_along next (one_more_hop q) (one_more-Seeks q sk) on_air
          (still_blank t net v none res nodes apart all.1) rest in
      let step : Reach t net next =
        and_then begin (hears_step (joined_back joined) aired res done) in
      hands_back net mid v k i' nodes s' (a.others v apart ∙ put_same v s' net.odr) turned joined lt
        not_src not_dst lt' apart a.leads (both_ways step a.path)
        (λ w far. a.others w far.1 ∙ put_other v w s' net.odr far.0) a.reply a.answers a.by a.socket
        a.joined a.aired
