-- ===== src/Odr/Invariant.antt =====
-- What holds of the state of ODR.c between two rounds of its loop.
use cse.Base.{
  ℕ, ◌+◌, ◌≤◌, ◌<◌, ◌≡◌, refl, ◌∙◌, ◌⊎◌, inr, Bytes, List, some, Bool, get_elem?, length, same, map,
  All, All-set, All-get_elem?, arith, ok, ◌‼◌, Sound, sound_rules, at-eq-ok, if◌then◌else◌,
}
use cse.Odr.Types.{
  RoutingEntry, Rreq, Rrep, Payload, Body, rreq, rrep, payload, Action, Odr, vm_addr,
}
use cse.Odr.Routes.{find_route, improve, learn_reverse, learn_forward}
use cse.Odr.Routes.Learn.{map-set, improve-addrs, improve-All}
use cse.Odr.Request.{note_id, as_destination, as_informed, as_relay, by_role, on_rreq}
use cse.Odr.Reply.{on_rrep, tell_client, relay_rrep}
use cse.Odr.Data.{on_payload, deliver, relay_payload, on_body}

-- An entry has no route, or one over an interface that there is.
abbrev pub RouteOk : ℕ → RoutingEntry → Type 0
RouteOk n e = (e.outgoing_if ≡ 0) ⊎ ((3 ≤ e.outgoing_if) × (e.outgoing_if < 3 + n))

abbrev pub addr_of : RoutingEntry → Bytes
addr_of e = e.dst_addr

pub record IsValid (s : Odr) : Type 0 where
  pub addrs : map addr_of s.routing_table ≡ vm_addr
  pub routes : All (RouteOk (length s.if_macs)) s.routing_table
  pub ten_ports : length s.port_table ≡ 10
  pub ports_used : s.port_cnt ≤ 9

-- The parts of the state that the handlers of frames change keep it valid.
IsValid-table :
    {s : Odr} (table : List RoutingEntry)
    → IsValid s
    → map addr_of table ≡ map addr_of s.routing_table
    → All (RouteOk (length s.if_macs)) table
    → IsValid (record s { routing_table = table })
IsValid-table table v m r = record {
  addrs = m ∙ v.addrs;
  routes = r;
  ten_ports = v.ten_ports;
  ports_used = v.ports_used;
}

pub IsValid-path : {s : Odr} (path : Bytes) → IsValid s → IsValid (record s { local_path = path })
IsValid-path path v = record {
  addrs = v.addrs;
  routes = v.routes;
  ten_ports = v.ten_ports;
  ports_used = v.ports_used;
}

improve-IsValid :
    {s : Odr} (number d h index : ℕ) (mac : Bytes)
    → IsValid s
    → index < length s.if_macs
    → IsValid (record s { routing_table = (improve s.routing_table number d h index mac).0 })
improve-IsValid {s} number d h index mac v lt =
    IsValid-table (improve s.routing_table number d h index mac).0 v
      (improve-addrs s.routing_table number d h index mac)
      (improve-All (RouteOk (length s.if_macs)) s.routing_table number d h index mac v.routes
        (λ e. inr (omega arith, omega arith)))

note_id-IsValid :
    {s : Odr} (number : ℕ) {e : RoutingEntry} (q : Rreq)
    → IsValid s
    → get_elem? s.routing_table number ≡ some e
    → IsValid (note_id s number e q)
unfolding note_id
note_id-IsValid {s} number {e} q v p =
    IsValid-table _ v (map-set addr_of s.routing_table number _ p refl) (
      All-set (RouteOk (length s.if_macs)) s.routing_table number _ v.routes
        (All-get_elem? (RouteOk (length s.if_macs)) s.routing_table number v.routes p))

-- What a handler's result keeps, if it is no fault: the state is valid, with the same interfaces.
abbrev pub Kept : List Bytes → Odr × List Action → Type 0
Kept macs r = IsValid r.0 × (r.0.if_macs ≡ macs)

module _ {s : Odr} (v : IsValid s) where
  note_id-Kept :
      (number : ℕ) (e : RoutingEntry) (q : Rreq) (acts : List Action)
      → get_elem? s.routing_table number ≡ some e
      → Kept s.if_macs (note_id s number e q, acts)
  note_id-Kept number e q acts p = (note_id-IsValid number q v p, unfold note_id in refl)

  pub path-Kept :
      (path : Bytes) (acts : List Action) → Kept s.if_macs (record s { local_path = path }, acts)
  path-Kept path acts = (IsValid-path path v, refl)

  pub same-Kept : (acts : List Action) → Kept s.if_macs (s, acts)
  same-Kept acts = (v, refl)

  by_role-IsValid :
      (number : ℕ) (e : RoutingEntry) (b : Bool) (index : ℕ) (mac : Bytes) (q : Rreq)
      → get_elem? s.routing_table number ≡ some e
      → Sound (Kept s.if_macs) (by_role s number e b index mac q)
  unfolding by_role as_destination as_informed as_relay
  by_role-IsValid number e b index mac q p = search (sound_rules, note_id-Kept) depth 9

  on_payload-IsValid : (l : Payload) → Sound (Kept s.if_macs) (on_payload s l)
  unfolding on_payload deliver relay_payload
  on_payload-IsValid l = search (sound_rules, path-Kept, same-Kept) depth 9

  rrep-IsValid :
      (r : Rrep)
      → Sound
          (Kept s.if_macs)
          (if same r.dst_addr s.node_addr then tell_client s r else relay_rrep s r)
  unfolding tell_client relay_rrep
  rrep-IsValid r = search (sound_rules, path-Kept, same-Kept) depth 9

learnt-by_role :
    {s : Odr} (index number : ℕ) (b : Bool) (mac : Bytes) (q : Rreq) (e : RoutingEntry)
    → IsValid s
    → index < length s.if_macs
    → ((learn_reverse s.routing_table q index mac).0 ‼ number) ≡ ok e
    → Sound (Kept s.if_macs) (
        by_role
          (record s { routing_table = (learn_reverse s.routing_table q index mac).0 })
          number
          e
          b
          index
          mac
          q)
unfolding learn_reverse
learnt-by_role {s} index number b mac q e v lt h =
    by_role-IsValid (improve-IsValid (find_route q.src_addr s.routing_table) _ _ index mac v lt)
      number e b index mac q (at-eq-ok _ number h)

learnt-rrep :
    {s : Odr} (index : ℕ) (mac : Bytes) (r : Rrep)
    → IsValid s
    → index < length s.if_macs
    → IsValid (record s { routing_table = learn_forward s.routing_table r index mac })
unfolding learn_forward
learnt-rrep {s} index mac r v lt =
    improve-IsValid (find_route r.src_addr s.routing_table) _ _ index mac v lt

-- A frame of any kind, on an interface that there is, keeps the state valid.
pub on_body-IsValid :
    {s : Odr} (index : ℕ) (mac : Bytes) (b : Body)
    → IsValid s
    → index < length s.if_macs
    → Sound (Kept s.if_macs) (on_body s index mac b)
unfolding on_body on_rreq on_rrep
on_body-IsValid index mac (rreq q) v lt = search (sound_rules, learnt-by_role) depth 9
on_body-IsValid index mac (rrep r) v lt = rrep-IsValid (learnt-rrep index mac r v lt) r
on_body-IsValid index mac (payload l) v lt = on_payload-IsValid v l
