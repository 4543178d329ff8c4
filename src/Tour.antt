-- ===== src/Tour.antt =====
-- Assignment 4/Code/tour.c: a packet that visits the nodes of a source route, the pings of the
-- nodes that it came from, and the end of the tour by multicast.
pub mod Journey
pub mod Ending
pub mod Areq
mod Tests
mod AreqTests
use cse.Base.{
  ℕ, zero, suc, ◌+◌, ◌-◌, Bytes, codes, List, [], ◌∷◌, ◌++◌, Bool, true, false, not, ◌&&◌, ◌==◌,
  ltb, leb, if◌then◌else◌, length, same, decimal, map, Outcome, ok, fault, ◌>>=◌, ◌‼◌,
}

unfoldable pub vm_addr : List Bytes
vm_addr =
    codes "130.245.156.21"
    ∷ codes "130.245.156.22"
    ∷ codes "130.245.156.23"
    ∷ codes "130.245.156.24"
    ∷ codes "130.245.156.25"
    ∷ codes "130.245.156.26"
    ∷ codes "130.245.156.27"
    ∷ codes "130.245.156.28"
    ∷ codes "130.245.156.29"
    ∷ codes "130.245.156.20"
    ∷ []

-- `ID`
abbrev pub tour_id : ℕ
tour_id = 9220

-- The IP header's fields and the payload of a source route packet. The code reads and writes them
-- at the offsets 12, 16 and from 20 on, fifteen bytes for each address.
pub record RoutePacket : Type 0 where
  pub ip_id : ℕ
  pub ip_src : Bytes
  pub ip_dst : Bytes
  pub offset : ℕ
  pub total : ℕ
  pub source_route : List Bytes

-- An element of `ping_addr` with that of `ping_cnt`.
pub record Ping : Type 0 where
  pub addr : Bytes
  pub cnt : ℕ

-- The globals; `ping_no` is the length of `pings`, which has room for ten.
pub record Tour : Type 0 where
  pub node : ℕ
  pub visited : ℕ
  pub option : ℕ
  pub last_node : ℕ
  pub pings : List Ping

-- The calls that leave the process. A line `echo` is a ping with its answer, as they are printed.
pub data Call : Type 0 where
  join_group : Call
  send_route : RoutePacket → Call
  areq : Bytes → Call
  echo : Bytes → ℕ → Call
  multicast : Bytes → Call
  alarm : ℕ → Call
  exit : Call

-- Element `i - 1` of an array.
abbrev pub before_index : List Bytes → ℕ → Outcome Bytes
before_index xs zero = fault
before_index xs (suc i) = xs ‼ i

-- `atoi` of a string of one character.
unfoldable pub atoi_one : Bytes → ℕ
atoi_one (c ∷ []) = if leb 48 c && leb c 57 then c - 48 else 0
atoi_one _ = 0

-- The node that an argument names: `vm1` to `vm9`, and by any name of another length the tenth.
unfoldable pub named_node : Bytes → Outcome Bytes
named_node (v ∷ m ∷ c ∷ []) = before_index vm_addr (atoi_one (c ∷ []))
named_node _ = vm_addr ‼ 9

unfoldable pub named_nodes : List Bytes → Outcome (List Bytes)
named_nodes [] = ok []
named_nodes (arg ∷ args) =
    named_node arg >>= λ addr. named_nodes args >>= λ addrs. ok (addr ∷ addrs)

-- The packet of the source node: `args` are `argv[1]` on. `source_route` has room for 20 addresses.
unfoldable pub first_packet : (node : ℕ) → (args : List Bytes) → Outcome RoutePacket
first_packet node args =
    if ltb 19 (length args)
    then fault
    else (before_index vm_addr node >>= λ own. named_nodes args >>= λ addrs.
        (own ∷ addrs) ‼ 1 >>= λ dst. ok (record {
          ip_id = tour_id;
          ip_src = own;
          ip_dst = dst;
          offset = 2;
          total = length args + 1;
          source_route = own ∷ addrs;
        }))

-- The process before the loop, with no arguments or as the source of a tour.
unfoldable pub start : (node : ℕ) → (args : List Bytes) → Outcome (Tour × List Call)
start node [] = ok (record { node = node; visited = 0; option = 0; last_node = 0; pings = [] }, [])
start node (arg ∷ args) = first_packet node (arg ∷ args) >>= λ p. ok (
  record { node = node; visited = 1; option = 0; last_node = 0; pings = [] },
  join_group ∷ send_route p ∷ [],
)

-- The next packet of a node that is not the last: `payload+offset*15+5` is address `offset-1`.
unfoldable pub forward : Tour → RoutePacket → Outcome RoutePacket
forward t p = before_index p.source_route (p.offset + 1) >>= λ dst.
    before_index vm_addr t.node >>= λ own.
    ok (record p { ip_id = tour_id; ip_src = own; ip_dst = dst; offset = p.offset + 1 })

unfoldable pub first_count : List Ping → ℕ
first_count [] = 0
first_count (p ∷ ps) = p.cnt

abbrev pub count_up : Ping → Ping
count_up p = record p { cnt = p.cnt + 1 }

abbrev pub echo_of : Ping → Call
echo_of p = echo p.addr p.cnt

unfoldable pub end_text : ℕ → Bytes
end_text node =
    codes "<<<<<This is node VM"
    ++ (decimal node ++ codes ". Tour has ended. Group members please identify yourselves>>>>>")

unfoldable pub member_text : ℕ → Bytes
member_text node =
    codes "<<<<<Node VM" ++ (decimal node ++ codes ": I am a member of the group>>>>>")

-- `sig_alrm`
unfoldable pub sig_alrm : Tour → Tour × List Call
sig_alrm t =
    if t.option == 0
    then (if (first_count t.pings == 5) && (t.last_node == 1)
        then (t, multicast (end_text t.node) ∷ [])
        else (record t { pings = map count_up t.pings }, map echo_of t.pings ++ (alarm 1 ∷ [])))
    else (t, exit ∷ [])

-- The search through `ping_addr`.
unfoldable pub is_pinged : Bytes → List Ping → Bool
is_pinged addr [] = false
is_pinged addr (p ∷ ps) = let rest = is_pinged addr ps in if same p.addr addr then true else rest

-- The node that the packet came from is pinged from now on, if it is not yet.
unfoldable pub start_ping : Tour → Bytes → Outcome (Tour × List Call)
start_ping t src =
    if is_pinged src t.pings
    then ok (t, [])
    else if ltb (length t.pings) 10
    then ok (sig_alrm (record t { pings = t.pings ++ (record { addr = src; cnt = 0 } ∷ []) }))
    else fault

-- The first visit of the node.
unfoldable pub visit : Tour → Tour × List Call
visit t = if t.visited == 0 then (record t { visited = 1 }, join_group ∷ []) else (t, [])

-- The packet goes on, or has come to the last node.
unfoldable pub pass_on : Tour → RoutePacket → Outcome (Tour × List Call)
pass_on t p =
    if p.offset == p.total
    then ok (record t { last_node = 1 }, [])
    else (forward t p >>= λ next. ok (t, send_route next ∷ []))

-- A packet from the socket of the source route.
unfoldable pub on_route : Tour → RoutePacket → Outcome (Tour × List Call)
on_route t p =
    if not (p.ip_id == tour_id)
    then ok (t, [])
    else (pass_on (visit t).0 p >>= λ r.
        start_ping r.0 p.ip_src >>= λ s. ok (s.0, (visit t).1 ++ (r.1 ++ (areq p.ip_src ∷ s.1))))

-- A packet from the multicast socket.
unfoldable pub on_multicast : Tour → Tour × List Call
on_multicast t =
    if t.option == 0
    then (record t { option = 1 }, multicast (member_text t.node) ∷ alarm 5 ∷ [])
    else (t, [])
