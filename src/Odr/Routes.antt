-- ===== src/Odr/Routes.antt =====
-- The routing table of ODR.c: its searches and how a frame's header improves an entry.
pub mod Learn
use cse.Base.{
  ℕ, suc, ◌+◌, ◌-◌, Bytes, List, [], ◌∷◌, Option, none, some, Bool, true, false, not, ◌&&◌, ◌||◌,
  ltb, ◌==◌, if◌then◌else◌, set, get_elem?, same, u32, ntohl, Outcome, fault, ok, ◌‼◌,
}
use cse.Odr.Types.{RoutingEntry, Rreq, Rrep, Odr}

-- The loop `for(number=0; number<10; number++)` with its `break`: the first entry for the address,
-- and the length of the table if there is none.
unfoldable pub find_route : Bytes → List RoutingEntry → ℕ
find_route addr [] = 0
find_route addr (e ∷ es) = if same e.dst_addr addr then 0 else suc (find_route addr es)

-- The loop that looks for a usable route to the destination of an RREQ: it stops only at an entry
-- that has an interface, and only if no discovery is forced.
unfoldable pub find_usable : Bytes → Bool → List RoutingEntry → ℕ
find_usable addr forced [] = 0
find_usable addr forced (e ∷ es) =
    if same e.dst_addr addr && (not (e.outgoing_if == 0) && not forced)
    then 0
    else suc (find_usable addr forced es)

-- The test whether a route of `hops` hops over interface `index + 3` replaces the entry.
unfoldable pub is_better : RoutingEntry → (discovery hops index : ℕ) → Bool
is_better e discovery hops index =
    discovery == 1
    || (e.outgoing_if == 0
        || (ltb hops e.hop_cnt || (e.hop_cnt == hops && not (e.outgoing_if == index + 3))))

-- The update of entry `number` in the loop over the table; the flag is `efficient`.
unfoldable pub improve :
    List RoutingEntry → (number discovery hops index : ℕ) → Bytes → List RoutingEntry × Bool
improve table number discovery hops index mac = elim (get_elem? table number) [
  | none ↦ (table, false)
  | some e ↦
      if is_better e discovery hops index
      then (
        set table number (record e { next_hop = mac; outgoing_if = index + 3; hop_cnt = hops }),
        true,
      )
      else (table, false)
]

-- The reverse path to the source of an RREQ.
unfoldable pub learn_reverse : List RoutingEntry → Rreq → ℕ → Bytes → List RoutingEntry × Bool
learn_reverse table q index mac =
    improve table (find_route q.src_addr table) (ntohl q.discovery) (u32 (ntohl q.hop_cnt + 1))
      index mac

-- The forward path to the source of an RREP.
unfoldable pub learn_forward : List RoutingEntry → Rrep → ℕ → Bytes → List RoutingEntry
learn_forward table r index mac =
    (improve table (find_route r.src_addr table) (ntohl r.discovery) (u32 (ntohl r.hop_cnt + 1))
      index mac).0

-- `if_addr[outgoing_if-3].sll_addr`: below 3 the index is negative.
unfoldable pub if_mac : List Bytes → ℕ → Outcome Bytes
if_mac macs outgoing_if = if ltb outgoing_if 3 then fault else macs ‼ (outgoing_if - 3)
