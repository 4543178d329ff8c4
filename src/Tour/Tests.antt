-- ===== src/Tour/Tests.antt =====
-- Runs of the model of tour.c on concrete inputs, and the theorems there.
use cse.Base.{none, ℕ, ◌<◌, ◌≡◌, refl, Bytes, List, [], ◌∷◌, codes, arith, ok}
use cse.Tour.{
  RoutePacket, Tour, multicast, vm_addr, atoi_one, named_node, named_nodes, first_packet, sig_alrm,
  end_text,
}
use cse.Tour.Journey.{travel, travel-first_packet}
use cse.Tour.Ending.{ticks, IsPinging, tour_ends}

abbrev node_at : ℕ → Tour
node_at k = record { node = k; visited = 0; option = 0; last_node = 0; pings = [] }

-- The tour of the nodes 3, 10 and 3 again.
abbrev arguments : List Bytes
arguments = codes "vm3" ∷ codes "vm10" ∷ codes "vm3" ∷ []

vm3 : named_node (codes "vm3") ≡ ok (codes "130.245.156.23")
unfolding named_node atoi_one vm_addr
vm3 = refl

travel-first_packet_example :
    (p : RoutePacket) × (first_packet 1 arguments ≡ ok p)
    × (travel (node_at 3 ∷ node_at 10 ∷ node_at 3 ∷ []) p
        ≡ ok (codes "130.245.156.23" ∷ codes "130.245.156.20" ∷ codes "130.245.156.23" ∷ [], none))
travel-first_packet_example =
    travel-first_packet 1 arguments (node_at 3 ∷ node_at 10 ∷ node_at 3 ∷ [])
      {own = codes "130.245.156.21"} (unfold vm_addr in refl) (omega arith)
      (unfold named_nodes named_node atoi_one vm_addr in refl)
      (unfold vm_addr in
        (((_, refl), omega arith), (((_, refl), omega arith), (((_, refl), omega arith), tt))))
      refl

abbrev pinging : ℕ → Tour
pinging k = record (node_at 3) {
  last_node = 1;
  pings = record { addr = codes "130.245.156.22"; cnt = k } ∷ [];
}

tour_ends_example :
    ((k : ℕ) → k < 2 → IsPinging (ticks k (pinging 3)))
    × (sig_alrm (ticks 2 (pinging 3)) ≡ (ticks 2 (pinging 3), multicast (end_text 3) ∷ []))
tour_ends_example = tour_ends 2 (pinging 3) _ [] refl refl refl refl
