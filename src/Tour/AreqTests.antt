-- ===== src/Tour/AreqTests.antt =====
-- A call of `areq` of tour.c on node 1 for the address of node 3.
use cse.Base.{◌≡◌, refl, [], codes, replicate, same, arith}
use cse.Arp.{Arp, start, index_of, vm_addr}
use cse.Arp.Resolve.{slot_of}
use cse.Tour.Areq.{Resolves, areq-Resolves}

abbrev asker : Arp
asker = start (codes "130.245.156.21") (replicate 6 1)

abbrev target : Arp
target = start (codes "130.245.156.23") (replicate 6 3)

target_slot : slot_of target.ip_addr ≡ 2
unfolding index_of vm_addr same start
target_slot = refl

areq-Resolves_example : Resolves asker target 5 [] (replicate 8 0) []
unfolding start
areq-Resolves_example =
    areq-Resolves asker target 5 [] (replicate 8 0) []
      {e = record { ip_addr = []; mac_addr = replicate 6 0; sockfd = 0 }} (ground arith)
      (omega arith) refl (omega (arith, target_slot)) (unfold index_of vm_addr same in refl)
      (unfold same in refl)
