-- ===== src/Arp/Tests.antt =====
-- Runs of the model of arp.c on concrete inputs, and the theorems there.
use cse.Base.{
  ◌≢◌, get_elem?, some, ℕ, ℕ, ◌≡◌, refl, Bytes, [], ◌∷◌, false, codes, replicate, same, arith, ok,
  fault, ◌↔◌,
}
use cse.Arp.{
  Arp, CacheEntry, send, write, close, vm_addr, start, index_of, answer_header, answer_message,
  ask_header, ask_message, on_frame, on_connection,
}
use cse.Arp.Cache.{IsValid, begin, and_then, connection, reachable_cache}
use cse.Arp.Resolve.{slot_of, resolve_lem, on_connection-faults}

abbrev vm1 : Bytes
vm1 = codes "130.245.156.21"

abbrev vm3 : Bytes
vm3 = codes "130.245.156.23"

abbrev asker : Arp
asker = start vm1 (replicate 6 1)

abbrev target : Arp
target = start vm3 (replicate 6 3)

abbrev no_entry : CacheEntry
no_entry = record { ip_addr = []; mac_addr = replicate 6 0; sockfd = 0 }

vm3_slot : slot_of target.ip_addr ≡ 2
unfolding index_of vm_addr same start
vm3_slot = refl

-- After a request for VM3 on connection 5.
abbrev asked : Arp
asked = record asker {
  cache = no_entry ∷ no_entry ∷ record no_entry { sockfd = 5 } ∷ replicate 7 no_entry;
}

asks : on_connection asker 5 vm3 ≡ ok (asked, send (ask_header asker) (ask_message asker vm3) ∷ [])
unfolding on_connection index_of vm_addr same start ask_header ask_message
asks = refl

asked-IsValid : IsValid asked
asked-IsValid =
    reachable_cache vm1 (replicate 6 1) (and_then begin (connection asker 5 vm3 (asked, _) asks))

resolve_lem_example :
    (a1 a2 : Arp) × (on_connection asker 5 target.ip_addr
      ≡ ok (a1, send (ask_header asker) (ask_message asker target.ip_addr) ∷ []))
    × ((c : Arp)
        → same target.ip_addr c.ip_addr ≡ false
        → on_frame c (ask_header asker) (ask_message asker target.ip_addr) ≡ ok (c, []))
    × (on_frame target (ask_header asker) (ask_message asker target.ip_addr)
        ≡ ok (
          target,
          send
                (answer_header target (ask_header asker))
                (answer_message target (ask_message asker target.ip_addr))
              ∷ [],
        ))
    × ((answer_header target (ask_header asker)).dst_mac ≡ asker.mac_addr)
    × (on_frame a1
          (answer_header target (ask_header asker))
          (answer_message target (ask_message asker target.ip_addr))
        ≡ ok (a2, write 5 target.mac_addr ∷ close 5 ∷ []))
    × ((fd' : ℕ)
        → on_connection a2 fd' target.ip_addr ≡ ok (a2, write fd' target.mac_addr ∷ close fd' ∷ []))
resolve_lem_example =
    resolve_lem asker target 5 {e = no_entry} (omega (arith, vm3_slot))
      (unfold index_of vm_addr same start in refl) (unfold same start in refl)

on_connection-faults_example :
    (on_connection asked 7 (codes "10.0.0.1") ≢ fault)
    ↔ ((i : ℕ) × (get_elem? vm_addr i ≡ some (codes "10.0.0.1")))
on_connection-faults_example = on_connection-faults asked 7 (codes "10.0.0.1") asked-IsValid
