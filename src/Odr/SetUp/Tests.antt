-- ===== src/Odr/SetUp/Tests.antt =====
-- The start of ODR.c on a node with two interfaces of interest.
use cse.Base.{
  ℕ, ◌≡◌, refl, List, [], ◌∷◌, codes, replicate, ok, fault, ltb, if◌then◌else◌, length, same, arith,
}
use cse.Odr.Types.{RoutingEntry, PortEntry, vm_addr}
use cse.Odr.Data.{start}
use cse.Odr.SetUp.{HwaInfo, set_up, look_at, look_at_all, note_node, vm_index, own_addr}
use cse.Odr.SetUp.Begun.{outer_macs, set_up_lem}

abbrev loopback : HwaInfo
loopback = record { if_index = 1; ip_text = codes "127.0.0.1"; if_haddr = replicate 6 0 }

abbrev eth0 : HwaInfo
eth0 = record { if_index = 2; ip_text = codes "130.245.156.22"; if_haddr = replicate 6 2 }

abbrev outer : ℕ → HwaInfo
outer n = record { if_index = n; ip_text = codes "192.168.1.1"; if_haddr = replicate 6 n }

abbrev hwas : List HwaInfo
hwas = loopback ∷ eth0 ∷ outer 3 ∷ outer 4 ∷ []

abbrev routes : List RoutingEntry
routes =
    replicate 10
      (record { dst_addr = []; next_hop = []; outgoing_if = 9; hop_cnt = 9; broadcast_id = 9 })

abbrev ports : List PortEntry
ports = replicate 9 (record { port = 0; sun_path = [] })

-- A node whose eth0 has none of the ten addresses uses `node` unset.
unknown_node : set_up (loopback ∷ outer 2 ∷ []) routes ports ≡ fault
unfolding set_up look_at look_at_all note_node vm_index own_addr vm_addr same
unknown_node = refl

set_up_lem_example : set_up hwas routes ports ≡ (
    if ltb 3 (length (outer_macs hwas))
    then fault
    else ok (start (codes "130.245.156.22") (outer_macs hwas) routes ports))
set_up_lem_example =
    set_up_lem (codes "130.245.156.22") hwas routes ports 1 1 eth0 (unfold vm_addr in refl)
      (
        (λ e. absurd (omega (arith, e))),
        ((λ e. refl), ((λ e. absurd (omega (arith, e))), ((λ e. absurd (omega (arith, e))), tt))),
      )
      refl refl
