-- ===== src/Odr/Network/Discovery/Tests.antt =====
-- A route discovery, and a request, over a node between the source and the destination.
use cse.Base.{
  ℕ, ◌+◌, ◌≡◌, ◌≢◌, refl, sym, ap, ◌∙◌, Bytes, [], ◌∷◌, some, true, false, codes, replicate,
  get_elem?, same, same_refl, ◌==◌, if◌then◌else◌, arith,
}
use cse.Odr.Types.{RoutingEntry, PortEntry, LocalMsg, vm_addr}
use cse.Odr.Network.{Topology, Network, Reach, begun}
use cse.Odr.Network.Discovery.{RoutesTo, Trail, ends, goes_on}
use cse.Odr.Network.Discovery.Leads.{Leads}
use cse.Odr.Network.Discovery.Found.{discovery_succeeds}
use cse.Odr.Network.Discovery.Arrives.{client_load, request_arrives}
use cse.Odr.Data.{load_text}

abbrev vm2 : Bytes
vm2 = codes "130.245.156.22"

abbrev vm3 : Bytes
vm3 = codes "130.245.156.23"

abbrev vm4 : Bytes
vm4 = codes "130.245.156.24"

-- VM2 and VM4 have one interface each, on the two segments of VM3.
abbrev line : Topology
line = record {
  addr = λ u. if u == 0 then vm2 else if u == 1 then vm3 else vm4;
  macs = λ u. replicate 6 u ∷ replicate 6 (u + 16) ∷ [];
  segment = λ u i. if u == 0 then some 7 else if u == 1 then some (7 + i) else some 8;
}

abbrev asks : LocalMsg
asks = record {
  sun_path = codes "temp.1";
  dst_addr = vm4;
  dst_port = 5000;
  message = codes "HI";
  flag = 0;
}

abbrev no_entry : RoutingEntry
no_entry = record { dst_addr = []; next_hop = []; outgoing_if = 9; hop_cnt = 9; broadcast_id = 0 }

abbrev no_port : PortEntry
no_port = record { port = 0; sun_path = [] }

differ : (a b : Bytes) → same a b ≡ false → a ≢ b
differ a b h e = let t : false ≡ true = sym h ∙ (ap (same a) (sym e) ∙ same_refl a) in absurd (cc)

over_vm3 : Trail line vm2 vm4 0 0 (1 ∷ 2 ∷ [])
over_vm3 =
    goes_on 1 0 1 (record { shared = 7; one = refl; other = refl }) (omega arith) (omega arith)
      (λ e. absurd (omega (arith, e))) (differ vm3 vm4 (unfold same in refl))
      (differ vm3 vm2 (unfold same in refl)) ((λ e. absurd (omega (arith, e))), tt)
      (ends 2 0 (record { shared = 8; one = refl; other = refl }) (omega arith) refl)

discovery_succeeds_example :
    (last : Network) × Reach line
      (begun line (λ u. replicate 10 no_entry) (λ u. replicate 9 no_port))
      last
    × RoutesTo line vm4 0 0 (last.odr 0)
    × Leads line vm4 last.odr 0 0 (1 ∷ 2 ∷ [])
discovery_succeeds_example =
    discovery_succeeds line (λ u. replicate 10 no_entry) (λ u. replicate 9 no_port) 0 0 (1 ∷ 2 ∷ [])
      asks 1 3 (λ w. refl) (λ w. refl) (λ w. omega arith) (unfold vm_addr in refl)
      (unfold vm_addr in refl) (differ vm2 vm4 (unfold same in refl)) (unfold same in refl)
      (omega arith) (omega arith)
      ((λ e. absurd (omega (arith, e))), ((λ e. absurd (omega (arith, e))), tt)) over_vm3

request_arrives_example :
    (last : Network) × (node : ℕ) × Reach line
      (begun line (λ u. replicate 10 no_entry) (λ u. replicate 9 no_port))
      last
    × (line.addr node ≡ vm4)
    × (get_elem? last.told 0
        ≡ some (record {
          node = node;
          path = codes "240411";
          text = load_text (client_load line 0 asks);
        }))
request_arrives_example =
    request_arrives line (λ u. replicate 10 no_entry) (λ u. replicate 9 no_port) 0 0 (1 ∷ 2 ∷ [])
      asks 1 3 (λ w. refl) (λ w. refl) (λ w. omega arith) (unfold vm_addr in refl)
      (unfold vm_addr in refl) (differ vm2 vm4 (unfold same in refl)) (unfold same in refl)
      (omega arith) (omega arith) (omega arith)
      ((λ e. absurd (omega (arith, e))), ((λ e. absurd (omega (arith, e))), tt)) over_vm3
