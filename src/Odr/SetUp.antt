-- ===== src/Odr/SetUp.antt =====
-- What ODR.c takes from the interfaces of its node before it opens its sockets.
pub mod Begun
mod Tests
use cse.Base.{
  ℕ, suc, ◌+◌, ◌-◌, Bytes, List, [], ◌∷◌, ◌++◌, Option, none, some, ltb, ◌==◌, if◌then◌else◌,
  length, same, Outcome, ok, fault, ◌>>=◌, ◌‼◌,
}
use cse.Odr.Types.{RoutingEntry, PortEntry, Odr, vm_addr}
use cse.Odr.Data.{start}

-- What the code reads of a `struct hwa_info`: `ip_text` is what `Sock_ntop_host` makes of its address.
pub record HwaInfo : Type 0 where
  pub if_index : ℕ
  pub ip_text : Bytes
  pub if_haddr : Bytes

-- `node`, which nothing sets at first, and the addresses of `if_addr[0 .. if_cnt)`; the indices in
-- `if_addr` are read by `bind` only, and the loop over the sockets sends by the number of the socket.
pub record Interfaces : Type 0 where
  pub node : Option ℕ
  pub if_macs : List Bytes

-- The loop over `vm_addr`: the index of the address, or 10.
unfoldable pub vm_index : Bytes → List Bytes → ℕ
vm_index addr [] = 0
vm_index addr (a ∷ addrs) = let rest = vm_index addr addrs in if same addr a then 0 else suc rest

unfoldable pub note_node : Option ℕ → Bytes → Option ℕ
note_node old addr =
    let index = vm_index addr vm_addr in if ltb index 10 then some (index + 1) else old

-- The body of the loop over the interfaces. `if_addr` has three places.
unfoldable pub look_at : HwaInfo → Interfaces → Outcome Interfaces
look_at hwa found =
    if hwa.if_index == 1
    then ok found
    else if hwa.if_index == 2
    then ok (record found { node = note_node found.node hwa.ip_text })
    else if ltb (length found.if_macs) 3
    then ok (record found { if_macs = found.if_macs ++ (hwa.if_haddr ∷ []) })
    else fault

unfoldable pub look_at_all : List HwaInfo → Interfaces → Outcome Interfaces
look_at_all [] found = ok found
look_at_all (hwa ∷ more) found = look_at hwa found >>= λ next. look_at_all more next

-- `vm_addr[node-1]`, by a `node` that may be unset.
unfoldable pub own_addr : Option ℕ → Outcome Bytes
own_addr none = fault
own_addr (some node) = vm_addr ‼ (node - 1)

-- The state before the first round, from the interfaces of the node.
unfoldable pub set_up : List HwaInfo → List RoutingEntry → List PortEntry → Outcome Odr
set_up hwas routes ports = look_at_all hwas (record { node = none; if_macs = [] }) >>= λ found.
    own_addr found.node >>= λ own. ok (start own found.if_macs routes ports)
