-- ===== src/Arp/SetUp.antt =====
-- What arp.c takes from the interfaces of its node before it opens its sockets.
use cse.Base.{◌<◌, ◌≡◌, ap, Bytes, List, [], ◌∷◌, Option, none, some, get_elem?, ok, fault, Outcome}
use cse.Odr.SetUp.{HwaInfo}
use cse.Arp.{Arp, vm_addr, index_of, start}
use cse.Arp.Cache.{index_of-eq}

-- `ip_addr`, whose array has `stack` in it at first.
unfoldable pub own_ip : (stack : Bytes) → Option Bytes → Bytes
own_ip stack none = stack
own_ip stack (some addr) = addr

-- The state before the first round. Without interfaces the process ends; it takes the second one
-- without a look whether there is one.
unfoldable pub set_up : List HwaInfo → (stack : Bytes) → Outcome (Option Arp)
set_up [] stack = ok none
set_up (first ∷ []) stack = fault
set_up (first ∷ hwa ∷ more) stack =
    let place = get_elem? vm_addr (index_of hwa.ip_text vm_addr) in
    ok (some (start (own_ip stack place) hwa.if_haddr))

-- On a node whose second interface has one of the ten addresses, the process begins with that address
-- and with the hardware address of that interface.
set_up_lem :
    (first hwa : HwaInfo) (more : List HwaInfo) (stack : Bytes)
    → index_of hwa.ip_text vm_addr < 10
    → set_up (first ∷ hwa ∷ more) stack ≡ ok (some (start hwa.ip_text hwa.if_haddr))
unfolding set_up own_ip vm_addr
set_up_lem first hwa more stack lt =
    ap (λ place. ok (some (start (own_ip stack place) hwa.if_haddr)))
      (index_of-eq hwa.ip_text vm_addr lt)
