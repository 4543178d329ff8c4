-- ===== src/Transfer/Addresses/Tests.antt =====
-- The choice of addresses on a host with two interfaces.
use cse.Base.{zero, suc, some, ◌≡◌, refl, true, List, [], ◌∷◌, ok, arith}
use cse.Transfer.Addresses.{
  SocketInfo, loopback, Addresses, place, by_place, choose_addresses, is_local,
}
use cse.Transfer.Addresses.Local.{
  IsChoice, IsForeign, HasMask, choose_addresses_lem, is_local-agrees,
}

abbrev host : List SocketInfo
host =
    record { ip_addr = loopback; mask = 0xff000000 }
    ∷ record { ip_addr = 0x82f59c15; mask = 0xffffff00 }
    ∷ []

choose_addresses_lem_example :
    (r : Addresses) × (choose_addresses 0x82f59c16 host ≡ ok r) × IsChoice 0x82f59c16 host r
choose_addresses_lem_example = choose_addresses_lem 0x82f59c16 host refl (omega arith) (omega arith)

abbrev server_side : SocketInfo
server_side = record { ip_addr = 0x82f59c16; mask = 0xffffff00 }

abbrev chosen : Addresses
chosen = record { server_addr = 0x82f59c16; client_addr = 0x82f59c15; dont_route = true }

host_chooses : choose_addresses 0x82f59c16 host ≡ ok chosen
unfolding choose_addresses place by_place
host_chooses = refl

host-IsForeign : IsForeign 0x82f59c16 host
host-IsForeign s (zero, there) e =
    let d : some (record { ip_addr = loopback; mask = 0xff000000 }) ≡ some s = there in
    absurd (ground arith)
host-IsForeign s (suc zero, there) e = absurd (ground arith)
host-IsForeign s (suc (suc j), there) e = absurd (ground arith)

host-HasMask : HasMask 0x82f59c15 0xffffff00 host
host-HasMask s (zero, there) e = absurd (ground arith)
host-HasMask s (suc zero, there) e = ground arith
host-HasMask s (suc (suc j), there) e = absurd (ground arith)

is_local-agrees_example : is_local 1 server_side 0x82f59c15 ≡ true
is_local-agrees_example =
    is_local-agrees 0 server_side host {r = chosen} refl (omega arith) (omega arith) host-IsForeign
      host_chooses host-HasMask
