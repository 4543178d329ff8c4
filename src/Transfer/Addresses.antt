-- ===== src/Transfer/Addresses.antt =====
-- The addresses of a transfer of Assignment 2/Code: how client.c chooses its own by the interfaces of
-- its host, and how server.c tells whether a client is local. Addresses are in host order.
pub mod Local
mod Tests
use Prim.Native.Nat.{bit_and}
use cse.Base.{
  ltb, length, fault, ℕ, ◌+◌, Bool, true, false, ◌||◌, List, [], ◌∷◌, ◌==◌, if◌then◌else◌, Outcome,
  ok, ◌>>=◌, ◌‼◌,
}

-- `struct socket_info` of client.c.
pub record SocketInfo : Type 0 where
  pub ip_addr : ℕ
  pub mask : ℕ

-- `127.0.0.1`
abbrev pub loopback : ℕ
loopback = 0x7f000001

-- What the loop over the interfaces finds: the server is this host, or it is in the network of the
-- interface with this index, or neither.
pub data Place : Type 0 where
  same_host : Place
  same_network : ℕ → Place
  elsewhere : Place

unfoldable pub place : (server : ℕ) → List SocketInfo → (i : ℕ) → Place
place server [] i = elsewhere
place server (s ∷ sockets) i =
    let rest = place server sockets (i + 1) in
    if s.ip_addr == server
    then same_host
    else if bit_and server s.mask == bit_and s.ip_addr s.mask
    then same_network i
    else rest

-- The addresses that the client binds and connects to, and whether `SO_DONTROUTE` is set.
pub record Addresses : Type 0 where
  pub server_addr : ℕ
  pub client_addr : ℕ
  pub dont_route : Bool

-- A server with the address 127.0.0.1 that no interface matches leaves the client's address 0.
unfoldable pub by_place : (server : ℕ) → List SocketInfo → Place → Outcome Addresses
by_place server sockets same_host =
    ok (record { server_addr = loopback; client_addr = loopback; dont_route = true })
by_place server sockets (same_network i) =
    if server == loopback
    then ok (record { server_addr = server; client_addr = 0; dont_route = true })
    else (sockets ‼ i >>= λ s.
        ok (record { server_addr = server; client_addr = s.ip_addr; dont_route = true }))
by_place server sockets elsewhere =
    if server == loopback
    then ok (record { server_addr = server; client_addr = 0; dont_route = true })
    else (sockets ‼ 1 >>= λ s.
        ok (record { server_addr = server; client_addr = s.ip_addr; dont_route = false }))

-- The array of the interfaces has ten places, and the loop that fills it does not look.
unfoldable pub choose_addresses : (server : ℕ) → List SocketInfo → Outcome Addresses
choose_addresses server sockets =
    if ltb 10 (length sockets) then fault else by_place server sockets (place server sockets 0)

-- The test of server.c for a client that came in by interface `i`, whose `subnet` is
-- `mask & ip_addr`.
unfoldable pub is_local : (i : ℕ) → SocketInfo → (client : ℕ) → Bool
is_local i s client = i == 0 || bit_and s.mask client == bit_and s.mask s.ip_addr
