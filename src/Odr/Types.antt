-- ===== src/Odr/Types.antt =====
-- The structures of Assignment 3/Code/ODR.c. An integer that goes over the network is kept as the
-- 32 bits that stand in memory, so `htonl` and `ntohl` are written where the code has them.
use cse.Base.{ℕ, Bytes, List, [], ◌∷◌, codes, replicate}

-- `vm_addr`, the addresses of the ten nodes.
unfoldable pub vm_addr : List Bytes
vm_addr =
    codes "130.245.156.21"
    ∷ codes "130.245.156.22"
    ∷ codes "130.245.156.23"
    ∷ codes "130.245.156.24"
    ∷ codes "130.245.156.25"
    ∷ codes "130.245.156.26"
    ∷ codes "130.245.156.27"
    ∷ codes "130.245.156.28"
    ∷ codes "130.245.156.29"
    ∷ codes "130.245.156.20"
    ∷ []

-- `struct routing_entry`; `outgoing_if` 0 says that there is no route.
pub record RoutingEntry : Type 0 where
  pub dst_addr : Bytes
  pub next_hop : Bytes
  pub outgoing_if : ℕ
  pub hop_cnt : ℕ
  pub broadcast_id : ℕ

-- `struct port_entry`
pub record PortEntry : Type 0 where
  pub port : ℕ
  pub sun_path : Bytes

-- `struct RREQ`
pub record Rreq : Type 0 where
  pub src_addr : Bytes
  pub dst_addr : Bytes
  pub src_port : ℕ
  pub broadcast_id : ℕ
  pub hop_cnt : ℕ
  pub rrep_sent : ℕ
  pub discovery : ℕ

-- `struct RREP`
pub record Rrep : Type 0 where
  pub src_addr : Bytes
  pub dst_addr : Bytes
  pub dst_port : ℕ
  pub hop_cnt : ℕ
  pub discovery : ℕ

-- `struct payload`
pub record Payload : Type 0 where
  pub src_addr : Bytes
  pub dst_addr : Bytes
  pub src_port : ℕ
  pub dst_port : ℕ
  pub hop_cnt : ℕ
  pub len : ℕ
  pub message : Bytes

-- What follows the header, by the header's `type`: 0, 1, and anything else.
pub data Body : Type 0 where
  rreq : Rreq → Body
  rrep : Rrep → Body
  payload : Payload → Body

-- An Ethernet frame: `struct hdr`, whose `type` is the constructor of the body, and the body.
pub record Frame : Type 0 where
  pub dst_mac : Bytes
  pub src_mac : Bytes
  pub proto : ℕ
  pub body : Body

-- The calls of `sendto`: on `if_fd[socket]` with the interface and the address of `send_if_addr`,
-- and on the UNIX domain socket.
pub data Action : Type 0 where
  send_frame : (socket ifindex : ℕ) → Bytes → Frame → Action
  send_local : (path message : Bytes) → Action

-- `htons(PROTO)` with `PROTO` 0x4042.
abbrev pub proto_bits : ℕ
proto_bits = 0x4240

-- ff:ff:ff:ff:ff:ff
abbrev pub broadcast_mac : Bytes
broadcast_mac = replicate 6 0xff

-- The variables of `main` that live across the rounds of its loop, and the globals. `if_macs` are
-- the addresses of `if_addr[0 .. if_cnt)`; `node_addr` is `vm_addr[node-1]`; `local_path` is
-- `localaddr.sun_path`.
pub record Odr : Type 0 where
  pub node_addr : Bytes
  pub if_macs : List Bytes
  pub routing_table : List RoutingEntry
  pub port_table : List PortEntry
  pub port_cnt : ℕ
  pub port : ℕ
  pub broadcast_id : ℕ
  pub local_path : Bytes

-- A datagram from a local process: its address, and what `sscanf` reads from its text.
pub record LocalMsg : Type 0 where
  pub sun_path : Bytes
  pub dst_addr : Bytes
  pub dst_port : ℕ
  pub message : Bytes
  pub flag : ℕ
