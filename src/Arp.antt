-- ===== src/Arp.antt =====
-- Assignment 4/Code/arp.c: the service that resolves the IP address of a node to its hardware
-- address, with a cache of one entry for each of the ten nodes.
pub mod Cache
mod SetUp
pub mod Resolve
pub mod Lan
mod Tests
use cse.Base.{
  ℕ, suc, ◌+◌, Bytes, codes, List, [], ◌∷◌, Bool, ◌==◌, if◌then◌else◌, replicate, set, same, htons,
  ntohs, Outcome, ok, fault, ◌>>=◌, ◌‼◌,
}

unfoldable pub vm_addr : List Bytes
vm_addr =
    codes "130.245.156.21"
    ∷ codes "130.245.156.22"
    ∷ codes "130.245.156.23"
    ∷ codes "130.245.156.24"
    ∷ codes "130.245.156.25"
    ∷ codes "130.245.156.26"
    ∷ codes "130.245.156.27"
    ∷ codes "130.245.156.28"
    ∷ codes "130.245.156.29"
    ∷ codes "130.245.156.20"
    ∷ []

-- `PROTO`
abbrev pub arp_proto : ℕ
arp_proto = 9220

-- `struct hdr`
pub record Header : Type 0 where
  pub dst_mac : Bytes
  pub src_mac : Bytes
  pub proto : ℕ

-- `struct arp`; the 16-bit fields are in network byte order.
pub record ArpMessage : Type 0 where
  pub hard_type : ℕ
  pub prot_type : ℕ
  pub hard_size : ℕ
  pub prot_size : ℕ
  pub op : ℕ
  pub src_mac : Bytes
  pub src_ip : Bytes
  pub dst_mac : Bytes
  pub dst_ip : Bytes

-- `struct cache_entry`
pub record CacheEntry : Type 0 where
  pub ip_addr : Bytes
  pub mac_addr : Bytes
  pub sockfd : ℕ

-- The variables of `main` that the loop uses.
pub record Arp : Type 0 where
  pub ip_addr : Bytes
  pub mac_addr : Bytes
  pub cache : List CacheEntry

-- The calls that leave the process: a frame on the packet socket, and `write` and `close` on a
-- connection of the local tour process.
pub data Call : Type 0 where
  send : Header → ArpMessage → Call
  write : ℕ → Bytes → Call
  close : ℕ → Call

-- `bzero(cache, ...)`
unfoldable pub start : (ip_addr mac_addr : Bytes) → Arp
start ip_addr mac_addr = record {
  ip_addr = ip_addr;
  mac_addr = mac_addr;
  cache = replicate 10 (record { ip_addr = []; mac_addr = replicate 6 0; sockfd = 0 });
}

-- The index at which the loop over `vm_addr` stops: the length, when no address is the same.
unfoldable pub index_of : Bytes → List Bytes → ℕ
index_of ip [] = 0
index_of ip (addr ∷ addrs) = let rest = index_of ip addrs in if same ip addr then 0 else suc rest

abbrev pub broadcast : Bytes
broadcast = replicate 6 255

-- The answer to a request for this node: the target fields take this node's hardware address.
unfoldable pub answer_header : Arp → Header → Header
answer_header a header = record header { dst_mac = header.src_mac; src_mac = a.mac_addr }

unfoldable pub answer_message : Arp → ArpMessage → ArpMessage
answer_message a arp = record arp { op = htons 2; dst_mac = a.mac_addr }

-- A reply: the entry of the address is filled, and the connection that waits for it is answered.
unfoldable pub store : Arp → ArpMessage → Outcome (Arp × List Call)
store a arp =
    let index = index_of arp.dst_ip vm_addr in
    a.cache ‼ index >>= λ e. ok (
      record a {
        cache = set a.cache index (record e { ip_addr = arp.dst_ip; mac_addr = arp.dst_mac });
      },
      write e.sockfd arp.dst_mac ∷ close e.sockfd ∷ [],
    )

-- A frame from the packet socket.
unfoldable pub on_frame : Arp → Header → ArpMessage → Outcome (Arp × List Call)
on_frame a header arp =
    if ntohs arp.op == 1
    then (if same arp.dst_ip a.ip_addr
        then ok (a, send (answer_header a header) (answer_message a arp) ∷ [])
        else ok (a, []))
    else store a arp

-- The request that goes to all nodes.
unfoldable pub ask_header : Arp → Header
ask_header a = record { dst_mac = broadcast; src_mac = a.mac_addr; proto = htons arp_proto }

unfoldable pub ask_message : Arp → Bytes → ArpMessage
ask_message a ip = record {
  hard_type = htons 1;
  prot_type = htons 2048;
  hard_size = 6;
  prot_size = 4;
  op = htons 1;
  src_mac = a.mac_addr;
  src_ip = a.ip_addr;
  dst_mac = broadcast;
  dst_ip = ip;
}

-- The tour process has connected as `connfd` and sent the address that it wants resolved.
unfoldable pub on_connection : Arp → (connfd : ℕ) → (ip : Bytes) → Outcome (Arp × List Call)
on_connection a connfd ip =
    let index = index_of ip vm_addr in
    a.cache ‼ index >>= λ e. vm_addr ‼ index >>= λ addr.
    if same e.ip_addr addr
    then ok (a, write connfd e.mac_addr ∷ close connfd ∷ [])
    else ok (
      record a { cache = set a.cache index (record e { sockfd = connfd }) },
      send (ask_header a) (ask_message a ip) ∷ [],
    )
