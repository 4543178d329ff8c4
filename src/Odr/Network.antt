-- ===== src/Odr/Network.antt =====
-- The processes ODR.c of several nodes, over Ethernet segments that lose, repeat and reorder frames.
pub mod Truth
pub mod Parts
pub mod Requests
pub mod Others
pub mod Asks
pub mod Whole
pub mod Discovery
mod Tests
use cse.Base.{
  ℕ, suc, ◌+◌, ◌≡◌, Bytes, List, [], ◌∷◌, ◌++◌, ◌==◌, if◌then◌else◌, Option, none, some, get_elem?,
  ok,
}
use cse.Odr.Types.{Frame, Action, send_frame, send_local, Odr, LocalMsg, RoutingEntry, PortEntry}
use cse.Odr.Data.{round, start}

-- The nodes by number: the address of each, the hardware addresses of its interfaces, and the segment
-- that interface number `i`, by whose index `i + 3` ODR.c sends on it, is on.
pub record Topology : Type 0 where
  pub addr : ℕ → Bytes
  pub macs : ℕ → List Bytes
  pub segment : (node i : ℕ) → Option ℕ

-- Interface `i` of node `u` and interface `k` of node `v` are on one segment.
pub record Joined (t : Topology) (u i v k : ℕ) : Type 0 where
  pub shared : ℕ
  pub one : t.segment u i ≡ some shared
  pub other : t.segment v k ≡ some shared

-- A walk over segments from a node to one that has the address, with its number of hops.
pub data Walk (t : Topology) : ℕ → Bytes → ℕ → Type 0 where
  arrived : {u : ℕ} {a : Bytes} → t.addr u ≡ a → Walk t u a 0
  hop : {u v n : ℕ} {a : Bytes} (i k : ℕ) → Joined t u i v k → Walk t v a n → Walk t u a (suc n)

-- A frame that a node sent on a socket.
pub record Transmission : Type 0 where
  pub node : ℕ
  pub socket : ℕ
  pub frame : Frame

-- A datagram that a local process gave to a node, and one that a node gave to a local process.
pub record Asked : Type 0 where
  pub node : ℕ
  pub msg : LocalMsg

pub record Told : Type 0 where
  pub node : ℕ
  pub path : Bytes
  pub text : Bytes

-- The state of each process, and all that was ever sent, asked and told.
pub record Network : Type 0 where
  pub odr : ℕ → Odr
  pub sent : List Transmission
  pub asked : List Asked
  pub told : List Told

abbrev pub frames_of : (node : ℕ) → List Action → List Transmission
frames_of node [] = []
frames_of node (send_frame socket ifindex mac frame ∷ acts) =
    record { node = node; socket = socket; frame = frame } ∷ frames_of node acts
frames_of node (send_local path text ∷ acts) = frames_of node acts

abbrev pub texts_of : (node : ℕ) → List Action → List Told
texts_of node [] = []
texts_of node (send_frame socket ifindex mac frame ∷ acts) = texts_of node acts
texts_of node (send_local path text ∷ acts) =
    record { node = node; path = path; text = text } ∷ texts_of node acts

abbrev pub asks_of : (node : ℕ) → Option LocalMsg → List Asked
asks_of node none = []
asks_of node (some m) = record { node = node; msg = m } ∷ []

-- The frame was sent by a node on the segment of interface `i` of node `u`, at any time.
abbrev pub Hears : Topology → List Transmission → (u i : ℕ) → Frame → Type 0
Hears t sent u i f =
    (j : ℕ) × (x : Transmission) × (get_elem? sent j ≡ some x)
    × (x.frame ≡ f)
    × Joined t u i x.node x.socket

-- What is readable on the sockets from number `i` on.
abbrev pub Readable : Topology → List Transmission → (u i : ℕ) → List (Option Frame) → Type 0
Readable t sent u i [] = Unit
Readable t sent u i (none ∷ frames) = Readable t sent u (i + 1) frames
Readable t sent u i (some f ∷ frames) = Hears t sent u i f × Readable t sent u (i + 1) frames

abbrev pub put_node : ℕ → Odr → (ℕ → Odr) → ℕ → Odr
put_node u s odr v = if v == u then s else odr v

-- The network after a round of node `u`.
abbrev pub after_round : Network → (u : ℕ) → Option LocalMsg → Odr × List Action → Network
after_round net u m r = record {
  odr = put_node u r.0 net.odr;
  sent = frames_of u r.1 ++ net.sent;
  asked = asks_of u m ++ net.asked;
  told = texts_of u r.1 ++ net.told;
}

-- A round of one node, in which its local processes may have sent anything.
pub data Step (t : Topology) (net : Network) : Network → Type 0 where
  round_step :
      (u : ℕ) (m : Option LocalMsg) (frames : List (Option Frame)) (r : Odr × List Action)
      → Readable t net.sent u 0 frames
      → round (net.odr u) m frames ≡ ok r
      → Step t net (after_round net u m r)

pub data Reach (t : Topology) (net : Network) : Network → Type 0 where
  begin : Reach t net net
  and_then : {mid last : Network} → Reach t net mid → Step t mid last → Reach t net last

-- Each node has its own address and interfaces, and something on its stack.
abbrev pub begun :
    Topology → (routes : ℕ → List RoutingEntry) → (ports : ℕ → List PortEntry) → Network
begun t routes ports = record {
  odr = λ u. start (t.addr u) (t.macs u) (routes u) (ports u);
  sent = [];
  asked = [];
  told = [];
}
