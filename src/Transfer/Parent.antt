-- ===== src/Transfer/Parent.antt =====
-- The parent process of Assignment 2/Code/server.c: it opens a socket for each of its interfaces, and
-- its loop selects on them and forks a child for each new client. The list of clients of one socket
-- is that of Transfer/Clients.
pub mod Children
pub mod Again
mod Tests
use Prim.Native.Nat.{bit_and}
use cse.Base.{
  ℕ, ◌+◌, Bytes, Bool, true, false, ltb, if◌then◌else◌, List, [], ◌∷◌, ◌++◌, Option, none, some,
  map, Outcome, ok, fault, ◌>>=◌,
}
use cse.Transfer.Chain.{Chain}
use cse.Transfer.Clients.{on_request}
use cse.Transfer.Addresses.{SocketInfo}

-- `struct socket_info` of server.c.
pub record Listener : Type 0 where
  pub sockfd : ℕ
  pub address : SocketInfo
  pub subnet : ℕ

-- The loop over the interfaces fills `sockets[MAXIMUM_SOCKET]` and does not compare `socket_no` with
-- it. An interface comes with the descriptor that `socket` returns for it.
unfoldable pub open_sockets : (socket_no : ℕ) → List (ℕ × SocketInfo) → Outcome (List Listener)
open_sockets socket_no [] = ok []
open_sockets socket_no ((sockfd, s) ∷ interfaces) =
    let rest = open_sockets (socket_no + 1) interfaces in
    if ltb socket_no 10
    then (rest >>= λ sockets.
        ok (record { sockfd = sockfd; address = s; subnet = bit_and s.mask s.ip_addr } ∷ sockets))
    else fault

-- The first loop of a round, and `maxfdp++` after it.
unfoldable pub largest : List Listener → (maxfdp : ℕ) → ℕ
largest [] maxfdp = maxfdp
largest (s ∷ sockets) maxfdp = largest sockets (if ltb maxfdp s.sockfd then s.sockfd else maxfdp)

-- A datagram of a client: where it comes from.
pub record Client : Type 0 where
  pub port : ℕ
  pub ip_addr : Bytes

-- A child that is forked: by which socket, and for whom.
pub record Child : Type 0 where
  pub socket : ℕ
  pub client : Client

-- What `select` comes to: a signal, or the datagrams that wait, one for each socket or none.
pub data Event : Type 0 where
  interrupted : Event
  arrived : List (Option Client) → Event

pub record Parent : Type 0 where
  pub maxfdp : ℕ
  pub connected : List Chain

-- Before the loop. Each `connected[i]` is a node from `malloc`, whose `next` nothing sets: `memory` is
-- what stands there.
unfoldable pub start : (memory : Chain) → List Listener → Parent
start memory sockets = record { maxfdp = 0; connected = map (λ s. memory) sockets }

-- `select` looks at the descriptors below its first argument.
unfoldable pub is_set : (maxfdp : ℕ) → Listener → Option Client → Option Client
is_set maxfdp s waiting = if ltb s.sockfd maxfdp then waiting else none

abbrev pub child_for : Bool → (i : ℕ) → Client → List Child
child_for false i client = []
child_for true i client = record { socket = i; client = client } ∷ []

-- The body of the second loop for socket `i`.
unfoldable pub on_socket :
    (memory : Chain) (i : ℕ) → Chain → Option Client → Outcome (Chain × List Child)
on_socket memory i list none = ok (list, [])
on_socket memory i list (some client) =
    on_request memory list client.port client.ip_addr >>= λ (list_after, forks).
    ok (list_after, child_for forks i client)

unfoldable pub on_sockets :
    (memory : Chain) (maxfdp i : ℕ)
    → List Listener
    → List Chain
    → List (Option Client)
    → Outcome (List Chain × List Child)
on_sockets memory maxfdp i (s ∷ sockets) (list ∷ lists) (waiting ∷ more) =
    on_socket memory i list (is_set maxfdp s waiting) >>= λ (list_after, child).
    on_sockets memory maxfdp (i + 1) sockets lists more >>= λ (lists_after, children).
    ok (list_after ∷ lists_after, child ++ children)
on_sockets memory maxfdp i [] lists more = ok (lists, [])
on_sockets memory maxfdp i (s ∷ sockets) [] more = ok ([], [])
on_sockets memory maxfdp i (s ∷ sockets) (list ∷ lists) [] = ok (list ∷ lists, [])

-- A round of the loop.
unfoldable pub round :
    (memory : Chain) → List Listener → Parent → Event → Outcome (Parent × List Child)
round memory sockets p interrupted = ok (record p { maxfdp = largest sockets p.maxfdp + 1 }, [])
round memory sockets p (arrived waiting) =
    let maxfdp = largest sockets p.maxfdp + 1 in
    on_sockets memory maxfdp 0 sockets p.connected waiting >>= λ (lists, children).
    ok (record { maxfdp = maxfdp; connected = lists }, children)

-- The rounds for these events, and the children that they fork, in their order.
unfoldable pub rounds :
    (memory : Chain) → List Listener → Parent → List Event → Outcome (Parent × List Child)
rounds memory sockets p [] = ok (p, [])
rounds memory sockets p (e ∷ events) = round memory sockets p e >>= λ (after, children).
    rounds memory sockets after events >>= λ (last, others). ok (last, children ++ others)
