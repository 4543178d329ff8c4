-- ===== src/Transfer/Parent/Children.antt =====
-- Which children the parent process of server.c forks: its lists implement one table for each socket.
use cse.Base.{
  ℕ, ◌+◌, ◌≤◌, ◌<◌, ◌≡◌, refl, ◌∙◌, inl, inr, Bytes, true, not, ◌==◌, ltb, if◌then◌else◌, List, [],
  ◌∷◌, ◌++◌, map, Option, none, some, ok, All, arith, Bool-cases,
}
use cse.Transfer.Chain.{Chain, null}
use cse.Transfer.Chain.Order.{Item, from_list, Ascends, find, keep_old}
use cse.Transfer.Clients.Once.{noted_as, on_request_lem}
use cse.Transfer.Parent.{
  Listener, largest, Client, Child, Event, interrupted, arrived, Parent, is_set, child_for,
  on_socket, on_sockets, round, rounds, start,
}

-- What the parent knows of the clients of one socket: the address that it noted for a port.
abbrev pub Table : Type 0
Table = ℕ → Option Bytes

-- A datagram: the first address of a port is noted.
abbrev pub noted : Table → Option Client → Table
noted t none = t
noted t (some client) =
    λ k. if k == client.port then keep_old (t client.port) client.ip_addr else t k

-- A datagram gets a child unless it is of the client that is noted.
abbrev pub children_of : (i : ℕ) → Table → Option Client → List Child
children_of i t none = []
children_of i t (some client) = child_for (not (noted_as (t client.port) client.ip_addr)) i client

abbrev pub table_round : (i : ℕ) → List Table → List (Option Client) → List Table × List Child
table_round i [] waiting = ([], [])
table_round i (t ∷ tables) [] = (t ∷ tables, [])
table_round i (t ∷ tables) (w ∷ waiting) =
    let rest = table_round (i + 1) tables waiting in
    (noted t w ∷ rest.0, children_of i t w ++ rest.1)

abbrev pub table_event : List Table → Event → List Table × List Child
table_event tables interrupted = (tables, [])
table_event tables (arrived waiting) = table_round 0 tables waiting

abbrev pub table_rounds : List Table → List Event → List Table × List Child
table_rounds tables [] = (tables, [])
table_rounds tables (e ∷ events) =
    let here = table_event tables e in
    let rest = table_rounds here.0 events in (rest.0, here.1 ++ rest.1)

-- A list in the order of its ports that has the clients of the table.
pub record Holds (list : Chain) (t : Table) : Type 0 where
  pub items : List Item
  pub is_list : list ≡ from_list items
  pub ascends : Ascends 0 items
  pub content : (k : ℕ) → find k items ≡ t k

-- Each socket has its list, which holds its table.
pub data Implement : List Listener → List Chain → List Table → Type 0 where
  no_sockets : Implement [] [] []
  and_socket :
      (s : Listener) {list : Chain} {t : Table} {sockets : List Listener} {lists : List Chain}
      {tables : List Table}
      → Holds list t
      → Implement sockets lists tables
      → Implement (s ∷ sockets) (list ∷ lists) (t ∷ tables)

-- A list holds the table of what is found in it.
pub found-Holds :
    (items : List Item) → Ascends 0 items → Holds (from_list items) (λ k. find k items)
found-Holds items h = record { items = items; is_list = refl; ascends = h; content = λ k. refl }

null-Holds : Holds null (λ k. none)
unfolding find
null-Holds = record { items = []; is_list = refl; ascends = tt; content = λ k. refl }

-- With zeroed memory the parent starts with no client noted.
pub start-Implement :
    (sockets : List Listener)
    → Implement sockets (start null sockets).connected (map (λ s k. none) sockets)
unfolding start
start-Implement [] = no_sockets
start-Implement (s ∷ sockets) = and_socket s null-Holds (start-Implement sockets)

-- The port of a datagram is not 0.
abbrev pub IsSent : Option Client → Type 0
IsSent none = Unit
IsSent (some client) = 0 < client.port

abbrev pub AreSent : Event → Type 0
AreSent interrupted = Unit
AreSent (arrived waiting) = All IsSent waiting

on_socket-Holds :
    (i : ℕ) (list : Chain) (t : Table) (w : Option Client)
    → Holds list t
    → IsSent w
    → (after : Chain) × (on_socket null i list w ≡ ok (after, children_of i t w))
      × Holds after (noted t w)
unfolding on_socket
on_socket-Holds i list t none h sent = (list, refl, h)
on_socket-Holds i list t (some client) h sent =
    let (ys, done, n) = on_request_lem h.items client.port client.ip_addr h.ascends sent in
    (
      from_list ys,
      rw (h.is_list, done, h.content client.port) refl,
      record {
        items = ys;
        is_list = refl;
        ascends = n.ascends;
        content = λ k. n.content k ∙ rw (h.content client.port, h.content k) refl;
      },
    )

Below : ℕ → Listener → Type 0
Below maxfdp s = s.sockfd < maxfdp

on_sockets-Implement :
    (maxfdp i : ℕ) {sockets : List Listener} {lists : List Chain} {tables : List Table}
    (waiting : List (Option Client))
    → All (Below maxfdp) sockets
    → Implement sockets lists tables
    → All IsSent waiting
    → (after : List Chain) × (on_sockets null maxfdp i sockets lists waiting
        ≡ ok (after, (table_round i tables waiting).1))
      × Implement sockets after (table_round i tables waiting).0
unfolding on_sockets is_set Below
on_sockets-Implement maxfdp i waiting below no_sockets sent = ([], refl, no_sockets)
on_sockets-Implement maxfdp i {lists = lists} [] below (and_socket s h rest) sent =
    (lists, refl, and_socket s h rest)
on_sockets-Implement maxfdp i (w ∷ waiting) below (and_socket s {list = list} {t = t} h rest) sent =
    let (list_after, one, holds) = on_socket-Holds i list t w h sent.0 in
    let (after, others, more) = on_sockets-Implement maxfdp (i + 1) waiting below.1 rest sent.1 in
    let looked : ltb s.sockfd maxfdp ≡ true = let b = below.0 in ground arith in
    (list_after ∷ after, rw (looked, one, others) refl, and_socket s holds more)

pick : ℕ → ℕ → ℕ
pick a b = if ltb a b then b else a

pick-ge : (a b : ℕ) → (a ≤ pick a b) × (b ≤ pick a b)
unfolding pick
pick-ge a b = elim (Bool-cases (ltb a b)) [
  | inl p ↦ rw p (ground arith, ground arith)
  | inr p ↦ rw p (ground arith, ground arith)
]

largest-ge : (sockets : List Listener) (maxfdp : ℕ) → maxfdp ≤ largest sockets maxfdp
unfolding largest pick
largest-ge [] maxfdp = omega arith
largest-ge (s ∷ sockets) maxfdp =
    omega (arith, largest-ge sockets (pick maxfdp s.sockfd), (pick-ge maxfdp s.sockfd).0)

largest-Below :
    (sockets : List Listener) (maxfdp top : ℕ)
    → largest sockets maxfdp < top
    → All (Below top) sockets
unfolding largest Below pick
largest-Below [] maxfdp top h = tt
largest-Below (s ∷ sockets) maxfdp top h =
    let next : ℕ = pick maxfdp s.sockfd in
    let ge : next ≤ largest sockets next = largest-ge sockets next in
    let up : s.sockfd ≤ next = (pick-ge maxfdp s.sockfd).1 in
    let under : largest sockets next < top = h in
    (omega (arith, ge, up, under), largest-Below sockets next top h)

round-Implement :
    (p : Parent) (sockets : List Listener) (tables : List Table) (e : Event)
    → Implement sockets p.connected tables
    → AreSent e
    → (q : Parent) × (round null sockets p e ≡ ok (q, (table_event tables e).1))
      × Implement sockets q.connected (table_event tables e).0
unfolding round
round-Implement p sockets tables interrupted h sent =
    (record p { maxfdp = largest sockets p.maxfdp + 1 }, refl, h)
round-Implement p sockets tables (arrived waiting) h sent =
    let top : ℕ = largest sockets p.maxfdp + 1 in
    let below : All (Below top) sockets = largest-Below sockets p.maxfdp top (omega arith) in
    let (lists, done, after) = on_sockets-Implement top 0 waiting below h sent in
    (record { maxfdp = top; connected = lists }, rw done refl, after)

-- From lists that hold these tables, with zeroed memory for a new node, the rounds for any signals and
-- datagrams whose ports are not 0 end without a fault. They fork just the children that the tables
-- call for, whatever the sockets' descriptors are, and the lists hold the tables after them.
pub rounds_lem :
    (p : Parent) (sockets : List Listener) (tables : List Table) (events : List Event)
    → Implement sockets p.connected tables
    → All AreSent events
    → (q : Parent) × (rounds null sockets p events ≡ ok (q, (table_rounds tables events).1))
      × Implement sockets q.connected (table_rounds tables events).0
unfolding rounds
rounds_lem p sockets tables [] h sent = (p, refl, h)
rounds_lem p sockets tables (e ∷ events) h sent =
    let (mid, first, held) = round-Implement p sockets tables e h sent.0 in
    let (q, others, after) = rounds_lem mid sockets (table_event tables e).0 events held sent.1 in
    (q, rw (first, others) refl, after)
