-- ===== src/Transfer/Parent/Again.antt =====
-- A client that the parent process of server.c has noted: it gets no child any more.
use cse.Base.{
  ℕ, zero, suc, ◌+◌, ◌≤◌, ◌≡◌, refl, subst, inl, inr, Bytes, Bool, true, false, not, same, ◌==◌,
  List, [], ◌∷◌, Option, none, some, ok, All, All-append, All-imp, get_elem?, arith, Bool-cases,
}
use cse.Transfer.Chain.{null}
use cse.Transfer.Clients.Once.{noted_as}
use cse.Transfer.Parent.{
  Listener, Client, Child, Event, interrupted, arrived, Parent, child_for, rounds,
}
use cse.Transfer.Parent.Children.{
  Table, noted, children_of, table_round, table_event, table_rounds, Implement, AreSent, rounds_lem,
}

-- The child is by another socket, or for another port or address.
abbrev pub IsOther : (i port : ℕ) → Bytes → Child → Type 0
IsOther i port ip_addr c =
    c.socket ≡ i → c.client.port ≡ port → same ip_addr c.client.ip_addr ≡ false

-- The table of this socket has the address at the port.
abbrev pub Knows : List Table → (i port : ℕ) → Bytes → Type 0
Knows tables i port ip_addr = (t : Table) × (get_elem? tables i ≡ some t) × (t port ≡ some ip_addr)

By : (ℕ → Type 0) → Child → Type 0
By P c = P c.socket

child_for-By :
    (P : ℕ → Type 0) (forks : Bool) (i : ℕ) (client : Client)
    → P i
    → All (By P) (child_for forks i client)
unfolding By
child_for-By P false i client p = tt
child_for-By P true i client p = (p, tt)

children_of-By :
    (P : ℕ → Type 0) (i : ℕ) (t : Table) (w : Option Client) → P i → All (By P) (children_of i t w)
children_of-By P i t none p = tt
children_of-By P i t (some client) p =
    child_for-By P (not (noted_as (t client.port) client.ip_addr)) i client p

-- A round from socket `i` on forks by the sockets from `i` on.
table_round-By :
    (i : ℕ) (tables : List Table) (waiting : List (Option Client))
    → All (By (λ n. i ≤ n)) (table_round i tables waiting).1
unfolding By
table_round-By i [] waiting = tt
table_round-By i (t ∷ tables) [] = tt
table_round-By i (t ∷ tables) (w ∷ waiting) =
    All-append (By (λ n. i ≤ n)) (children_of i t w) (table_round (i + 1) tables waiting).1
      (children_of-By (λ n. i ≤ n) i t w (omega arith))
      (All-imp (λ c later. omega (arith, later)) (table_round (i + 1) tables waiting).1
        (table_round-By (i + 1) tables waiting))

noted-keeps :
    (t : Table) (w : Option Client) (port : ℕ) (ip_addr : Bytes)
    → t port ≡ some ip_addr
    → noted t w port ≡ some ip_addr
noted-keeps t none port ip_addr h = h
noted-keeps t (some client) port ip_addr h = elim (Bool-cases (port == client.port)) [
  | inl p ↦ let e : client.port ≡ port = ground arith in rw (p, e, h) refl
  | inr p ↦ rw p h
]

child_for-IsOther :
    (forks : Bool) (i j : ℕ) (client : Client) (port : ℕ) (ip_addr : Bytes)
    → (forks ≡ true → client.port ≡ port → same ip_addr client.ip_addr ≡ false)
    → All (IsOther j port ip_addr) (child_for forks i client)
child_for-IsOther false i j client port ip_addr h = tt
child_for-IsOther true i j client port ip_addr h = (λ e. h refl, tt)

children_of-IsOther :
    (i j : ℕ) (t : Table) (w : Option Client) (port : ℕ) (ip_addr : Bytes)
    → t port ≡ some ip_addr
    → All (IsOther j port ip_addr) (children_of i t w)
children_of-IsOther i j t none port ip_addr h = tt
children_of-IsOther i j t (some client) port ip_addr h =
    child_for-IsOther (not (noted_as (t client.port) client.ip_addr)) i j client port ip_addr
      (λ forks same_port. go (t client.port) (simp (same_port, h) refl) forks)
  where
    go :
        (o : Option Bytes)
        → o ≡ some ip_addr
        → not (noted_as o client.ip_addr) ≡ true
        → same ip_addr client.ip_addr ≡ false
    go none e forks = absurd (cc)
    go (some ip) e forks =
        let known : ip ≡ ip_addr = cc in
        let differ : same ip client.ip_addr ≡ false = ground arith in
        subst (λ a. same a client.ip_addr ≡ false) known differ

table_round-Knows :
    (i j port : ℕ) (ip_addr : Bytes) (tables : List Table) (waiting : List (Option Client))
    → Knows tables j port ip_addr
    → Knows (table_round i tables waiting).0 j port ip_addr
table_round-Knows i j port ip_addr [] waiting (t, there, knows) = absurd (cc)
table_round-Knows i j port ip_addr (t ∷ tables) [] known = known
table_round-Knows i zero port ip_addr (t ∷ tables) (w ∷ waiting) (s, there, knows) =
    let e : t ≡ s = cc in (noted t w, refl, noted-keeps t w port ip_addr (rw e knows))
table_round-Knows i (suc j) port ip_addr (t ∷ tables) (w ∷ waiting) known =
    table_round-Knows (i + 1) j port ip_addr tables waiting known

table_round-IsOther :
    (i j port : ℕ) (ip_addr : Bytes) (tables : List Table) (waiting : List (Option Client))
    → Knows tables j port ip_addr
    → All (IsOther (i + j) port ip_addr) (table_round i tables waiting).1
unfolding By
table_round-IsOther i j port ip_addr [] waiting known = tt
table_round-IsOther i j port ip_addr (t ∷ tables) [] known = tt
table_round-IsOther i zero port ip_addr (t ∷ tables) (w ∷ waiting) (s, there, knows) =
    let e : t ≡ s = cc in
    All-append (IsOther (i + 0) port ip_addr) (children_of i t w)
      (table_round (i + 1) tables waiting).1
      (children_of-IsOther i (i + 0) t w port ip_addr (rw e knows))
      (All-imp (λ c later here. absurd (omega (arith, later, here)))
        (table_round (i + 1) tables waiting).1 (table_round-By (i + 1) tables waiting))
table_round-IsOther i (suc j) port ip_addr (t ∷ tables) (w ∷ waiting) known =
    let place : i + 1 + j ≡ i + suc j = omega arith in
    All-append (IsOther (i + suc j) port ip_addr) (children_of i t w)
      (table_round (i + 1) tables waiting).1
      (All-imp (λ c here there. absurd (omega (arith, here, there))) (children_of i t w)
        (children_of-By (λ n. n ≡ i) i t w refl))
      (subst (λ n. All (IsOther n port ip_addr) (table_round (i + 1) tables waiting).1) place
        (table_round-IsOther (i + 1) j port ip_addr tables waiting known))

table_event-lem :
    (j port : ℕ) (ip_addr : Bytes) (tables : List Table) (e : Event)
    → Knows tables j port ip_addr
    → All (IsOther j port ip_addr) (table_event tables e).1
      × Knows (table_event tables e).0 j port ip_addr
table_event-lem j port ip_addr tables interrupted known = (tt, known)
table_event-lem j port ip_addr tables (arrived waiting) known = (
  subst (λ n. All (IsOther n port ip_addr) (table_round 0 tables waiting).1) (omega arith)
      (table_round-IsOther 0 j port ip_addr tables waiting known),
  table_round-Knows 0 j port ip_addr tables waiting known,
)

table_rounds-IsOther :
    (j port : ℕ) (ip_addr : Bytes) (tables : List Table) (events : List Event)
    → Knows tables j port ip_addr
    → All (IsOther j port ip_addr) (table_rounds tables events).1
table_rounds-IsOther j port ip_addr tables [] known = tt
table_rounds-IsOther j port ip_addr tables (e ∷ events) known =
    let (here, still) = table_event-lem j port ip_addr tables e known in
    All-append (IsOther j port ip_addr) (table_event tables e).1
      (table_rounds (table_event tables e).0 events).1 here
      (table_rounds-IsOther j port ip_addr (table_event tables e).0 events still)

-- A client whose port and address a socket's list has gets no child by that socket in any later
-- round, whatever signals and datagrams with ports other than 0 come, with zeroed memory for a new
-- node: the rounds end without a fault, and each child they fork is by another socket, or for another
-- port or address.
pub rounds-IsOther :
    (p : Parent) (sockets : List Listener) (tables : List Table) (events : List Event) (i port : ℕ)
    (ip_addr : Bytes)
    → Implement sockets p.connected tables
    → All AreSent events
    → Knows tables i port ip_addr
    → (q : Parent) × (children : List Child) × (rounds null sockets p events ≡ ok (q, children))
      × All (IsOther i port ip_addr) children
rounds-IsOther p sockets tables events i port ip_addr h sent known =
    let (q, done, _) = rounds_lem p sockets tables events h sent in
    (
      q,
      (table_rounds tables events).1,
      done,
      table_rounds-IsOther i port ip_addr tables events known,
    )
