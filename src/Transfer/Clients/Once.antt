-- ===== src/Transfer/Clients/Once.antt =====
-- Which requests of server.c's clients fork a child.
use cse.Base.{
  ℕ, ◌<◌, ◌≡◌, refl, inl, inr, Bytes, List, [], ◌∷◌, Option, none, some, Bool, true, false, not,
  ◌==◌, if◌then◌else◌, same, ok, arith, Bool-cases, ==_refl,
}
use cse.Transfer.Chain.{null, duplicate_node}
use cse.Transfer.Chain.Order.{
  Item, from_list, Ascends, find, find_low, keep_old, insert_link_list_lem,
}
use cse.Transfer.Clients.{on_request}

-- Whether the address is noted for the port.
abbrev pub noted_as : Option Bytes → Bytes → Bool
noted_as none ip_addr = false
noted_as (some ip) ip_addr = same ip ip_addr

if_true : (b : Bool) → (if b then ok true else ok false) ≡ ok b
if_true true = refl
if_true false = refl

duplicate_node-find :
    (xs : List Item) (low port : ℕ) (ip_addr : Bytes)
    → Ascends low xs
    → duplicate_node (from_list xs) port ip_addr ≡ ok (noted_as (find port xs) ip_addr)
unfolding duplicate_node find
duplicate_node-find [] low port ip_addr a = refl
duplicate_node-find ((s, l) ∷ xs) low port ip_addr a = elim (Bool-cases (s == port)) [
  | inl p ↦
      rw (p, duplicate_node-find xs s port ip_addr a.1, find_low xs s port (ground arith) a.1)
        (if_true (same l ip_addr))
  | inr p ↦ rw p (duplicate_node-find xs s port ip_addr a.1)
]

-- The clients noted after a request: the list `xs` with the client at its port, unless another has it.
pub record IsNoted (xs ys : List Item) (port : ℕ) (ip_addr : Bytes) : Type 0 where
  pub ascends : Ascends 0 ys
  pub content :
      (k : ℕ) → find k ys ≡ (if k == port then keep_old (find port xs) ip_addr else find k xs)

noted_already :
    (xs : List Item) (port k : ℕ) (ip_addr : Bytes)
    → noted_as (find port xs) ip_addr ≡ true
    → find k xs ≡ (if k == port then keep_old (find port xs) ip_addr else find k xs)
noted_already xs port k ip_addr h = elim (Bool-cases (k == port)) [
  | inl p ↦ let e : k ≡ port = ground arith in rw (p, e) (kept (find port xs) h)
  | inr p ↦ rw p refl
]
  where
    kept : (o : Option Bytes) → noted_as o ip_addr ≡ true → o ≡ keep_old o ip_addr
    kept none q = absurd (ground arith)
    kept (some l) q = refl

-- A request to a list in the order of its ports, with zeroed memory for a new node and a port above
-- 0, forks a child unless just this client, port and address, is noted. Afterwards the list is in
-- order, and has the client at its port, or the client that had the port before, and the other
-- clients as they were.
pub on_request_lem :
    (xs : List Item) (port : ℕ) (ip_addr : Bytes)
    → Ascends 0 xs
    → 0 < port
    → (ys : List Item) × (on_request null (from_list xs) port ip_addr
        ≡ ok (from_list ys, not (noted_as (find port xs) ip_addr)))
      × IsNoted xs ys port ip_addr
unfolding on_request
on_request_lem xs port ip_addr a pos = elim (Bool-cases (noted_as (find port xs) ip_addr)) [
  | inl p ↦ (
    xs,
    rw (duplicate_node-find xs 0 port ip_addr a, p) refl,
    record { ascends = a; content = λ k. noted_already xs port k ip_addr p },
  )
  | inr p ↦
      let (ys, done, ascends, content, _) = insert_link_list_lem xs 0 port ip_addr a pos in
      (
        ys,
        rw (duplicate_node-find xs 0 port ip_addr a, p, done) refl,
        record { ascends = ascends; content = content },
      )
]

-- A client whose port another client has, from another address, gets a child for its request and
-- another one when it repeats it, and the other client is still the one that is noted.
requests_again :
    (xs : List Item) (port : ℕ) (ip_addr other : Bytes)
    → Ascends 0 xs
    → 0 < port
    → find port xs ≡ some other
    → same other ip_addr ≡ false
    → (ys zs : List Item) × (on_request null (from_list xs) port ip_addr ≡ ok (from_list ys, true))
      × (on_request null (from_list ys) port ip_addr ≡ ok (from_list zs, true))
      × (find port zs ≡ some other)
requests_again xs port ip_addr other a pos taken differs =
    let (ys, first, n) = on_request_lem xs port ip_addr a pos in
    let (zs, second, n') = on_request_lem ys port ip_addr n.ascends pos in
    let now : find port ys ≡ some other = rw (==_refl port, taken) at (n.content port) in
    (
      ys,
      zs,
      rw (taken, differs) at first,
      rw (now, differs) at second,
      rw (==_refl port, now) at (n'.content port),
    )
