-- ===== src/Transfer/Addresses/Local.antt =====
-- When client.c and server.c of Assignment 2/Code take each other for local.
use Prim.Native.Nat.{bit_and, digits, bit_and-bitwise, min}
use cse.Base.{
  ltb, ℕ, zero, suc, ◌+◌, ◌/◌, ◌≤◌, ◌≡◌, ◌≢◌, refl, sym, ap, subst, ◌∙◌, inl, inr, true, false,
  List, [], ◌∷◌, some, ◌==◌, ==_iff, get_elem?, get_elem?_total, length, ◌↔◌, ok, Bool-cases, arith,
}
use cse.Transfer.Addresses.{
  SocketInfo, loopback, Place, same_host, same_network, elsewhere, place, Addresses, by_place,
  choose_addresses, is_local,
}

and_digits : ℕ → ℕ → ℕ → ℕ
and_digits fuel a b = digits (λ b. zero) min fuel a b

digits_none : (n a : ℕ) → a ≤ n → and_digits n a 0 ≡ 0
unfolding and_digits
digits_none zero zero h = refl
digits_none zero (suc a) h = absurd (omega arith)
digits_none (suc n) zero h = refl
digits_none (suc n) (suc a) h = omega (arith, digits_none n (suc a / 2) (omega arith))

zero_digits : (n b : ℕ) → and_digits n 0 b ≡ 0
unfolding and_digits
zero_digits zero b = refl
zero_digits (suc n) b = refl

digits_comm : (n m a b : ℕ) → a ≤ n → b ≤ m → and_digits n a b ≡ and_digits m b a
unfolding and_digits
digits_comm n m zero b h k = zero_digits n b ∙ sym (digits_none m b k)
digits_comm n m (suc a) zero h k = digits_none n (suc a) h ∙ sym (zero_digits m (suc a))
digits_comm (suc n) (suc m) (suc a) (suc b) h k =
    omega (arith, digits_comm n m (suc a / 2) (suc b / 2) (omega arith) (omega arith))
digits_comm zero m (suc a) (suc b) h k = absurd (omega arith)
digits_comm (suc n) zero (suc a) (suc b) h k = absurd (omega arith)

bit_and_comm : (a b : ℕ) → bit_and a b ≡ bit_and b a
unfolding and_digits
bit_and_comm a b =
    bit_and-bitwise a b
    ∙ (digits_comm a b a b (omega arith) (omega arith) ∙ sym (bit_and-bitwise b a))

-- An interface of the host.
abbrev pub Has : List SocketInfo → SocketInfo → Type 0
Has sockets s = (j : ℕ) × (get_elem? sockets j ≡ some s)

-- The server is on the network of the interface.
abbrev pub SameNetwork : ℕ → SocketInfo → Type 0
SameNetwork server s = bit_and server s.mask ≡ bit_and s.ip_addr s.mask

-- The interface has neither the server's address nor its network.
abbrev pub Apart : ℕ → SocketInfo → Type 0
Apart server s = (s.ip_addr ≢ server) × (bit_and server s.mask ≢ bit_and s.ip_addr s.mask)

-- What the loop promises of its result.
abbrev Found : ℕ → List SocketInfo → ℕ → Place → Type 0
Found server sockets i same_host = (s : SocketInfo) × Has sockets s × (s.ip_addr ≡ server)
Found server sockets i (same_network n) =
    (j : ℕ) × (s : SocketInfo) × (n ≡ i + j) × (get_elem? sockets j ≡ some s) × SameNetwork server s
Found server sockets i elsewhere =
    (j : ℕ) (s : SocketInfo) → get_elem? sockets j ≡ some s → Apart server s

later :
    {server : ℕ} (s : SocketInfo) (sockets : List SocketInfo) (i : ℕ) (p : Place)
    → Apart server s
    → Found server sockets (i + 1) p
    → Found server (s ∷ sockets) i p
later s sockets i same_host apart (t, (j, there), e) = (t, (suc j, there), e)
later s sockets i (same_network n) apart (j, t, at_j, there, e) = (suc j, t, omega arith, there, e)
later {server} s sockets i elsewhere apart none_there = go
  where
    go : (j : ℕ) (t : SocketInfo) → get_elem? (s ∷ sockets) j ≡ some t → Apart server t
    go zero t there = let e : some s ≡ some t = there in subst (Apart server) (cc) apart
    go (suc j) t there = none_there j t there

place-Found :
    (server : ℕ) (sockets : List SocketInfo) (i : ℕ)
    → Found server sockets i (place server sockets i)
unfolding place
place-Found server [] i = λ j s there. absurd (cc)
place-Found server (s ∷ sockets) i = elim (Bool-cases (s.ip_addr == server)) [
  | inl e ↦ rw e (s, (0, refl), ground arith)
  | inr e ↦ elim (Bool-cases (bit_and server s.mask == bit_and s.ip_addr s.mask)) [
    | inl f ↦ rw (e, f) (0, s, omega arith, refl, (==_iff _ _).0 f)
    | inr f ↦
        let apart : Apart server s =
          (λ g. let d = (==_iff _ _).1 g in cc, λ g. let d = (==_iff _ _).1 g in cc) in
        rw (e, f)
          (later s sockets i (place server sockets (i + 1)) apart
            (place-Found server sockets (i + 1)))
  ]
]

-- The choices of the client. With `SO_DONTROUTE`: both addresses are 127.0.0.1, and the server's is
-- one of this host; or the client's address is that of an interface whose network the server is in.
-- Without it: no interface has the server's address or its network, and the client's address is
-- that of the second interface.
pub data IsChoice (server : ℕ) (sockets : List SocketInfo) : Addresses → Type 0 where
  by_loopback :
      (s : SocketInfo)
      → Has sockets s
      → s.ip_addr ≡ server
      → IsChoice server sockets
          (record { server_addr = loopback; client_addr = loopback; dont_route = true })
  by_network :
      (s : SocketInfo)
      → Has sockets s
      → SameNetwork server s
      → IsChoice server sockets
          (record { server_addr = server; client_addr = s.ip_addr; dont_route = true })
  by_second :
      (s : SocketInfo)
      → get_elem? sockets 1 ≡ some s
      → ((j : ℕ) (t : SocketInfo) → get_elem? sockets j ≡ some t → Apart server t)
      → IsChoice server sockets
          (record { server_addr = server; client_addr = s.ip_addr; dont_route = false })

by_place-IsChoice :
    (server : ℕ) (sockets : List SocketInfo) (p : Place)
    → (server == loopback) ≡ false
    → 2 ≤ length sockets
    → Found server sockets 0 p
    → (r : Addresses) × (by_place server sockets p ≡ ok r) × IsChoice server sockets r
unfolding by_place
by_place-IsChoice server sockets same_host usual two (s, there, e) =
    (_, refl, by_loopback s there e)
by_place-IsChoice server sockets (same_network i) usual two (j, s, at_j, there, e) =
    let here : get_elem? sockets i ≡ some s = ap (get_elem? sockets) (at_j ∙ omega arith) ∙ there in
    (_, rw (usual, here) refl, by_network s (j, there) e)
by_place-IsChoice server sockets elsewhere usual two apart =
    let (s, second) = get_elem?_total sockets 1 (omega arith) in
    (_, rw (usual, second) refl, by_second s second apart)

-- On a host with two to ten interfaces, and with a server whose address is not given as 127.0.0.1, the
-- client comes to a choice: it binds to an interface and sets `SO_DONTROUTE` only if the server is
-- this host or on a network of it, and routes by the second interface only if it is neither.
pub choose_addresses_lem :
    (server : ℕ) (sockets : List SocketInfo)
    → (server == loopback) ≡ false
    → 2 ≤ length sockets
    → length sockets ≤ 10
    → (r : Addresses) × (choose_addresses server sockets ≡ ok r) × IsChoice server sockets r
unfolding choose_addresses
choose_addresses_lem server sockets usual two ten =
    let room : ltb 10 (length sockets) ≡ false = ground arith in
    rw room (
      by_place-IsChoice server sockets (place server sockets 0) usual two
        (place-Found server sockets 0))

is_local_same :
    (i : ℕ) (s t : SocketInfo)
    → t.mask ≡ s.mask
    → (is_local (suc i) t s.ip_addr ≡ true) ↔ SameNetwork t.ip_addr s
unfolding is_local
is_local_same i s t same_mask =
    let other : (suc i == 0) ≡ false = ground arith in
    let client : bit_and t.mask s.ip_addr ≡ bit_and s.ip_addr s.mask =
      bit_and_comm t.mask s.ip_addr ∙ ap (bit_and s.ip_addr) same_mask in
    let own : bit_and t.mask t.ip_addr ≡ bit_and t.ip_addr s.mask =
      bit_and_comm t.mask t.ip_addr ∙ ap (bit_and t.ip_addr) same_mask in
    let test = ==_iff (bit_and t.mask s.ip_addr) (bit_and t.mask t.ip_addr) in
    rw other (λ h. sym own ∙ (sym (test.0 h) ∙ client), λ h. test.1 (client ∙ (sym h ∙ sym own)))

-- The address is not one of the host.
abbrev pub IsForeign : ℕ → List SocketInfo → Type 0
IsForeign server sockets = (s : SocketInfo) → Has sockets s → s.ip_addr ≢ server

-- Every interface with the address has the mask.
abbrev pub HasMask : ℕ → ℕ → List SocketInfo → Type 0
HasMask addr mask sockets = (s : SocketInfo) → Has sockets s → s.ip_addr ≡ addr → s.mask ≡ mask

choice-agrees :
    (i : ℕ) (t : SocketInfo) (sockets : List SocketInfo) {r : Addresses}
    → IsForeign t.ip_addr sockets
    → IsChoice t.ip_addr sockets r
    → HasMask r.client_addr t.mask sockets
    → is_local (suc i) t r.client_addr ≡ r.dont_route
choice-agrees i t sockets foreign (by_loopback s there e) mask = absurd (foreign s there e)
choice-agrees i t sockets foreign (by_network s there net) mask =
    (is_local_same i s t (sym (mask s there refl))).1 net
choice-agrees i t sockets foreign (by_second s second apart) mask =
    let test = is_local_same i s t (sym (mask s (1, second) refl)) in
    elim (Bool-cases (is_local (suc i) t s.ip_addr)) [
      | inl p ↦ absurd ((apart 1 s second).1 (test.0 p))
      | inr q ↦ q
    ]

-- The server agrees with the client. At an interface of the server other than its first, whose address
-- is not 127.0.0.1 and is the one that the client connects to: if the client's host has two to ten
-- interfaces, none with that address, and the interface that the client binds to has the mask of the
-- server's, then the server takes the client for local exactly if the client has set `SO_DONTROUTE`.
pub is_local-agrees :
    (i : ℕ) (t : SocketInfo) (sockets : List SocketInfo) {r : Addresses}
    → (t.ip_addr == loopback) ≡ false
    → 2 ≤ length sockets
    → length sockets ≤ 10
    → IsForeign t.ip_addr sockets
    → choose_addresses t.ip_addr sockets ≡ ok r
    → HasMask r.client_addr t.mask sockets
    → is_local (suc i) t r.client_addr ≡ r.dont_route
is_local-agrees i t sockets {r} usual two ten foreign chosen mask =
    let (r', chosen', choice) = choose_addresses_lem t.ip_addr sockets usual two ten in
    let both : ok r' ≡ ok r = sym chosen' ∙ chosen in
    let same_choice : r' ≡ r = cc in
    choice-agrees i t sockets {r = r} foreign
      (subst (IsChoice t.ip_addr sockets) same_choice choice) mask
