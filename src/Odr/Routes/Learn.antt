-- ===== src/Odr/Routes/Learn.antt =====
-- The update of the routing table by a received header, `improve`.
use cse.Base.{
  ℕ, zero, suc, ◌+◌, ◌≤◌, ◌≡◌, ◌≢◌, refl, ◌⊎◌, inl, inr, Bytes, List, [], ◌∷◌, some, true, false,
  set, get_elem?, if◌then◌else◌, same, same→eq, map, All, All-set, get_elem?-set_self,
  get_elem?-set_ne, get_elem?-lt, Option-cases, Bool-cases, arith,
}
use cse.Odr.Types.{RoutingEntry}
use cse.Odr.Routes.{find_route, is_better, improve}

-- The entry as `improve` writes it.
abbrev pub rerouted : RoutingEntry → (index hops : ℕ) → Bytes → RoutingEntry
rerouted e index hops mac = record e { next_hop = mac; outgoing_if = index + 3; hop_cnt = hops }

-- The two ways that `improve` ends.
pub improve_cases :
    (table : List RoutingEntry) (number discovery hops index : ℕ) (mac : Bytes)
    → (improve table number discovery hops index mac ≡ (table, false))
      ⊎ ((e : RoutingEntry) × (get_elem? table number ≡ some e)
          × (is_better e discovery hops index ≡ true)
          × (improve table number discovery hops index mac
              ≡ (set table number (rerouted e index hops mac), true)))
unfolding improve
improve_cases table number d h i mac = elim (Option-cases (get_elem? table number)) [
  | inl p ↦ inl (rw (p, improve))
  | inr (e, p) ↦ elim (Bool-cases (is_better e d h i)) [
    | inl b ↦ inr (e, p, b, rw (p, b, improve))
    | inr b ↦ inl (rw (p, b, improve))
  ]
]

-- Nothing changes the addresses of the table.
pub map-set {ℓ κ} :
    {A : Type ℓ} {B : Type κ} (f : A → B) (xs : List A) (i : ℕ) {a : A} (v : A)
    → get_elem? xs i ≡ some a
    → f v ≡ f a
    → map f (set xs i v) ≡ map f xs
map-set f [] i v h p = refl
map-set f (x ∷ xs) zero v h p = ground arith
map-set f (x ∷ xs) (suc i) v h p = rw (map-set f xs i v h p)

pub improve-addrs :
    (table : List RoutingEntry) (number discovery hops index : ℕ) (mac : Bytes)
    → map (λ e. e.dst_addr) (improve table number discovery hops index mac).0
      ≡ map (λ e. e.dst_addr) table
improve-addrs table number d h i mac = elim (improve_cases table number d h i mac) [
  | inl p ↦ rw p
  | inr (e, p, b, q) ↦ rw q (map-set (λ e. e.dst_addr) table number (rerouted e i h mac) p refl)
]

pub improve-All {ℓ} :
    (P : RoutingEntry → Type ℓ) (table : List RoutingEntry) (number discovery hops index : ℕ)
    (mac : Bytes)
    → All P table
    → ((e : RoutingEntry) → P (rerouted e index hops mac))
    → All P (improve table number discovery hops index mac).0
improve-All P table number d h i mac all new = elim (improve_cases table number d h i mac) [
  | inl p ↦ rw p all
  | inr (e, p, b, q) ↦ rw q (All-set P table number (rerouted e i h mac) all (new e))
]

-- The search finds an entry of the address, and stops below the length exactly when there is one.
pub find_route-addr :
    (addr : Bytes) (table : List RoutingEntry) {e : RoutingEntry}
    → get_elem? table (find_route addr table) ≡ some e
    → e.dst_addr ≡ addr
unfolding find_route
find_route-addr addr [] h = absurd (ground arith)
find_route-addr addr (x ∷ xs) h = elim (Bool-cases (same x.dst_addr addr)) [
  | inl p ↦ ground (arith, same→eq x.dst_addr addr p)
  | inr p ↦ find_route-addr addr xs (rw p at h)
]

pub improve_better :
    (table : List RoutingEntry) (number discovery hops index : ℕ) (mac : Bytes) (e : RoutingEntry)
    → get_elem? table number ≡ some e
    → is_better e discovery hops index ≡ true
    → improve table number discovery hops index mac
      ≡ (set table number (rerouted e index hops mac), true)
unfolding improve
improve_better table number d h i mac e p b = rw (p, b, improve)

pub improve_kept :
    (table : List RoutingEntry) (number discovery hops index : ℕ) (mac : Bytes) (e : RoutingEntry)
    → get_elem? table number ≡ some e
    → is_better e discovery hops index ≡ false
    → improve table number discovery hops index mac ≡ (table, false)
unfolding improve
improve_kept table number d h i mac e p b = rw (p, b, improve)

-- What the test says of the two hop counts.
is_better_hops :
    (e : RoutingEntry) (d h i : ℕ)
    → is_better e d h i ≡ true
    → d ≢ 1
    → e.outgoing_if ≢ 0
    → h ≤ e.hop_cnt
unfolding is_better
is_better_hops e d h i b nd linked = ground arith

pub is_better_not :
    (e : RoutingEntry) (d h i : ℕ)
    → is_better e d h i ≡ false
    → (d ≢ 1) × (e.outgoing_if ≢ 0) × (e.hop_cnt ≤ h)
unfolding is_better
is_better_not e d h i b = ground arith

-- What one header does to the table: entry `number` keeps its address and its broadcast id, and
-- then has a route that is no longer than the header's, and no longer than the one it had unless
-- a discovery was forced; its route is the header's exactly when the flag says so, the entry is as
-- it was otherwise; and no other entry changes.
pub improve_lem :
    (table : List RoutingEntry) (number discovery hops index : ℕ) (mac : Bytes) (e : RoutingEntry)
    → get_elem? table number ≡ some e
    → let (table', efficient) = improve table number discovery hops index mac in
      (e' : RoutingEntry) × (get_elem? table' number ≡ some e')
      × (e'.dst_addr ≡ e.dst_addr)
      × (e'.broadcast_id ≡ e.broadcast_id)
      × (e'.outgoing_if ≢ 0)
      × (e'.hop_cnt ≤ hops)
      × (discovery ≢ 1 → e.outgoing_if ≢ 0 → e'.hop_cnt ≤ e.hop_cnt)
      × (efficient ≡ true → e' ≡ rerouted e index hops mac)
      × (efficient ≡ false → e' ≡ e)
      × ((j : ℕ) → number ≢ j → get_elem? table' j ≡ get_elem? table j)
improve_lem table number d h i mac e p = elim (Bool-cases (is_better e d h i)) [
  | inl b ↦ rw (improve_better table number d h i mac e p b) (
    rerouted e i h mac,
    get_elem?-set_self table number (rerouted e i h mac) (get_elem?-lt table number p),
    refl,
    refl,
    ground arith,
    omega arith,
    is_better_hops e d h i b,
    λ _. refl,
    λ f. absurd (ground arith),
    λ j ne. get_elem?-set_ne table (rerouted e i h mac) ne,
  )
  | inr b ↦ rw (improve_kept table number d h i mac e p b) (
    e,
    p,
    refl,
    refl,
    (is_better_not e d h i b).1,
    (is_better_not e d h i b).2,
    λ _ _. omega arith,
    λ f. absurd (ground arith),
    λ _. refl,
    λ j ne. refl,
  )
]

find_addr : Bytes → List Bytes → ℕ
find_addr addr [] = 0
find_addr addr (a ∷ rest) = if same a addr then 0 else suc (find_addr addr rest)

find_route-eq-find_addr :
    (addr : Bytes) (table : List RoutingEntry)
    → find_route addr table ≡ find_addr addr (map (λ e. e.dst_addr) table)
unfolding find_route find_addr
find_route-eq-find_addr addr [] = refl
find_route-eq-find_addr addr (e ∷ es) = rw (find_route-eq-find_addr addr es)

-- The search reads only the addresses.
pub find_route-map :
    (addr : Bytes) (t u : List RoutingEntry)
    → map (λ e. e.dst_addr) t ≡ map (λ e. e.dst_addr) u
    → find_route addr t ≡ find_route addr u
find_route-map addr t u h = rw (find_route-eq-find_addr addr t, find_route-eq-find_addr addr u, h)
