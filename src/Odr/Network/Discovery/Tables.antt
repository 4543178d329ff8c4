-- ===== src/Odr/Network/Discovery/Tables.antt =====
-- The searches and the update of the routing table, where it has the ten addresses and few routes.
use cse.Base.{
  ℕ, zero, suc, ◌≡◌, ◌≢◌, inl, inr, refl, sym, ap, ◌∙◌, Bytes, List, [], ◌∷◌, map, some, Bool, true,
  false, not, ◌&&◌, ◌==◌, get_elem?, length, set, All, All-set, All-imp, same, same_refl, same→eq,
  Bool-cases, arith,
}
use cse.Odr.Types.{RoutingEntry}
use cse.Odr.Routes.{find_route, find_usable, is_better, improve}
use cse.Odr.Routes.Learn.{rerouted, improve_better, find_route-addr}
use cse.Odr.Invariant.{addr_of}
use cse.Odr.Network.Discovery.{Unusable, IsBlank}

pub same_ne : (a b : Bytes) → a ≢ b → same a b ≡ false
same_ne a b ne = elim (Bool-cases (same a b)) [ inl p ↦ absurd (ne (same→eq a b p)) | inr p ↦ p ]

elsewhere :
    (addr : Bytes) (e : RoutingEntry) (es : List RoutingEntry) (k : ℕ)
    → get_elem? (map addr_of (e ∷ es)) k ≡ some addr
    → same e.dst_addr addr ≡ false
    → (i : ℕ) × (get_elem? (map addr_of es) i ≡ some addr)
elsewhere addr e es zero h p =
    let here : some e.dst_addr ≡ some addr = h in
    let is_addr : e.dst_addr ≡ addr = cc in
    let b : true ≡ false = sym (same_refl addr) ∙ (ap (λ x. same x addr) (sym is_addr) ∙ p) in
    absurd (cc)
elsewhere addr e es (suc k) h p = (k, h)

-- An address of the table is found.
pub find_route_total :
    (addr : Bytes) (table : List RoutingEntry) (k : ℕ)
    → get_elem? (map addr_of table) k ≡ some addr
    → (e : RoutingEntry) × (get_elem? table (find_route addr table) ≡ some e)
unfolding find_route
find_route_total addr [] k h = absurd (cc)
find_route_total addr (e ∷ es) k h = elim (Bool-cases (same e.dst_addr addr)) [
  | inl p ↦ rw p (e, refl)
  | inr p ↦ let (i, there) = elsewhere addr e es k h p in rw p (find_route_total addr es i there)
]

-- Two addresses are found at two places.
pub find_route_ne :
    (a d : Bytes) (table : List RoutingEntry) {e f : RoutingEntry}
    → get_elem? table (find_route a table) ≡ some e
    → get_elem? table (find_route d table) ≡ some f
    → a ≢ d
    → find_route a table ≢ find_route d table
find_route_ne a d table {e} {f} h k ne p =
    let one : some e ≡ some f = sym h ∙ (ap (get_elem? table) p ∙ k) in
    let is_f : e ≡ f = cc in
    ne (sym (find_route-addr a table h) ∙ (ap addr_of is_f ∙ find_route-addr d table k))

is_better_blank :
    (e : RoutingEntry) (d hops index : ℕ) → e.outgoing_if ≡ 0 → is_better e d hops index ≡ true
unfolding is_better
is_better_blank e d hops index h = ground arith

pub improve_blank :
    (table : List RoutingEntry) (number d hops index : ℕ) (mac : Bytes) (e : RoutingEntry)
    → get_elem? table number ≡ some e
    → e.outgoing_if ≡ 0
    → improve table number d hops index mac ≡ (set table number (rerouted e index hops mac), true)
improve_blank table number d hops index mac e h z =
    improve_better table number d hops index mac e h (is_better_blank e d hops index z)

skipped :
    (dst : Bytes) (forced : Bool) (e : RoutingEntry)
    → Unusable dst e
    → (same e.dst_addr dst && (not (e.outgoing_if == 0) && not forced)) ≡ false
skipped dst forced e (inl ne) = rw (same_ne e.dst_addr dst ne) refl
skipped dst forced e (inr z) = ground arith

pub find_usable_none :
    (dst : Bytes) (forced : Bool) (table : List RoutingEntry)
    → All (Unusable dst) table
    → find_usable dst forced table ≡ length table
unfolding find_usable
find_usable_none dst forced [] h = refl
find_usable_none dst forced (e ∷ es) h =
    rw (skipped dst forced e h.0, find_usable_none dst forced es h.1) refl

blank-Unusable :
    (dst : Bytes) (table : List RoutingEntry) → All IsBlank table → All (Unusable dst) table
blank-Unusable dst table h = All-imp (λ e b. inr b.0) table h

-- A route to another address than the destination leaves that without one.
pub set-Unusable :
    (dst : Bytes) (table : List RoutingEntry) (i : ℕ) (e : RoutingEntry)
    → All IsBlank table
    → e.dst_addr ≢ dst
    → All (Unusable dst) (set table i e)
set-Unusable dst table i e h ne =
    All-set (Unusable dst) table i e (blank-Unusable dst table h) (inl ne)
