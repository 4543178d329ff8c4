-- ===== src/Odr/SetUp/Begun.antt =====
-- The state that ODR.c starts from, by the list of the interfaces.
use cse.Base.{
  ℕ, zero, suc, ◌+◌, ◌-◌, ◌≤◌, ◌<◌, ◌≡◌, refl, sym, ap, ◌∙◌, inl, inr, Bytes, List, [], ◌∷◌, ◌++◌,
  Option, none, some, true, false, ltb, ◌==◌, if◌then◌else◌, length, length-append, same, same_refl,
  same→eq, get_elem?, get_elem?-lt, All, ok, fault, arith, Bool-cases,
}
use mathlib.Core.List.{append_assoc, append-nil}
use cse.Odr.Types.{RoutingEntry, PortEntry, vm_addr}
use cse.Odr.Data.{start}
use cse.Odr.SetUp.{HwaInfo, vm_index, note_node, look_at, look_at_all, own_addr, set_up}

-- The hardware addresses of the interfaces other than the loopback and eth0, in their order.
abbrev pub outer_macs : List HwaInfo → List Bytes
outer_macs [] = []
outer_macs (hwa ∷ more) =
    let rest = outer_macs more in
    if hwa.if_index == 1 then rest else if hwa.if_index == 2 then rest else hwa.if_haddr ∷ rest

-- An interface with index 2 has this address.
abbrev pub HasAddr : Bytes → HwaInfo → Type 0
HasAddr own hwa = hwa.if_index ≡ 2 → hwa.ip_text ≡ own

-- `node` after the loop.
abbrev node_after : List HwaInfo → Option ℕ → Option ℕ
node_after [] old = old
node_after (hwa ∷ more) old =
    node_after more (if hwa.if_index == 2 then note_node old hwa.ip_text else old)

not_here :
    (own : Bytes) (a : Bytes) (addrs : List Bytes) (k : ℕ)
    → get_elem? (a ∷ addrs) k ≡ some own
    → same own a ≡ false
    → (i : ℕ) × (get_elem? addrs i ≡ some own)
not_here own a addrs zero e p =
    let here : some a ≡ some own = e in
    let is_own : a ≡ own = cc in
    let b : true ≡ false = sym (same_refl own) ∙ (ap (same own) (sym is_own) ∙ p) in absurd (cc)
not_here own a addrs (suc k) e p = (k, e)

vm_index-at :
    (own : Bytes) (addrs : List Bytes) (k : ℕ)
    → get_elem? addrs k ≡ some own
    → get_elem? addrs (vm_index own addrs) ≡ some own
unfolding vm_index
vm_index-at own [] k h = absurd (cc)
vm_index-at own (a ∷ addrs) k h = elim (Bool-cases (same own a)) [
  | inl p ↦ rw p (ap some (sym (same→eq own a p)))
  | inr p ↦ let (i, there) = not_here own a addrs k h p in rw p (vm_index-at own addrs i there)
]

module _ (own : Bytes) (k : ℕ) (known : get_elem? vm_addr k ≡ some own) where
  note_node-own : (old : Option ℕ) → own_addr (note_node old own) ≡ ok own
  unfolding note_node own_addr
  note_node-own old =
      let there : get_elem? vm_addr (vm_index own vm_addr) ≡ some own =
        vm_index-at own vm_addr k known in
      let lt : vm_index own vm_addr < length vm_addr =
        get_elem?-lt vm_addr (vm_index own vm_addr) there in
      let ten : length vm_addr ≡ 10 = unfold vm_addr in refl in
      let b : ltb (vm_index own vm_addr) 10 ≡ true = ground arith in
      let e : vm_index own vm_addr + 1 - 1 ≡ vm_index own vm_addr = omega arith in
      rw (b, e, there) refl

  stays :
      (hwas : List HwaInfo) (old : Option ℕ)
      → All (HasAddr own) hwas
      → own_addr old ≡ ok own
      → own_addr (node_after hwas old) ≡ ok own
  stays [] old all right = right
  stays (hwa ∷ more) old all right = elim (Bool-cases (hwa.if_index == 2)) [
    | inl p ↦
        let e : hwa.ip_text ≡ own = all.0 (ground arith) in
        rw (p, e) (stays more (note_node old own) all.1 (note_node-own old))
    | inr p ↦ rw p (stays more old all.1 right)
  ]

  comes :
      (hwas : List HwaInfo) (old : Option ℕ) (i : ℕ) (eth0 : HwaInfo)
      → All (HasAddr own) hwas
      → get_elem? hwas i ≡ some eth0
      → eth0.if_index ≡ 2
      → own_addr (node_after hwas old) ≡ ok own
  comes [] old i eth0 all there two = absurd (cc)
  comes (hwa ∷ more) old zero eth0 all there two =
      let here : some hwa ≡ some eth0 = there in
      let e : hwa ≡ eth0 = cc in
      let index : hwa.if_index ≡ 2 = rw e two in
      let p : (hwa.if_index == 2) ≡ true = ground arith in
      let q : hwa.ip_text ≡ own = all.0 index in
      rw (p, q) (stays more (note_node old own) all.1 (note_node-own old))
  comes (hwa ∷ more) old (suc i) eth0 all there two =
      comes more (if hwa.if_index == 2 then note_node old hwa.ip_text else old) i eth0 all.1 there
        two

look_at_all_lem :
    (hwas : List HwaInfo) (old : Option ℕ) (macs : List Bytes)
    → length macs ≤ 3
    → look_at_all hwas (record { node = old; if_macs = macs }) ≡ (
        if ltb 3 (length macs + length (outer_macs hwas))
        then fault
        else ok (record { node = node_after hwas old; if_macs = macs ++ outer_macs hwas }))
unfolding look_at_all look_at
look_at_all_lem [] old macs few =
    let b : ltb 3 (length macs + 0) ≡ false = ground arith in rw (b, append-nil macs) refl
look_at_all_lem (hwa ∷ more) old macs few = elim (Bool-cases (hwa.if_index == 1)) [
  | inl p ↦
      let two : (hwa.if_index == 2) ≡ false = ground arith in
      rw (p, two) (look_at_all_lem more old macs few)
  | inr p ↦ elim (Bool-cases (hwa.if_index == 2)) [
    | inl q ↦ rw (p, q) (look_at_all_lem more (note_node old hwa.ip_text) macs few)
    | inr q ↦
        rw (p, q)
          (elim (Bool-cases (ltb (length macs) 3)) [
            | inl room ↦
                let longer : length (macs ++ (hwa.if_haddr ∷ [])) ≡ suc (length macs) =
                  omega (arith, length-append macs (hwa.if_haddr ∷ [])) in
                let sum : length (macs ++ (hwa.if_haddr ∷ [])) + length (outer_macs more)
                    ≡ length macs + suc (length (outer_macs more)) =
                  omega (arith, longer) in
                let joined : (macs ++ (hwa.if_haddr ∷ [])) ++ outer_macs more
                    ≡ macs ++ (hwa.if_haddr ∷ outer_macs more) =
                  append_assoc macs (hwa.if_haddr ∷ []) (outer_macs more) in
                rw room (
                  rw (sum, joined) at
                    (look_at_all_lem more old (macs ++ (hwa.if_haddr ∷ []))
                      (ground (arith, longer))))
            | inr full ↦
                let over : ltb 3 (length macs + suc (length (outer_macs more))) ≡ true =
                  ground arith in
                rw (full, over) refl
          ])
  ]
]

-- On a node whose eth0, the interface with index 2, has one of the ten addresses, and where no other
-- interface with index 2 has another address: if the other interfaces than the loopback and eth0 are
-- at most three, the loop starts in the state with eth0's address and their hardware addresses, in
-- their order. If they are more, the fourth is written past the end of the arrays.
pub set_up_lem :
    (own : Bytes) (hwas : List HwaInfo) (routes : List RoutingEntry) (ports : List PortEntry)
    (k i : ℕ) (eth0 : HwaInfo)
    → get_elem? vm_addr k ≡ some own
    → All (HasAddr own) hwas
    → get_elem? hwas i ≡ some eth0
    → eth0.if_index ≡ 2
    → set_up hwas routes ports ≡ (
        if ltb 3 (length (outer_macs hwas))
        then fault
        else ok (start own (outer_macs hwas) routes ports))
unfolding set_up
set_up_lem own hwas routes ports k i eth0 known all there two =
    let right : own_addr (node_after hwas none) ≡ ok own =
      comes own k known hwas none i eth0 all there two in
    let looked = look_at_all_lem hwas none [] (omega arith) in
    elim (Bool-cases (ltb 3 (length (outer_macs hwas)))) [
      | inl p ↦
          let over : ltb 3 (0 + length (outer_macs hwas)) ≡ true = ground arith in
          rw (looked, over, p) refl
      | inr p ↦
          let few : ltb 3 (0 + length (outer_macs hwas)) ≡ false = ground arith in
          rw (looked, few, p, right) refl
    ]
