-- ===== src/Odr/Flood.antt =====
-- The frames that ODR.c sends when it passes an RREQ on.
use cse.Base.{
  ℕ, suc, ◌+◌, ◌-◌, ◌≤◌, ◌≡◌, refl, Bytes, List, [], ◌∷◌, ◌&&◌, not, ltb, leb, ◌==◌, if◌then◌else◌,
  length, get_or, All, inl, inr, arith, Bool-cases,
}
use cse.Odr.Types.{Rreq, rreq, Action, send_frame, send_local, proto_bits, broadcast_mac}
use cse.Odr.Request.{flood}
use cse.Odr.Local.{flood_all}

-- How many frames go out on socket `k`.
abbrev pub count_on : ℕ → List Action → ℕ
count_on k [] = 0
count_on k (send_frame socket ifindex to f ∷ acts) =
    let rest = count_on k acts in if socket == k then suc rest else rest
count_on k (send_local path text ∷ acts) = count_on k acts

sub_self : (n : ℕ) → n - n ≡ 0
sub_self n = omega arith

-- A broadcast of `q` with the address of the interface that it leaves by.
abbrev pub IsCopy : List Bytes → ℕ → Rreq → Action → Type 0
IsCopy macs from q (send_frame socket ifindex to f) =
    (ifindex ≡ socket + 3)
    × (to ≡ broadcast_mac)
    × (f ≡ record {
      dst_mac = broadcast_mac;
      src_mac = get_or macs (socket - from) [];
      proto = proto_bits;
      body = rreq q;
    })
    × (from ≤ socket)
IsCopy macs from q (send_local path text) = ⊥

flood-count :
    (macs : List Bytes) (from skip k : ℕ) (q : Rreq)
    → count_on k (flood macs from skip q)
      ≡ (if leb from k && (ltb k (from + length macs) && not (k == skip)) then 1 else 0)
unfolding flood
flood-count [] from skip k q = ground arith
flood-count (mac ∷ macs) from skip k q = ground (arith, flood-count macs (from + 1) skip k q)

get_or-shift :
    (mac : Bytes) (macs : List Bytes) (from socket : ℕ)
    → from + 1 ≤ socket
    → get_or (mac ∷ macs) (socket - from) [] ≡ get_or macs (socket - (from + 1)) []
get_or-shift mac macs from socket h =
    let e : socket - from ≡ suc (socket - (from + 1)) = omega arith in rw e

IsCopy-shift :
    (mac : Bytes) (macs : List Bytes) (from : ℕ) (q : Rreq) (a : Action)
    → IsCopy macs (from + 1) q a
    → IsCopy (mac ∷ macs) from q a
IsCopy-shift mac macs from q (send_frame socket ifindex to f) h =
    (h.0, h.1, rw (get_or-shift mac macs from socket h.3) h.2, omega arith)
IsCopy-shift mac macs from q (send_local path text) h = h

All-shift :
    (mac : Bytes) (macs : List Bytes) (from : ℕ) (q : Rreq) (acts : List Action)
    → All (IsCopy macs (from + 1) q) acts
    → All (IsCopy (mac ∷ macs) from q) acts
All-shift mac macs from q [] h = tt
All-shift mac macs from q (a ∷ acts) h =
    (IsCopy-shift mac macs from q a h.0, All-shift mac macs from q acts h.1)

flood-IsCopy :
    (macs : List Bytes) (from skip : ℕ) (q : Rreq)
    → All (IsCopy macs from q) (flood macs from skip q)
unfolding flood
flood-IsCopy [] from skip q = tt
flood-IsCopy (mac ∷ macs) from skip q = elim (Bool-cases (from == skip)) [
  | inl p ↦ rw p (All-shift mac macs from q _ (flood-IsCopy macs (from + 1) skip q))
  | inr p ↦ rw p (
    (refl, refl, rw (sub_self from), omega arith),
    All-shift mac macs from q _ (flood-IsCopy macs (from + 1) skip q),
  )
]

-- A flood sends one frame on every interface but the one that is skipped, where it sends none, and
-- none elsewhere; and each is a broadcast of the RREQ with its own interface's address as source.
pub flood_lem :
    (macs : List Bytes) (skip k : ℕ) (q : Rreq)
    → (count_on k (flood macs 0 skip q) ≡ (if ltb k (length macs) && not (k == skip) then 1 else 0))
      × All (IsCopy macs 0 q) (flood macs 0 skip q)
flood_lem macs skip k q = (ground (arith, flood-count macs 0 skip k q), flood-IsCopy macs 0 skip q)

flood_all-count :
    (macs : List Bytes) (from k : ℕ) (q : Rreq)
    → count_on k (flood_all macs from q)
      ≡ (if leb from k && ltb k (from + length macs) then 1 else 0)
unfolding flood_all
flood_all-count [] from k q = ground arith
flood_all-count (mac ∷ macs) from k q = ground (arith, flood_all-count macs (from + 1) k q)

flood_all-IsCopy :
    (macs : List Bytes) (from : ℕ) (q : Rreq) → All (IsCopy macs from q) (flood_all macs from q)
unfolding flood_all
flood_all-IsCopy [] from q = tt
flood_all-IsCopy (mac ∷ macs) from q = (
  (refl, refl, rw (sub_self from), omega arith),
  All-shift mac macs from q _ (flood_all-IsCopy macs (from + 1) q),
)

-- A discovery of this node's own sends one such frame on every interface, and none elsewhere.
flood_all_lem :
    (macs : List Bytes) (k : ℕ) (q : Rreq)
    → (count_on k (flood_all macs 0 q) ≡ (if ltb k (length macs) then 1 else 0))
      × All (IsCopy macs 0 q) (flood_all macs 0 q)
flood_all_lem macs k q = (ground (arith, flood_all-count macs 0 k q), flood_all-IsCopy macs 0 q)
