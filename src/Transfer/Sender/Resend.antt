-- ===== src/Transfer/Sender/Resend.antt =====
-- The loop of server.c that sends the buffered datagrams again.
use native.Mathlib.Nat.{mod-eq_of_lt}
use cse.Base.{
  ℕ, zero, suc, ◌+◌, ◌%◌, ◌≤◌, ◌<◌, ◌≡◌, refl, sym, ap, ◌∙◌, inl, inr, List, ◌∷◌, map, take, get_or,
  get_elem?-eq-get_or, get_elem?-none, >>=-fault, Bool-cases, ◌==◌, ok, fault, ◌‼◌, arith,
}
use cse.Transfer.Queue.{Datagram, CirQueue, cir_queue_length}
use cse.Transfer.Queue.Fifo.{IsValid, contents, window, blank_datagram}
use cse.Transfer.Sender.{Packet, datagram, resend}

-- A datagram as it goes out.
abbrev pub packet_of : Datagram → Packet
packet_of d = datagram d.seq d.ts d.sendline

take-window :
    (base : List Datagram) (m f j n k : ℕ)
    → n ≤ k
    → take n (window base m f j k) ≡ window base m f j n
take-window base m f j zero k h = refl
take-window base m f j (suc n) zero h = absurd (omega arith)
take-window base m f j (suc n) (suc k) h =
    ap (λ rest. get_or base ((f + j) % m) blank_datagram ∷ rest)
      (take-window base m f (j + 1) n k (omega arith))

module _ {q : CirQueue} (v : IsValid q) where
  resend-window :
      (n j : ℕ)
      → q.front + j + n ≤ q.max_qsize
      → resend q j n ≡ ok (map packet_of (window q.base q.max_qsize q.front j n))
  unfolding resend
  resend-window zero j h = refl
  resend-window (suc n) j h = rw (
    get_elem?-eq-get_or q.base (q.front + j) blank_datagram (omega (arith, v.slots)),
    resend-window n (j + 1) (omega arith),
    mod-eq_of_lt {n = q.front + j} {m = q.max_qsize} (omega arith),
  )

  resend-past_end :
      (n j : ℕ) → q.front + j ≤ q.max_qsize → q.max_qsize < q.front + j + n → resend q j n ≡ fault
  unfolding resend
  resend-past_end zero j le h = absurd (omega arith)
  resend-past_end (suc n) j le h = elim (Bool-cases (q.front + j == q.max_qsize)) [
    | inl e ↦ rw (get_elem?-none q.base (q.front + j) (ground (arith, v.slots)))
    | inr e ↦
        >>=-fault (q.base ‼ (q.front + j)) _
          (λ d. rw (resend-past_end n (j + 1) (ground arith) (omega arith)))
  ]

-- Sending the first `n` datagrams of the buffer again sends just them, in order, if the array does
-- not end among them. If it does, the code reads past its end: it indexes `front+j` and does not go
-- round, as the buffer does.
pub resend_lem :
    {q : CirQueue} (n : ℕ)
    → IsValid q
    → n ≤ cir_queue_length q
    → (q.front + n ≤ q.max_qsize → resend q 0 n ≡ ok (map packet_of (take n (contents q))))
      × (q.max_qsize < q.front + n → resend q 0 n ≡ fault)
resend_lem {q} n v le = (
  λ h.
      resend-window v n 0 (omega arith)
      ∙ ap (λ (ds : List Datagram). ok (map packet_of ds))
          (sym (take-window q.base q.max_qsize q.front 0 n (cir_queue_length q) le)),
  λ h. resend-past_end v n 0 (omega (arith, v.front_in)) (omega arith),
)
