-- ===== src/Transfer/Sender/Window.antt =====
-- The datagrams that server.c keeps in its buffer: those sent and not yet acknowledged.
use mathlib.Core.List.{map-append}
use cse.Base.{
  ℕ, zero, suc, ◌+◌, ◌≤◌, ◌<◌, ◌≡◌, refl, ap, ◌∙◌, List, [], ◌∷◌, ◌++◌, map, length, length-map,
  length-append, ok, ◌>>=◌, arith,
}
use cse.Transfer.Queue.{Datagram, CirQueue, cir_queue_length, en_cir_queue, de_cir_queue}
use cse.Transfer.Queue.Fifo.{IsValid, contents, length-contents, en_cir_queue_lem, de_cir_queue_lem}
use cse.Transfer.Sender.{Sender, drop_acked}

-- `n` numbers from `h` on.
abbrev pub count_up : ℕ → ℕ → List ℕ
count_up h zero = []
count_up h (suc n) = h ∷ count_up (h + 1) n

abbrev pub seqs : CirQueue → List ℕ
seqs q = map (λ d. d.seq) (contents q)

-- The buffer holds the datagrams from `head` to the last one sent, in their order.
pub record InWindow (s : Sender) : Type 0 where
  pub buffer : IsValid s.send_buffer
  pub in_order : seqs s.send_buffer ≡ count_up s.head (cir_queue_length s.send_buffer)
  pub up_to_last : s.head + cir_queue_length s.send_buffer ≡ s.sequence_number + 1

pub count_up-last : (h n : ℕ) → count_up h (suc n) ≡ count_up h n ++ ((h + n) ∷ [])
count_up-last h zero = let e : h + 0 ≡ h = omega arith in rw e
count_up-last h (suc n) =
    let e : h + suc n ≡ h + 1 + n = omega arith in rw (e, count_up-last (h + 1) n)

seqs-length : (q : CirQueue) → length (seqs q) ≡ cir_queue_length q
seqs-length q = length-map (contents q) (λ d. d.seq) ∙ length-contents q

-- The insertion of a datagram, seen through the sequence numbers.
pub seqs-en :
    (q : CirQueue) (d : Datagram)
    → IsValid q
    → cir_queue_length q + 1 < q.max_qsize
    → (q' : CirQueue) × (en_cir_queue q d ≡ ok q')
      × IsValid q'
      × (q'.max_qsize ≡ q.max_qsize)
      × (seqs q' ≡ seqs q ++ (d.seq ∷ []))
      × (cir_queue_length q' ≡ cir_queue_length q + 1)
seqs-en q d v room =
    let (q', done, valid, slots, grown, _) = en_cir_queue_lem d v in
    let behind =
      ap (map (λ (e : Datagram). e.seq)) (grown room)
      ∙ map-append (λ (e : Datagram). e.seq) (contents q) (d ∷ []) in
    (
      q',
      done,
      valid,
      slots,
      behind,
      omega (
        arith,
        seqs-length q',
        seqs-length q,
        ap length behind,
        length-append {0} (seqs q) (d.seq ∷ []),
      ),
    )

seqs-tail :
    (q q' : CirQueue) (h : ℕ) (x : Datagram) (rest : List Datagram)
    → contents q ≡ x ∷ rest
    → contents q' ≡ rest
    → suc (cir_queue_length q') ≡ cir_queue_length q
    → seqs q ≡ count_up h (cir_queue_length q)
    → seqs q' ≡ count_up (h + 1) (cir_queue_length q')
seqs-tail q q' h x rest e left count order =
    let opened : x.seq ∷ map (λ (d : Datagram). d.seq) rest
        ≡ count_up h (suc (cir_queue_length q')) =
      rw (e, ← count) at order in
    rw left (cc opened)

-- The removal of the oldest datagram.
seqs-de :
    (q : CirQueue) (h : ℕ) (xs : List Datagram)
    → IsValid q
    → seqs q ≡ count_up h (cir_queue_length q)
    → 0 < cir_queue_length q
    → contents q ≡ xs
    → (q' : CirQueue) × (de_cir_queue q ≡ ok q')
      × IsValid q'
      × (q'.max_qsize ≡ q.max_qsize)
      × (seqs q' ≡ count_up (h + 1) (cir_queue_length q'))
      × (suc (cir_queue_length q') ≡ cir_queue_length q)
seqs-de q h [] v order some_left e = absurd (omega (arith, length-contents q, ap length e))
seqs-de q h (x ∷ rest) v order some_left e =
    let (q', done, valid, slots, tail, _) = de_cir_queue_lem v in
    let left = tail x rest e in
    let count : suc (cir_queue_length q') ≡ cir_queue_length q =
      omega (arith, length-contents q, ap length e, length-contents q', ap length left) in
    (q', done, valid, slots, seqs-tail q q' h x rest e left count order, count)

-- Acknowledged datagrams leave the buffer; those after them stay, in order.
pub drop_acked-in_order :
    (n : ℕ) (q : CirQueue) (h : ℕ)
    → IsValid q
    → seqs q ≡ count_up h (cir_queue_length q)
    → n ≤ cir_queue_length q
    → (q' : CirQueue) × (drop_acked q n ≡ ok q')
      × IsValid q'
      × (q'.max_qsize ≡ q.max_qsize)
      × (seqs q' ≡ count_up (h + n) (cir_queue_length q'))
      × (cir_queue_length q' + n ≡ cir_queue_length q)
unfolding drop_acked
drop_acked-in_order zero q h v order le =
    let e : h + 0 ≡ h = omega arith in (q, refl, v, refl, rw (e, order), omega arith)
drop_acked-in_order (suc n) q h v order le =
    let (q1, done, v1, slots, order1, count1) =
      seqs-de q h (contents q) v order (omega arith) refl in
    let (q2, done2, v2, slots2, order2, count2) =
      drop_acked-in_order n q1 (h + 1) v1 order1 (omega arith) in
    let e : h + suc n ≡ h + 1 + n = omega arith in
    (
      q2,
      ap (λ m. m >>= λ rest. drop_acked rest n) done ∙ done2,
      v2,
      slots2 ∙ slots,
      rw e order2,
      omega arith,
    )
