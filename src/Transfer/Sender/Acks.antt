-- ===== src/Transfer/Sender/Acks.antt =====
-- The acknowledgements of server.c: what leaves the buffer, and what stays in it.
use cse.Base.{
  ℕ, zero, suc, ◌+◌, ◌-◌, ◌%◌, ◌≤◌, ◌<◌, ◌≡◌, ◌≢◌, refl, max, sym, ap, ap₂, subst, ◌∙◌, List, [],
  ◌∷◌, map, Bool, false, ltb, ◌==◌, if◌then◌else◌, set, get_or, get_elem?-eq-get_or, length-set, ok,
  arith,
}
use cse.Transfer.Queue.{Datagram, CirQueue, cir_queue_length}
use cse.Transfer.Queue.Fifo.{IsValid, window, blank_datagram}
use cse.Transfer.Sender.{Sender, count_ack, on_ack, Next, finished, grow, next_step, take_ack}
use cse.Transfer.Sender.Window.{count_up, seqs, InWindow, drop_acked-in_order}

-- Counting an acknowledgement at the front changes no sequence number.
seq-set :
    (base : List Datagram) (i k : ℕ) (d : Datagram)
    → d.seq ≡ (get_or base i blank_datagram).seq
    → (get_or (set base i d) k blank_datagram).seq ≡ (get_or base k blank_datagram).seq
seq-set [] i k d h = refl
seq-set (x ∷ xs) zero zero d h = h
seq-set (x ∷ xs) zero (suc k) d h = refl
seq-set (x ∷ xs) (suc i) zero d h = refl
seq-set (x ∷ xs) (suc i) (suc k) d h = seq-set xs i k d h

window-recount :
    (base : List Datagram) (m f i : ℕ) (d : Datagram) (j n : ℕ)
    → d.seq ≡ (get_or base i blank_datagram).seq
    → map (λ (e : Datagram). e.seq) (window (set base i d) m f j n)
      ≡ map (λ (e : Datagram). e.seq) (window base m f j n)
window-recount base m f i d j zero h = refl
window-recount base m f i d j (suc n) h =
    ap₂ ◌∷◌ (seq-set base i ((f + j) % m) d h) (window-recount base m f i d (j + 1) n h)

-- What counting an acknowledgement leaves of the buffer.
record Counted (q q' : CirQueue) : Type 0 where
  valid : IsValid q'
  same_seqs : seqs q' ≡ seqs q
  same_length : cir_queue_length q' ≡ cir_queue_length q

count_ack-Counted :
    (q : CirQueue) → IsValid q → (r : CirQueue × Bool) × (count_ack q ≡ ok r) × Counted q r.0
unfolding count_ack cir_queue_length
count_ack-Counted q v =
    let d = get_or q.base q.front blank_datagram in
    let third = d.ack + 1 == 3 in
    let ack : ℕ = if third then 0 else d.ack + 1 in
    let d' : Datagram = record d { ack = ack } in
    (
      (record q { base = set q.base q.front d' }, third),
      rw (get_elem?-eq-get_or q.base q.front blank_datagram (omega (arith, v.slots, v.front_in))),
      record {
        valid = record {
          slots = length-set q.base q.front d' ∙ v.slots;
          front_in = v.front_in;
          rear_in = v.rear_in;
        };
        same_seqs =
            window-recount q.base q.max_qsize q.front q.front d' 0 (cir_queue_length q) refl;
        same_length = refl;
      },
    )

next_step-ne : (s : Sender) (third : Bool) → next_step s third ≢ finished
unfolding next_step
next_step-ne s third = ground arith

-- The buffer after the drops and the count.
acked-InWindow :
    (s : Sender) (seq window : ℕ) (q q' : CirQueue)
    → s.head + cir_queue_length s.send_buffer ≡ s.sequence_number + 1
    → seqs q ≡ count_up (s.head + (seq - s.head)) (cir_queue_length q)
    → cir_queue_length q + (seq - s.head) ≡ cir_queue_length s.send_buffer
    → Counted q q'
    → InWindow (record s {
      head = if ltb s.head seq then seq else s.head;
      recv_window = window;
      send_buffer = q';
    })
acked-InWindow s seq window q q' last order count c = record {
  buffer = c.valid;
  in_order = c.same_seqs ∙ (order ∙ ap₂ count_up moved (sym c.same_length));
  up_to_last = ground (arith, c.same_length);
}
  where
    moved : s.head + (seq - s.head) ≡ (if ltb s.head seq then seq else s.head)
    moved = ground arith

take_ack-InWindow :
    (s : Sender) (seq window : ℕ)
    → InWindow s
    → seq ≤ s.sequence_number + 1
    → (r : Sender × Next) × (take_ack s seq window ≡ ok r)
      × InWindow r.0
      × (r.0.head ≡ max s.head seq)
      × (r.0.sequence_number ≡ s.sequence_number)
      × (r.0.recv_window ≡ window)
      × (r.1 ≢ finished)
unfolding take_ack
take_ack-InWindow s seq window w sent_it =
    let (q, dropped, v, _, order, count) =
      drop_acked-in_order (seq - s.head) s.send_buffer s.head w.buffer w.in_order
        (omega (arith, w.up_to_last)) in
    let (r, counted, c) = count_ack-Counted q v in
    let t : Sender = record s {
      head = if ltb s.head seq then seq else s.head;
      recv_window = window;
      send_buffer = r.0;
    } in
    (
      (t, next_step t r.1),
      rw (dropped, counted),
      acked-InWindow s seq window q r.0 w.up_to_last order count c,
      ground arith,
      refl,
      refl,
      next_step-ne t r.1,
    )

grow-frame :
    (s : Sender)
    → ((grow s).send_buffer ≡ s.send_buffer)
      × ((grow s).head ≡ s.head)
      × ((grow s).sequence_number ≡ s.sequence_number)
unfolding grow
grow-frame s = ground arith

InWindow-same :
    (s t : Sender)
    → InWindow s
    → t.send_buffer ≡ s.send_buffer
    → t.head ≡ s.head
    → t.sequence_number ≡ s.sequence_number
    → InWindow t
InWindow-same s t w b h n = record {
  buffer = subst IsValid (sym b) w.buffer;
  in_order = ap seqs b ∙ (w.in_order ∙ ap₂ count_up (sym h) (ap cir_queue_length (sym b)));
  up_to_last = omega (arith, w.up_to_last, ap cir_queue_length b, h, n);
}

-- An acknowledgement of datagrams that were sent, `seq` being the number that the client wants next:
-- the code stays inside the buffer, takes exactly those below `seq` out of it, and notes the
-- client's window; the buffer then holds those from the new `head`, the greater of the old one and
-- `seq`, to the last one sent. A late acknowledgement takes none out.
pub on_ack-InWindow :
    (s : Sender) (seq window : ℕ)
    → InWindow s
    → 0 < seq
    → seq ≤ s.sequence_number + 1
    → (r : Sender × Next) × (on_ack s seq window ≡ ok r)
      × InWindow r.0
      × (r.0.head ≡ max s.head seq)
      × (r.0.sequence_number ≡ s.sequence_number)
      × (r.0.recv_window ≡ window)
      × (r.1 ≢ finished)
unfolding on_ack
on_ack-InWindow s seq window w pos sent_it =
    let t : Sender = record (grow s) { received = s.received + 1 } in
    let (b, h, n) = grow-frame s in
    let (r, done, w', head, number, noted, going_on) =
      take_ack-InWindow t seq window (InWindow-same s t w b h n) (omega (arith, n)) in
    let more : (seq == 0) ≡ false = ground arith in
    (r, rw (more, done), w', head ∙ ap (λ (k : ℕ). max k seq) h, number ∙ n, noted, going_on)
