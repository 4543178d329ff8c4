-- ===== src/Transfer/Sender/Rounds.antt =====
-- New datagrams keep the buffer of server.c a window of the file.
use cse.Base.{
  ℕ, suc, ◌+◌, ◌^◌, ◌<◌, ◌≡◌, refl, sym, ap, ◌∙◌, inl, inr, List, [], ◌∷◌, ◌++◌, Bool, ltb,
  if◌then◌else◌, length, drop, u32, ok, arith, Bool-cases,
}
use cse.Transfer.Queue.{Datagram, CirQueue, cir_queue_length}
use cse.Transfer.Queue.Fifo.{IsValid}
use cse.Transfer.Sender.{
  Sender, Packet, datagram, packet_capacity, read_into, zeroed, send_new, fill,
}
use cse.Transfer.Sender.Window.{count_up, count_up-last, seqs, seqs-en, InWindow}

-- What `send_new` leaves besides the buffer.
pub record Sent (s t : Sender) : Type 0 where
  pub in_window : InWindow t
  pub one_more : cir_queue_length t.send_buffer ≡ cir_queue_length s.send_buffer + 1
  pub next_number : t.sequence_number ≡ s.sequence_number + 1
  pub same_head : t.head ≡ s.head
  pub same_slots : t.send_buffer.max_qsize ≡ s.send_buffer.max_qsize

sent :
    (s : Sender) (q : CirQueue) (file : List ℕ) (eof : Bool)
    → InWindow s
    → s.sequence_number + 1 < 2 ^ 32
    → IsValid q
    → q.max_qsize ≡ s.send_buffer.max_qsize
    → seqs q ≡ seqs s.send_buffer ++ (u32 (s.sequence_number + 1) ∷ [])
    → cir_queue_length q ≡ cir_queue_length s.send_buffer + 1
    → Sent s (record s {
      sequence_number = u32 (s.sequence_number + 1);
      send_buffer = q;
      file = file;
      eof = eof;
      line_memory = zeroed;
    })
sent s q file eof w small valid slots behind count = record {
  in_window = record {
    buffer = valid;
    in_order = behind ∙ ordered;
    up_to_last = omega (arith, w.up_to_last);
  };
  one_more = count;
  next_number = omega arith;
  same_head = refl;
  same_slots = slots;
}
  where
    last : u32 (s.sequence_number + 1) ≡ s.head + cir_queue_length s.send_buffer
    last = omega (arith, w.up_to_last)

    longer : cir_queue_length q ≡ suc (cir_queue_length s.send_buffer)
    longer = omega (arith, count)

    ordered :
        seqs s.send_buffer ++ (u32 (s.sequence_number + 1) ∷ [])
        ≡ count_up s.head (cir_queue_length q)
    ordered =
        ap (λ (n : ℕ). seqs s.send_buffer ++ (n ∷ [])) last
        ∙ (ap (λ (xs : List ℕ). xs ++ ((s.head + cir_queue_length s.send_buffer) ∷ [])) w.in_order
            ∙ (sym (count_up-last s.head (cir_queue_length s.send_buffer))
                ∙ ap (count_up s.head) (sym longer)))

pub send_new-Sent :
    (s : Sender) (now : ℕ)
    → InWindow s
    → cir_queue_length s.send_buffer + 1 < s.send_buffer.max_qsize
    → s.sequence_number + 1 < 2 ^ 32
    → (r : Sender × Packet) × (send_new s now ≡ ok r) × Sent s r.0
unfolding send_new
send_new-Sent s now w room small =
    let seq : ℕ = u32 (s.sequence_number + 1) in
    let line = read_into s.line_memory s.file in
    let eof = ltb (length s.file) packet_capacity in
    let ts : ℕ = if eof then 0 else now in
    let d : Datagram = record { seq = seq; ts = ts; sendline = line; ack = s.stack_ack } in
    let (q, done, valid, slots, behind, count) = seqs-en s.send_buffer d w.buffer room in
    (
      (
        record s {
          sequence_number = seq;
          send_buffer = q;
          file = drop packet_capacity s.file;
          eof = eof;
          line_memory = zeroed;
        },
        datagram seq ts line,
      ),
      rw done,
      sent s q (drop packet_capacity s.file) eof w small valid slots behind count,
    )

fill-step :
    (P : Sender → Type 0) (s : Sender) (now : ℕ) (stamps : List ℕ) {r : Sender × Packet}
    {t : Sender × List Packet}
    → send_new s now ≡ ok r
    → fill r.0 stamps ≡ ok t
    → P r.0
    → P t.0
    → (u : Sender × List Packet) × (fill s (now ∷ stamps) ≡ ok u) × P u.0
unfolding fill
fill-step P s now stamps {r} {t} p q first rest = elim (Bool-cases r.0.eof) [
  | inl e ↦ ((r.0, r.1 ∷ []), simp (p, e), first)
  | inr e ↦ ((t.0, r.1 ∷ t.1), simp (p, e, q), rest)
]

-- Sending new datagrams, while the buffer has room for them and the sequence numbers fit 32 bits,
-- reads and writes inside the buffer; and afterwards the buffer holds exactly the datagrams from
-- `head` to the last one sent, in order, `head` being as it was.
fill-InWindow :
    (stamps : List ℕ) (s : Sender)
    → InWindow s
    → cir_queue_length s.send_buffer + length stamps < s.send_buffer.max_qsize
    → s.sequence_number + length stamps < 2 ^ 32
    → (r : Sender × List Packet) × (fill s stamps ≡ ok r) × InWindow r.0 × (r.0.head ≡ s.head)
unfolding fill
fill-InWindow [] s w room small = ((s, []), refl, w, refl)
fill-InWindow (now ∷ stamps) s w room small =
    let (r, done, st) = send_new-Sent s now w (omega arith) (omega arith) in
    let (t, rest, w', same) =
      fill-InWindow stamps r.0 st.in_window (omega (arith, st.one_more, st.same_slots))
        (omega (arith, st.next_number)) in
    let (u, whole, kept) =
      fill-step (λ v. InWindow v × (v.head ≡ s.head)) s now stamps done rest
        (st.in_window, st.same_head) (w', same ∙ st.same_head) in
    (u, whole, kept.0, kept.1)
