-- ===== src/Transfer/Sender/Full.antt =====
-- A round of server.c whose window is as large as the buffer.
use native.Mathlib.Nat.{mod_self}
use cse.Base.{
  ℕ, suc, ◌+◌, ◌-◌, ◌*◌, ◌≤◌, ◌<◌, ◌≡◌, refl, ap, List, [], ◌∷◌, ◌++◌, true, false, ltb,
  if◌then◌else◌, length, length-append, length-drop, drop, u32, ok, arith,
}
use cse.Transfer.Queue.{Datagram, CirQueue, is_empty, cir_queue_length}
use cse.Transfer.Queue.Fifo.{IsValid, contents, length-contents, en_cir_queue_lem}
use cse.Transfer.Sender.{
  Sender, Packet, datagram, packet_capacity, read_into, zeroed, send_new, fill, choose_window,
  resend, resend_count, start_round, more_to_send,
}

-- What `send_new` leaves where the file has a whole datagram left.
record SentOne (s t : Sender) : Type 0 where
  valid : IsValid t.send_buffer
  same_slots : t.send_buffer.max_qsize ≡ s.send_buffer.max_qsize
  not_last : t.eof ≡ false
  file_left : length t.file + 500 ≡ length s.file
  one_more :
      cir_queue_length s.send_buffer + 1 < s.send_buffer.max_qsize
      → cir_queue_length t.send_buffer ≡ cir_queue_length s.send_buffer + 1
  emptied :
      cir_queue_length s.send_buffer + 1 ≡ s.send_buffer.max_qsize → contents t.send_buffer ≡ []

longer :
    (q q' : CirQueue) (d : Datagram)
    → contents q' ≡ contents q ++ (d ∷ [])
    → cir_queue_length q' ≡ cir_queue_length q + 1
longer q q' d e = omega (
  arith,
  ap (length {A = Datagram}) e,
  length-append (contents q) (d ∷ []),
  length-contents q,
  length-contents q',
)

not_short : (n m : ℕ) → m ≤ n → ltb n m ≡ false
not_short n m h = ground arith

send_new-SentOne :
    (s : Sender) (now : ℕ)
    → IsValid s.send_buffer
    → 500 ≤ length s.file
    → (r : Sender × Packet) × (send_new s now ≡ ok r) × SentOne s r.0
unfolding send_new
send_new-SentOne s now v enough =
    let seq : ℕ = u32 (s.sequence_number + 1) in
    let line = read_into s.line_memory s.file in
    let eof = ltb (length s.file) packet_capacity in
    let ts : ℕ = if eof then 0 else now in
    let d : Datagram = record { seq = seq; ts = ts; sendline = line; ack = s.stack_ack } in
    let (q, done, valid, slots, grown, lost) = en_cir_queue_lem d v in
    let more : eof ≡ false = not_short (length s.file) 500 enough in
    (
      (
        record s {
          sequence_number = seq;
          send_buffer = q;
          file = drop packet_capacity s.file;
          eof = eof;
          line_memory = zeroed;
        },
        datagram seq ts line,
      ),
      rw done,
      record {
        valid = valid;
        same_slots = slots;
        not_last = more;
        file_left = omega (arith, length-drop 500 s.file);
        one_more = λ room. longer s.send_buffer q d (grown room);
        emptied = lost;
      },
    )

fill_one :
    (s : Sender) (now : ℕ) (stamps : List ℕ) {r : Sender × Packet} {t : Sender × List Packet}
    → send_new s now ≡ ok r
    → r.0.eof ≡ false
    → fill r.0 stamps ≡ ok t
    → fill s (now ∷ stamps) ≡ ok (t.0, r.1 ∷ t.1)
unfolding fill
fill_one s now stamps sent more rest = simp (sent, more, rest)

fill_none : (s : Sender) → fill s [] ≡ ok (s, [])
unfolding fill
fill_none s = refl

-- Datagrams up to the number of slots, and what is left of them.
fill_all :
    (stamps : List ℕ) (now : ℕ) (s : Sender)
    → IsValid s.send_buffer
    → cir_queue_length s.send_buffer + suc (length stamps) ≡ s.send_buffer.max_qsize
    → 500 * suc (length stamps) ≤ length s.file
    → (r : Sender × List Packet) × (fill s (now ∷ stamps) ≡ ok r)
      × (length r.1 ≡ suc (length stamps))
      × (contents r.0.send_buffer ≡ [])
fill_all [] now s v exact enough =
    let (r, sent, o) = send_new-SentOne s now v (omega arith) in
    (
      (r.0, r.1 ∷ []),
      fill_one s now [] sent o.not_last (fill_none r.0),
      refl,
      o.emptied (omega arith),
    )
fill_all (next ∷ stamps) now s v exact enough =
    let (r, sent, o) = send_new-SentOne s now v (omega arith) in
    let (t, rest, count, empty) =
      fill_all stamps next r.0 o.valid (omega (arith, o.same_slots, o.one_more (omega arith)))
        (omega (arith, o.file_left)) in
    (
      (t.0, r.1 ∷ t.1),
      fill_one s now (next ∷ stamps) sent o.not_last rest,
      omega (arith, count),
      empty,
    )

length_empty : (q : CirQueue) → IsValid q → is_empty q ≡ true → cir_queue_length q ≡ 0
unfolding is_empty cir_queue_length
length_empty q v h =
    let e : q.rear + q.max_qsize - q.front ≡ q.max_qsize = ground arith in
    rw e (mod_self q.max_qsize)

start_empty :
    (s : Sender) (stamps : List ℕ) {r : Sender × List Packet}
    → is_empty s.send_buffer ≡ true
    → fill (record (choose_window s) { received = 0 }) stamps ≡ ok r
    → start_round s stamps ≡ ok r
unfolding start_round choose_window resend_count resend
start_empty s stamps empty done = rw (empty, done) refl

-- A round that starts with an empty buffer, a window of as many datagrams as the buffer has slots,
-- and a file with enough for them: it sends them all, and its buffer then counts as empty.
pub full_window_lost :
    (s : Sender) (now : ℕ) (stamps : List ℕ)
    → IsValid s.send_buffer
    → is_empty s.send_buffer ≡ true
    → (choose_window s).sending_window ≡ s.send_buffer.max_qsize
    → length (now ∷ stamps) ≡ more_to_send s
    → 500 * length (now ∷ stamps) ≤ length s.file
    → (r : Sender × List Packet) × (start_round s (now ∷ stamps) ≡ ok r)
      × (length r.1 ≡ s.send_buffer.max_qsize)
      × (contents r.0.send_buffer ≡ [])
unfolding more_to_send choose_window
full_window_lost s now stamps v empty window count enough =
    let none_held = length_empty s.send_buffer v empty in
    let u : Sender = record (choose_window s) { received = 0 } in
    let (r, done, all, lost) =
      fill_all stamps now u v (omega (arith, count, window, none_held)) enough in
    (r, start_empty s (now ∷ stamps) empty done, omega (arith, all, count, window, none_held), lost)
