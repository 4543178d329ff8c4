-- ===== src/Transfer/Sender/Healthy.antt =====
-- The invariant of the transfer loop of server.c, over whole rounds, timeouts, acknowledgements and
-- fast retransmits.
use cse.Base.{
  ℕ, ◌+◌, ◌-◌, ◌*◌, ◌^◌, ◌≤◌, ◌<◌, ◌≡◌, refl, sym, ap, ap₂, subst, ◌∙◌, inl, inr, Bytes, List, [],
  ◌∷◌, map, leb, length, take, drop, All, All-take, Sound, Sound-ok, Sound-fault, Sound-if,
  Sound-bind, Sound-known, arith, Bool-cases,
}
use cse.Transfer.Queue.{Datagram, cir_queue_length}
use cse.Transfer.Queue.Fifo.{IsValid, contents}
use cse.Transfer.Sender.{Sender, Packet, fill, resend}
use cse.Transfer.Sender.Window.{InWindow, seqs, count_up}
use cse.Transfer.Sender.Resend.{packet_of, resend_lem}
use cse.Transfer.Sender.Content.{
  Carries, IsCleared, IsKept, IsRight, later_IsRight, SentLine, send_new-SentLine,
}

pub record Healthy (file : Bytes) (s : Sender) : Type 0 where
  pub in_window : InWindow s
  pub carries : Carries file s
  pub small : s.sequence_number < 2 ^ 32 - 1

-- The variables that the invariant reads.
pub record SameBuffer (s t : Sender) : Type 0 where
  pub buffer : t.send_buffer ≡ s.send_buffer
  pub head : t.head ≡ s.head
  pub number : t.sequence_number ≡ s.sequence_number
  pub file : t.file ≡ s.file
  pub memory : t.line_memory ≡ s.line_memory

pub Healthy-same : {file : Bytes} {s t : Sender} → SameBuffer s t → Healthy file s → Healthy file t
Healthy-same {file} {s} {t} e h = record {
  in_window = record {
    buffer = subst IsValid (sym e.buffer) h.in_window.buffer;
    in_order =
        ap seqs e.buffer
        ∙ (h.in_window.in_order ∙ ap₂ count_up (sym e.head) (ap cir_queue_length (sym e.buffer)));
    up_to_last =
        omega (arith, h.in_window.up_to_last, ap cir_queue_length e.buffer, e.head, e.number);
  };
  carries = record {
    buffered =
        subst (λ q. All (IsKept file t.sequence_number) (contents q)) (sym e.buffer)
          (subst (λ n. All (IsKept file n) (contents s.send_buffer)) (sym e.number)
            h.carries.buffered);
    unread = e.file ∙ (h.carries.unread ∙ ap (λ n. drop (500 * n) file) (sym e.number));
    plain = h.carries.plain;
    cleared = subst IsCleared (sym e.memory) h.carries.cleared;
  };
  small = omega (arith, h.small, e.number);
}

-- What a step that sends leaves: the invariant, `head` as it was, and packets of the file.
pub record Sends (file : Bytes) (s : Sender) (r : Sender × List Packet) : Type 0 where
  pub healthy : Healthy file r.0
  pub same_head : r.0.head ≡ s.head
  pub grows : s.sequence_number ≤ r.0.sequence_number
  pub right : All (IsRight file r.0.sequence_number) r.1

-- As many time stamps as there is room for in the buffer and in the sequence numbers. The stamp 0
-- is that of the last datagram.
pub record Fits (s : Sender) (stamps : List ℕ) : Type 0 where
  pub room : cir_queue_length s.send_buffer + length stamps < s.send_buffer.max_qsize
  pub numbers : s.sequence_number + length stamps < 2 ^ 32 - 1
  pub positive : All (λ now. 0 < now) stamps

module _ {file : Bytes} where
  after_new :
      (s : Sender) {r : Sender × Packet} (now : ℕ) (stamps : List ℕ)
      → Healthy file s
      → Fits s (now ∷ stamps)
      → SentLine file s r
      → Healthy file r.0 × Fits r.0 stamps
  after_new s now stamps h f l = (
    record {
      in_window = l.sent.in_window;
      carries = l.carries;
      small = omega (arith, l.sent.next_number, f.numbers);
    },
    record {
      room = omega (arith, l.sent.one_more, l.sent.same_slots, f.room);
      numbers = omega (arith, l.sent.next_number, f.numbers);
      positive = f.positive.1;
    },
  )

  one_sent :
      (s : Sender) (r : Sender × Packet)
      → Healthy file r.0
      → SentLine file s r
      → Sends file s (r.0, r.1 ∷ [])
  one_sent s r h l = record {
    healthy = h;
    same_head = l.sent.same_head;
    grows = omega (arith, l.sent.next_number);
    right = (l.right, tt);
  }

  more_sent :
      (s : Sender) (r : Sender × Packet) (t : Sender × List Packet)
      → SentLine file s r
      → Sends file r.0 t
      → Sends file s (t.0, r.1 ∷ t.1)
  more_sent s r t l m = record {
    healthy = m.healthy;
    same_head = m.same_head ∙ l.sent.same_head;
    grows = omega (arith, l.sent.next_number, m.grows);
    right = (later_IsRight file m.grows r.1 l.right, m.right);
  }

  -- New datagrams.
  pub fill-Sends :
      (stamps : List ℕ) (s : Sender)
      → Healthy file s
      → Fits s stamps
      → Sound (Sends file s) (fill s stamps)
  unfolding fill
  fill-Sends [] s h f =
      Sound-ok _ (record { healthy = h; same_head = refl; grows = omega arith; right = tt })
  fill-Sends (now ∷ stamps) s h f = Sound-bind _ _ (λ r done.
      let l =
        (send_new-SentLine s now h.in_window h.carries (omega (arith, f.room))
            (omega (arith, f.numbers)) f.positive.0).at
          r done in
      let (h', f') = after_new s now stamps h f l in
      Sound-if r.0.eof _ _ (λ _. Sound-ok _ (one_sent s r h' l))
        (λ _.
          Sound-bind _ _
            (λ t rest. Sound-ok _ (more_sent s r t l ((fill-Sends stamps r.0 h' f').at t rest)))))

  -- The datagrams that go out again.
  pub resend-IsRight :
      (s : Sender) (n : ℕ)
      → Healthy file s
      → n ≤ cir_queue_length s.send_buffer
      → Sound (All (IsRight file s.sequence_number)) (resend s.send_buffer 0 n)
  resend-IsRight s n h le =
      let (inside, outside) = resend_lem n h.in_window.buffer le in
      elim (Bool-cases (leb (s.send_buffer.front + n) s.send_buffer.max_qsize)) [
        | inl p ↦ Sound-known (inside (ground arith)) (
            packets (take n (contents s.send_buffer)) (
              All-take (IsKept file s.sequence_number) n (contents s.send_buffer)
                h.carries.buffered))
        | inr p ↦ let e = outside (ground arith) in subst (Sound _) (sym e) Sound-fault
      ]
    where
      packets :
          (ds : List Datagram)
          → All (IsKept file s.sequence_number) ds
          → All (IsRight file s.sequence_number) (map packet_of ds)
      packets [] k = tt
      packets (d ∷ ds) k = (k.0, packets ds k.1)
