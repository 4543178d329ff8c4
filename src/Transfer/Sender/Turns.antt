-- ===== src/Transfer/Sender/Turns.antt =====
-- The steps of server.c that send: a round, a timeout and a fast retransmit.
use cse.Base.{
  ℕ, zero, suc, ◌-◌, ◌*◌, ◌/◌, ◌≤◌, ◌<◌, ◌≡◌, refl, sym, subst, ◌∙◌, Bytes, List, [], ◌∷◌, ◌++◌,
  ◌==◌, if◌then◌else◌, length, take, All, All-append, All-imp, All-take, Sound, Sound-ok, Sound-if,
  Sound-bind, arith,
}
use cse.Transfer.Queue.{cir_queue_length}
use cse.Transfer.Sender.{
  Sender, Packet, resend_count, choose_window, three_min, start_round, half_window, on_timeout,
  fast_retransmit,
}
use cse.Transfer.Sender.Content.{IsRight, later_IsRight}
use cse.Transfer.Sender.Healthy.{Healthy, Healthy-same, Sends, Fits, fill-Sends, resend-IsRight}

resend_count-le : (s : Sender) → resend_count s ≤ cir_queue_length s.send_buffer
unfolding resend_count
resend_count-le s = ground arith

length-take_le : (n : ℕ) (xs : List ℕ) → length (take n xs) ≤ length xs
length-take_le zero xs = omega arith
length-take_le (suc n) [] = omega arith
length-take_le (suc n) (x ∷ xs) = omega (arith, length-take_le n xs)

module _ {file : Bytes} where
  -- The old packets go out before the new ones.
  joined :
      (s u : Sender) (old : List Packet) (r : Sender × List Packet)
      → u.head ≡ s.head
      → u.sequence_number ≡ s.sequence_number
      → All (IsRight file s.sequence_number) old
      → Sends file u r
      → Sends file s (r.0, old ++ r.1)
  joined s u old r head number right m = record {
    healthy = m.healthy;
    same_head = m.same_head ∙ head;
    grows = omega (arith, m.grows, number);
    right =
        All-append (IsRight file r.0.sequence_number) old r.1
          (All-imp
            (λ (p : Packet) (o : IsRight file s.sequence_number p).
              later_IsRight file (omega (arith, m.grows, number)) p o)
            old right)
          m.right;
  }

  only_old :
      (s u : Sender) (old : List Packet)
      → Healthy file u
      → u.head ≡ s.head
      → u.sequence_number ≡ s.sequence_number
      → All (IsRight file s.sequence_number) old
      → Sends file s (u, old)
  only_old s u old h head number right = record {
    healthy = h;
    same_head = head;
    grows = omega (arith, number);
    right = subst (λ n. All (IsRight file n) old) (sym number) right;
  }

  unread_same :
      (s u : Sender)
      → u.send_buffer ≡ s.send_buffer
      → u.head ≡ s.head
      → u.sequence_number ≡ s.sequence_number
      → u.file ≡ s.file
      → u.line_memory ≡ s.line_memory
      → Healthy file s
      → Healthy file u
  unread_same s u buffer head number file memory =
      Healthy-same
        (record { buffer = buffer; head = head; number = number; file = file; memory = memory })

  -- A round.
  pub start_round-Sends :
      (s : Sender) (stamps : List ℕ)
      → Healthy file s
      → Fits s stamps
      → Sound (Sends file s) (start_round s stamps)
  unfolding start_round choose_window
  start_round-Sends s stamps h f = Sound-bind _ _ (λ old again. Sound-bind _ _ (λ r new.
      let old_right = (resend-IsRight s (resend_count chosen) h le).at old again in
      let h' = unread_same s started refl refl refl refl refl h in
      let f' : Fits started stamps = record {
        room = f.room;
        numbers = f.numbers;
        positive = f.positive;
      } in
      let sent = (fill-Sends stamps started h' f').at r new in
      Sound-ok _ (joined s started old r refl refl old_right sent)))
    where
      chosen : Sender
      chosen = record s { sending_window = three_min s.cwnd s.send_window s.recv_window }

      started : Sender
      started = record chosen { received = 0 }

      le : resend_count chosen ≤ cir_queue_length s.send_buffer
      le = resend_count-le chosen

  -- A timeout while a datagram waits for its acknowledgement.
  pub on_timeout-Sends :
      (s : Sender) (opened : ℕ)
      → Healthy file s
      → 0 < cir_queue_length s.send_buffer
      → Sound (Sends file s) (on_timeout s opened)
  unfolding on_timeout
  on_timeout-Sends s opened h some_wait = Sound-bind _ _ (λ old again. Sound-ok _ (
      only_old s _ old (unread_same s _ refl refl refl refl refl h) refl refl
        ((resend-IsRight s 1 h (omega arith)).at old again)))

  -- A fast retransmit while a datagram waits for its acknowledgement.
  pub fast_retransmit-Sends :
      (s : Sender) (opened : ℕ) (stamps : List ℕ)
      → Healthy file s
      → Fits s stamps
      → 0 < cir_queue_length s.send_buffer
      → Sound (Sends file s) (fast_retransmit s opened stamps)
  unfolding fast_retransmit
  fast_retransmit-Sends s opened stamps h f some_wait = Sound-bind _ _ (λ old again.
      let old_right = (resend-IsRight s 1 h (omega arith)).at old again in
      Sound-if s.eof _ _
        (λ _.
          Sound-ok _
            (only_old s _ old (unread_same s _ refl refl refl refl refl h) refl refl old_right))
        (λ _. Sound-bind _ _ (λ r new.
          let sent = (fill-Sends (take n stamps) started started-Healthy started-Fits).at r new in
          Sound-ok _ (joined s started old r refl refl old_right sent))))
    where
      opened_window : ℕ
      opened_window = if s.recv_window == 0 then opened else s.recv_window

      n : ℕ
      n = three_min (half_window s.cwnd) s.send_window opened_window * 2 / 2 - 1

      started : Sender
      started = record s {
        recv_window = opened_window;
        cwnd = half_window s.cwnd;
        ssh = half_window s.cwnd;
        received = 0;
        sending_window = three_min (half_window s.cwnd) s.send_window opened_window * 2;
      }

      started-Healthy : Healthy file started
      started-Healthy = unread_same s started refl refl refl refl refl h

      started-Fits : Fits started (take n stamps)
      started-Fits = record {
        room = omega (arith, f.room, length-take_le n stamps);
        numbers = omega (arith, f.numbers, length-take_le n stamps);
        positive = All-take (λ now. 0 < now) n stamps f.positive;
      }
