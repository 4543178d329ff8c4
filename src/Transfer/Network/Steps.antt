-- ===== src/Transfer/Network/Steps.antt =====
-- Every step of server.c and of client.c keeps the invariant.
use cse.Base.{
  zero, suc, some, get_elem?, ℕ, ◌+◌, ◌≡◌, refl, sym, subst, ◌∙◌, ◌⊎◌, inl, inr, Bytes, List, [],
  ◌∷◌, ◌++◌, Bool, true, false, ◌&&◌, All, All-get_elem?, ok, ok_inj, ntohs, Sound, Sound-ok,
  Sound-if, Sound-bind, arith,
}
use cse.Transfer.Chain.{null, link_list_length}
use cse.Transfer.Chain.Order.{Item}
use cse.Transfer.Sender.{Packet, datagram, window_request, header_sent, data_sent, sends}
use cse.Transfer.Sender.Content.{OfFile, IsRight, line_of}
use cse.Transfer.Sender.Turns.{start_round-Sends, on_timeout-Sends, fast_retransmit-Sends}
use cse.Transfer.Sender.Drops.{Acked, on_ack-Acked}
use cse.Transfer.Receiver.{Header, Receiver, on_datagram, on_window_request, print_lines, print_end}
use cse.Transfer.Receiver.Order.{HasCome}
use cse.Transfer.Receiver.Answer.{Promise, Answered, SameHold, on_datagram_lem}
use cse.Transfer.Receiver.Print.{Shown, print_lines_lem}
use cse.Transfer.Receiver.Steps.{lost}
use cse.Transfer.Network.{Network, Step, Reach, begin, and_then}
use cse.Transfer.Network.{
  round_step, timeout_step, retransmit_step, ack_step, datagram_step, request_step, print_step,
  end_step,
}
use cse.Transfer.Network.Invariant.{
  Tells, Inv, answer-le, Sends-Inv, Acked-Inv, received-Inv, SameHold-Inv,
}

-- A header with data behind it was sent for a datagram.
sends-datagram :
    (ps : List Packet) (i : ℕ) {seq ts : ℕ} {line : Bytes}
    → get_elem? (sends ps) i ≡ some (header_sent seq ts)
    → get_elem? (sends ps) (suc i) ≡ some (data_sent line)
    → (j : ℕ) × (get_elem? ps j ≡ some (datagram seq ts line))
unfolding sends
sends-datagram [] i h d = absurd (cc)
sends-datagram (datagram seq' ts' line' ∷ ps) zero {seq} {ts} {line} h d =
    let e : some (header_sent seq' ts') ≡ some (header_sent seq ts) = h in
    let f : some (data_sent line') ≡ some (data_sent line) = d in (0, cc)
sends-datagram (datagram seq' ts' line' ∷ ps) (suc zero) {seq} {ts} h d =
    let e : some (data_sent line') ≡ some (header_sent seq ts) = h in absurd (cc)
sends-datagram (datagram seq' ts' line' ∷ ps) (suc (suc i)) h d =
    let (j, there) = sends-datagram ps i h d in (suc j, there)
sends-datagram (window_request ∷ []) zero h d = absurd (cc)
sends-datagram (window_request ∷ datagram seq' ts' line' ∷ ps) zero {line = line} h d =
    let f : some (header_sent seq' ts') ≡ some (data_sent line) = d in absurd (cc)
sends-datagram (window_request ∷ window_request ∷ ps) zero {line = line} h d =
    let f : some (header_sent 0 0) ≡ some (data_sent line) = d in absurd (cc)
sends-datagram (window_request ∷ ps) (suc i) h d =
    let (j, there) = sends-datagram ps i h d in (suc j, there)

request-SameHold :
    (r : Receiver) (comes goes : Bool)
    → Sound
        (λ (p : Receiver × List Header). SameHold r p.0 × All (λ a. a.seq ≡ 1) p.1)
        (on_window_request r comes goes)
unfolding on_window_request
request-SameHold r comes goes =
    Sound-if (comes && goes) _ _
      (λ _. Sound-bind (link_list_length r.header) _ (λ len _.
        Sound-ok _ (record { list = refl; count = refl; flag = refl; shown = refl }, (refl, tt))))
      (λ _. Sound-ok _ (record { list = refl; count = refl; flag = refl; shown = refl }, tt))

end-SameHold : (r : Receiver) → SameHold r (print_end r)
unfolding print_end
end-SameHold r = record {
  list = ground arith;
  count = ground arith;
  flag = ground arith;
  shown = ground arith;
}

module _ {file : Bytes} where
  -- What an answer promises is true of the file.
  Promise-Tells :
      {n seq ts : ℕ} {line : Bytes} (printed : ℕ) (items : List Item) (a : Header)
      → OfFile file n seq ts line
      → Promise printed items seq ts a.seq
      → Tells file printed items a
  Promise-Tells {seq} printed items a o (inl (z, last, all)) =
      inl (z, record { last = seq; ends = o.last last; come = all })
  Promise-Tells printed items a o (inr (pos, run, _)) = inr (omega arith, run)

  answers-Tells :
      {n seq ts : ℕ} {line : Bytes} {r : Receiver} {xs : List Item} (p : Receiver × List Header)
      → OfFile file n seq ts line
      → (w : Answered (line_of file) r xs seq ts p) → (p.1 ≡ []) ⊎ ((a : Header) × (p.1 ≡ a ∷ []))
      → All (Tells file p.0.printed w.in_order.items) p.1
  answers-Tells p o w (inl e) = rw e tt
  answers-Tells {seq} {ts} {r} p o w (inr (a, e)) = rw e (
    Promise-Tells p.0.printed w.in_order.items a o
        (subst (λ k. Promise k w.in_order.items seq ts a.seq) (sym w.same_count) (w.promise a e)),
    tt,
  )

  come-Inv :
      {s : Network} {seq ts : ℕ} {line : Bytes} (goes : Bool) (p : Receiver × List Header)
      → Inv file s
      → OfFile file s.sender.sequence_number seq ts line
      → on_datagram null s.receiver seq ts line true goes ≡ ok p
      → Inv file (record s { receiver = p.0; answers = p.1 ++ s.answers })
  come-Inv {s} {seq} {ts} {line} goes p inv o e =
      let r = s.receiver in
      let (q, done, answered) =
        on_datagram_lem r seq ts line goes o.right inv.order
          (omega (arith, o.reached, inv.healthy.small)) in
      let w : Answered (line_of file) r inv.order.items seq ts p =
        subst (Answered (line_of file) r inv.order.items seq ts) (ok_inj (sym done ∙ e)) answered in
      received-Inv p.0 p.1 inv w.in_order (omega (arith, w.same_count, inv.printed_sent))
        (w.bound (s.sender.sequence_number + 1) (omega (arith, o.reached)) inv.held_sent)
        (λ k come. subst (λ n. HasCome n w.in_order.items k) (sym w.same_count) (w.keeps k come))
        (answers-Tells p o w w.one_answer)

  lost-Inv :
      {s : Network} (seq ts : ℕ) (line : Bytes) (goes : Bool) (p : Receiver × List Header)
      → Inv file s
      → on_datagram null s.receiver seq ts line false goes ≡ ok p
      → Inv file (record s { receiver = p.0; answers = p.1 ++ s.answers })
  lost-Inv {s} seq ts line goes p inv e =
      subst
        (λ (p : Receiver × List Header).
          Inv file (record s { receiver = p.0; answers = p.1 ++ s.answers }))
        (ok_inj (sym (lost s.receiver seq ts line goes) ∙ e)) inv

  datagram-Inv :
      {s : Network} {seq ts : ℕ} {line : Bytes} (comes goes : Bool) (p : Receiver × List Header)
      → Inv file s
      → OfFile file s.sender.sequence_number seq ts line
      → on_datagram null s.receiver seq ts line comes goes ≡ ok p
      → Inv file (record s { receiver = p.0; answers = p.1 ++ s.answers })
  datagram-Inv true goes p inv o e = come-Inv goes p inv o e
  datagram-Inv {s} {seq} {ts} {line} false goes p inv o e = lost-Inv seq ts line goes p inv e

  print-Inv :
      {s : Network} (u : Receiver)
      → Inv file s
      → print_lines s.receiver ≡ ok u
      → Inv file (record s { receiver = u })
  print-Inv {s} u inv e =
      let (v, done, shown) = print_lines_lem s.receiver inv.order in
      let w : Shown (line_of file) s.receiver inv.order.items u =
        subst (Shown (line_of file) s.receiver inv.order.items) (ok_inj (sym done ∙ e)) shown in
      let (few, under) = w.bound (s.sender.sequence_number + 1) inv.printed_sent inv.held_sent in
      received-Inv u [] inv w.in_order few under w.keeps tt

  pub Step-Inv : {s t : Network} → Step null s t → Inv file s → Inv file t
  Step-Inv {s} (round_step stamps r fits e) inv =
      Sends-Inv r inv ((start_round-Sends s.sender stamps inv.healthy fits).at r e)
  Step-Inv {s} (timeout_step opened r some_wait e) inv =
      Sends-Inv r inv ((on_timeout-Sends s.sender opened inv.healthy some_wait).at r e)
  Step-Inv {s} (retransmit_step opened stamps r fits some_wait e) inv =
      Sends-Inv r inv
        ((fast_retransmit-Sends s.sender opened stamps inv.healthy fits some_wait).at r e)
  Step-Inv {s} (ack_step i a r there e) inv =
      let told =
        All-get_elem? (Tells file s.receiver.printed inv.order.items) s.answers i inv.answers_true
          there in
      let (q, done, acked) =
        on_ack-Acked s.sender a.seq (ntohs a.recv_window) inv.healthy (answer-le inv a told) in
      Acked-Inv a r inv told (subst (Acked file s.sender a.seq) (ok_inj (sym done ∙ e)) acked)
  Step-Inv {s} (datagram_step i seq ts line comes goes p running header there e) inv =
      let (j, whole) = sends-datagram s.sent i header there in
      datagram-Inv comes goes p inv
        (All-get_elem? (IsRight file s.sender.sequence_number) s.sent j inv.sent_right whole) e
  Step-Inv {s} (request_step comes goes p running e) inv =
      let (same, told) = (request-SameHold s.receiver comes goes).at p e in
      SameHold-Inv p.0 p.1 inv same told
  Step-Inv {s} (print_step u e) inv = print-Inv u inv e
  Step-Inv {s} end_step inv =
      SameHold-Inv (print_end s.receiver) [] inv (end-SameHold s.receiver) tt

pub Reach-Inv : {file : Bytes} {s t : Network} → Inv file s → Reach null s t → Inv file t
Reach-Inv inv begin = inv
Reach-Inv inv (and_then r step) = Step-Inv step (Reach-Inv inv r)
