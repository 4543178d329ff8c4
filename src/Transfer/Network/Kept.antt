-- ===== src/Transfer/Network/Kept.antt =====
-- What the invariant says of the lines that have come and of those that have not.
use cse.Base.{
  before_nul, ℕ, zero, suc, ◌+◌, ◌-◌, ◌*◌, ◌≤◌, ◌<◌, ◌≡◌, refl, sym, ap, ap₂, ◌∙◌, ◌⊎◌, inl, inr,
  Bytes, List, [], ◌++◌, Bool, true, false, ltb, Bool-cases, ltb→lt, some, take, drop, drop-drop,
  take_add, take_all, All-get_elem?, get_elem?, get_elem?_total, get_elem?-map, ok, arith, concat,
  ntohs,
}
use cse.Transfer.Queue.{Datagram, cir_queue_length}
use cse.Transfer.Queue.Fifo.{contents, length-contents}
use cse.Transfer.Chain.{null}
use cse.Transfer.Chain.Order.{IsNextAck}
use cse.Transfer.Sender.{Sender, Next, on_ack}
use cse.Transfer.Sender.Window.{count_up}
use cse.Transfer.Sender.Content.{OfFile, line_of, IsKept}
use cse.Transfer.Sender.Drops.{on_ack-Acked}
use cse.Transfer.Receiver.{Header, Receiver, on_datagram, print_lines}
use cse.Transfer.Receiver.Order.{span, InOrder}
use cse.Transfer.Receiver.Answer.{on_datagram_lem}
use cse.Transfer.Receiver.Steps.{lost}
use cse.Transfer.Receiver.Print.{print_lines_lem}
use cse.Transfer.Network.{Network}
use cse.Transfer.Network.Invariant.{Tells, WholeCome, Inv, answer-le, come-lt}

concat-span :
    (file : Bytes) (m k : ℕ)
    → concat (span (line_of file) k m) ≡ take (500 * m) (drop (500 * k) file)
concat-span file zero k = refl
concat-span file (suc m) k =
    let e : k + 1 - 1 ≡ k = omega arith in
    let f : 500 * k + 500 ≡ 500 * (k + 1) = omega arith in
    let g : 500 + 500 * m ≡ 500 * suc m = omega arith in
    let there = drop-drop (500 * k) 500 file ∙ ap (λ n. drop n file) f in
    ap₂ (λ a b. take 500 (drop (500 * a) file) ++ b) e
      (concat-span file m (k + 1) ∙ ap (take (500 * m)) (sym there))
    ∙ (take_add 500 (500 * m) (drop (500 * k) file) ∙ ap (λ n. take n (drop (500 * k) file)) g)

get_elem?-count_up : (h n i : ℕ) → i < n → get_elem? (count_up h n) i ≡ some (h + i)
get_elem?-count_up h zero i lt = absurd (omega arith)
get_elem?-count_up h (suc n) zero lt = ap some (omega arith)
get_elem?-count_up h (suc n) (suc i) lt =
    let e : h + 1 + i ≡ h + suc i = omega arith in
    get_elem?-count_up (h + 1) n i (omega arith) ∙ ap some e

some_inj {ℓ} : {A : Type ℓ} {a b : A} → some a ≡ some b → a ≡ b
some_inj h = cc

-- The buffer has a datagram with line `a` of the file as its text.
abbrev pub IsBuffered : Bytes → Sender → ℕ → Type 0
IsBuffered file s a =
    (d : Datagram) × (get_elem? (contents s.send_buffer) (a - s.head) ≡ some d)
    × (d.seq ≡ a)
    × (before_nul d.sendline ≡ line_of file a)

-- What is printed of the file.
pub shown :
    (file : Bytes) {r : Receiver}
    → InOrder (line_of file) r
    → concat r.output ≡ take (500 * r.printed) file
shown file {r} w = ap concat w.shown ∙ concat-span file r.printed 0

module _ {file : Bytes} where
  pub buffered :
      {s : Network} (a : ℕ)
      → Inv file s
      → s.sender.head ≤ a
      → a ≤ s.sender.sequence_number
      → IsBuffered file s.sender a
  buffered {s} a inv from_head up_to =
      let w = inv.healthy.in_window in
      let held = contents s.sender.send_buffer in
      let few : a - s.sender.head < cir_queue_length s.sender.send_buffer =
        omega (arith, w.up_to_last) in
      let (d, there) =
        get_elem?_total held (a - s.sender.head)
          (omega (arith, length-contents s.sender.send_buffer)) in
      let number : some d.seq ≡ some (s.sender.head + (a - s.sender.head)) =
        sym (get_elem?-map (λ (d : Datagram). d.seq) held (a - s.sender.head) there)
        ∙ (ap (λ xs. get_elem? xs (a - s.sender.head)) w.in_order
            ∙ get_elem?-count_up s.sender.head (cir_queue_length s.sender.send_buffer)
                (a - s.sender.head) few) in
      let same : d.seq ≡ a = some_inj number ∙ omega arith in
      let kept =
        All-get_elem? (IsKept file s.sender.sequence_number) held (a - s.sender.head)
          inv.healthy.carries.buffered there in
      (d, there, same, kept.right ∙ ap (line_of file) same)

  -- The first line that has not come has a number from `head` to one past the last one sent.
  lacking-le :
      {s : Network} (a : ℕ) (inv : Inv file s)
      → IsNextAck inv.order.items s.receiver.printed a
      → (s.sender.head ≤ a) × (a ≤ s.sender.sequence_number + 1)
  lacking-le {s} a inv (above, run, gap) = (
    elim (Bool-cases (ltb a s.sender.head)) [
      | inr ge ↦ ground arith
      | inl lt ↦ elim (inv.acked_come a (ltb→lt _ _ lt)) [
        | inl le ↦ absurd (omega arith)
        | inr there ↦ absurd (there gap)
      ]
    ],
    elim (Bool-cases (ltb (s.sender.sequence_number + 1) a)) [
      | inr ge ↦ ground arith
      | inl lt ↦
          let n = s.sender.sequence_number + 1 in
          let beyond =
            come-lt s.receiver.printed n n inv.order.items inv.printed_sent inv.held_sent
              (inr (run n inv.printed_sent (ltb→lt _ _ lt))) in
          absurd (omega arith)
    ],
  )

  pub lacking :
      {s : Network} (a : ℕ) (inv : Inv file s)
      → IsNextAck inv.order.items s.receiver.printed a
      → (a ≡ s.sender.sequence_number + 1) ⊎ IsBuffered file s.sender a
  lacking {s} a inv is_next =
      let (from_head, up_to) = lacking-le a inv is_next in
      elim (Bool-cases (ltb a (s.sender.sequence_number + 1))) [
        | inl lt ↦ inr (buffered a inv from_head (ground arith))
        | inr ge ↦ inl (ground arith)
      ]

  pub acks_total :
      {s : Network}
      → (inv : Inv file s) (a : Header) → Tells file s.receiver.printed inv.order.items a
      → (r : Sender × Next) × (on_ack s.sender a.seq (ntohs a.recv_window) ≡ ok r)
  acks_total {s} inv a told =
      let (r, done, _) =
        on_ack-Acked s.sender a.seq (ntohs a.recv_window) inv.healthy (answer-le inv a told) in
      (r, done)

  pub datagrams_total :
      {s : Network} {seq ts : ℕ} {line : Bytes} (comes goes : Bool)
      → Inv file s
      → OfFile file s.sender.sequence_number seq ts line
      → (p : Receiver × List Header) × (on_datagram null s.receiver seq ts line comes goes ≡ ok p)
  datagrams_total {s} {seq} {ts} {line} true goes inv o =
      let (p, done, _) =
        on_datagram_lem s.receiver seq ts line goes o.right inv.order
          (omega (arith, o.reached, inv.healthy.small)) in
      (p, done)
  datagrams_total {s} {seq} {ts} {line} false goes inv o =
      ((s.receiver, []), lost s.receiver seq ts line goes)

  pub whole_shown :
      {s : Network}
      → (inv : Inv file s) → WholeCome file s.receiver.printed inv.order.items
      → (u : Receiver) × (print_lines s.receiver ≡ ok u) × (concat u.output ≡ file)
  whole_shown {s} inv w =
      let (u, done, k) = print_lines_lem s.receiver inv.order in
      (
        u,
        done,
        shown file k.in_order
            ∙ take_all (500 * u.printed) file (omega (arith, w.ends, k.up_to w.last w.come)),
      )

  pub whole_of :
      {s : Network} (inv : Inv file s) (a : Header)
      → a.seq ≡ 0
      → Tells file s.receiver.printed inv.order.items a
      → WholeCome file s.receiver.printed inv.order.items
  whole_of inv a z (inl (_, w)) = w
  whole_of inv a z (inr (pos, _)) = absurd (omega arith)
