-- ===== src/Transfer/Network/Invariant.antt =====
-- What holds of server.c and client.c at every moment of a transfer.
use cse.Base.{
  ℕ, ◌+◌, ◌*◌, ◌≤◌, ◌<◌, ◌≡◌, ◌≢◌, refl, max, sym, ap, subst, ◌∙◌, ◌⊎◌, inl, inr, Bytes, List, [],
  ◌∷◌, ◌++◌, none, ltb, ◌==◌, length, All, All-append, All-imp, arith, Bool-cases, ltb→lt,
}
use cse.Transfer.Chain.Order.{Item, Under, find}
use cse.Transfer.Sender.{Sender, Packet, Next}
use cse.Transfer.Sender.Content.{IsRight, later_IsRight, line_of}
use cse.Transfer.Sender.Healthy.{Healthy, Sends}
use cse.Transfer.Sender.Drops.{Acked}
use cse.Transfer.Receiver.{Header, Receiver}
use cse.Transfer.Receiver.Order.{span, Holds, InOrder, HasCome}
use cse.Transfer.Receiver.Answer.{SameHold}
use cse.Transfer.Network.{Network}

-- The whole file has come: all lines to one in which it ends.
pub record WholeCome (file : Bytes) (printed : ℕ) (items : List Item) : Type 0 where
  pub last : ℕ
  pub ends : length file < 500 * last
  pub come : (k : ℕ) → k ≤ last → HasCome printed items k

-- What the number of an acknowledgement says of the client: 0 that the whole file has come, any
-- other that the lines below it have.
abbrev pub Tells : Bytes → ℕ → List Item → Header → Type 0
Tells file printed items a =
    ((a.seq ≡ 0) × WholeCome file printed items)
    ⊎ ((0 < a.seq) × ((k : ℕ) → k < a.seq → HasCome printed items k))

pub record Inv (file : Bytes) (s : Network) : Type 0 where
  pub healthy : Healthy file s.sender
  pub order : InOrder (line_of file) s.receiver
  pub printed_sent : s.receiver.printed < s.sender.sequence_number + 1
  pub held_sent : Under (s.sender.sequence_number + 1) order.items
  pub sent_right : All (IsRight file s.sender.sequence_number) s.sent
  pub answers_true : All (Tells file s.receiver.printed order.items) s.answers
  pub acked_come : (k : ℕ) → k < s.sender.head → HasCome s.receiver.printed order.items k

find-Under : (xs : List Item) (top k : ℕ) → Under top xs → find k xs ≢ none → k < top
unfolding find
find-Under [] top k u there = absurd (there refl)
find-Under ((s, l) ∷ xs) top k u there = elim (Bool-cases (s == k)) [
  | inl e ↦ ground (arith, u.0)
  | inr ne ↦ find-Under xs top k u.1 (rw ne at there)
]

-- Only lines that were sent have come.
pub come-lt :
    (printed top k : ℕ) (items : List Item)
    → printed < top
    → Under top items
    → HasCome printed items k
    → k < top
come-lt printed top k items lt u (inl le) = omega arith
come-lt printed top k items lt u (inr there) = find-Under items top k u there

Under-le : (xs : List Item) {top more : ℕ} → top ≤ more → Under top xs → Under more xs
Under-le [] le u = tt
Under-le ((s, l) ∷ xs) le (lt, u) = (omega arith, Under-le xs le u)

module _ {file : Bytes} where
  later_Tells :
      {printed printed' : ℕ} {items items' : List Item}
      → ((k : ℕ) → HasCome printed items k → HasCome printed' items' k)
      → (a : Header) → Tells file printed items a
      → Tells file printed' items' a
  later_Tells keeps a (inl (z, w)) =
      inl (z, record { last = w.last; ends = w.ends; come = λ k le. keeps k (w.come k le) })
  later_Tells keeps a (inr (pos, come)) = inr (pos, λ k lt. keeps k (come k lt))

  -- The number of an acknowledgement is at most one more than the last one sent.
  pub answer-le :
      {s : Network} (inv : Inv file s) (a : Header)
      → Tells file s.receiver.printed inv.order.items a
      → a.seq ≤ s.sender.sequence_number + 1
  answer-le inv a (inl (z, _)) = omega arith
  answer-le {s} inv a (inr (pos, come)) =
      elim (Bool-cases (ltb (s.sender.sequence_number + 1) a.seq)) [
        | inl lt ↦
            let n = s.sender.sequence_number + 1 in
            let beyond =
              come-lt s.receiver.printed n n inv.order.items inv.printed_sent inv.held_sent
                (come n (ltb→lt _ _ lt)) in
            absurd (omega arith)
        | inr ge ↦ ground arith
      ]

  -- A step of the server that sends.
  pub Sends-Inv :
      {s : Network} (r : Sender × List Packet)
      → Inv file s
      → Sends file s.sender r
      → Inv file (record s { sender = r.0; sent = r.1 ++ s.sent })
  Sends-Inv {s} r inv m = record {
    healthy = m.healthy;
    order = inv.order;
    printed_sent = omega (arith, inv.printed_sent, m.grows);
    held_sent = Under-le inv.order.items (omega (arith, m.grows)) inv.held_sent;
    sent_right = All-append (IsRight file r.0.sequence_number) r.1 s.sent m.right (
        All-imp
          (λ (p : Packet) (o : IsRight file s.sender.sequence_number p).
            later_IsRight file m.grows p o)
          s.sent inv.sent_right);
    answers_true = inv.answers_true;
    acked_come = λ k lt. inv.acked_come k (omega (arith, m.same_head, lt));
  }

  -- A step of the server that takes an acknowledgement.
  pub Acked-Inv :
      {s : Network} (a : Header) (r : Sender × Next) (inv : Inv file s)
      → Tells file s.receiver.printed inv.order.items a
      → Acked file s.sender a.seq r
      → Inv file (record s { sender = r.0 })
  Acked-Inv {s} a r inv told m = record {
    healthy = m.healthy;
    order = inv.order;
    printed_sent = omega (arith, inv.printed_sent, m.same_number);
    held_sent = Under-le inv.order.items (omega (arith, m.same_number)) inv.held_sent;
    sent_right = subst (λ n. All (IsRight file n) s.sent) (sym m.same_number) inv.sent_right;
    answers_true = inv.answers_true;
    acked_come = λ k lt. below told k (rw m.new_head at lt);
  }
    where
      below :
          Tells file s.receiver.printed inv.order.items a
          → (k : ℕ) → k < max s.sender.head a.seq
          → HasCome s.receiver.printed inv.order.items k
      below (inl (z, _)) k lt = inv.acked_come k (ground arith)
      below (inr (pos, come)) k lt = elim (Bool-cases (ltb k a.seq)) [
        | inl p ↦ come k (ltb→lt _ _ p)
        | inr p ↦ inv.acked_come k (ground arith)
      ]

  -- A step of the client.
  pub received-Inv :
      {s : Network} (u : Receiver) (new : List Header) (inv : Inv file s)
      → (v : InOrder (line_of file) u) → u.printed < s.sender.sequence_number + 1
      → Under (s.sender.sequence_number + 1) v.items
      → ((k : ℕ) → HasCome s.receiver.printed inv.order.items k → HasCome u.printed v.items k)
      → All (Tells file u.printed v.items) new
      → Inv file (record s { receiver = u; answers = new ++ s.answers })
  received-Inv {s} u new inv v printed held keeps told = record {
    healthy = inv.healthy;
    order = v;
    printed_sent = printed;
    held_sent = held;
    sent_right = inv.sent_right;
    answers_true = All-append (Tells file u.printed v.items) new s.answers told (
        All-imp
          (λ (a : Header) (t : Tells file s.receiver.printed inv.order.items a).
            later_Tells keeps a t)
          s.answers inv.answers_true);
    acked_come = λ k lt. keeps k (inv.acked_come k lt);
  }

  -- A step of the client that changes nothing of what it holds.
  pub SameHold-Inv :
      {s : Network} (u : Receiver) (new : List Header)
      → Inv file s
      → SameHold s.receiver u
      → All (λ a. a.seq ≡ 1) new
      → Inv file (record s { receiver = u; answers = new ++ s.answers })
  SameHold-Inv {s} u new inv e told =
      let v : InOrder (line_of file) u = record {
        items = inv.order.items;
        held = e.list ∙ inv.order.held;
        holds = subst (λ k. Holds (line_of file) k inv.order.items) (sym e.count) inv.order.holds;
        shown = e.shown ∙ (inv.order.shown ∙ ap (span (line_of file) 0) (sym e.count));
        small = omega (arith, e.count, inv.order.small);
      } in
      received-Inv u new inv v (omega (arith, e.count, inv.printed_sent)) inv.held_sent
        (λ k come. subst (λ n. HasCome n inv.order.items k) (sym e.count) come)
        (All-imp (λ (a : Header) (f : a.seq ≡ 1). inr (omega arith, λ k lt. inl (omega arith))) new
          told)
