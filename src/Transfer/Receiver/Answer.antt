-- ===== src/Transfer/Receiver/Answer.antt =====
-- What client.c makes of a datagram, and what its acknowledgement promises.
use cse.Base.{
  before_nul, ℕ, ◌+◌, ◌-◌, ◌^◌, ◌≤◌, ◌<◌, ◌≡◌, refl, sym, ap, subst, ◌∙◌, ◌⊎◌, inl, inr, Bytes,
  List, [], ◌∷◌, none, Bool, true, false, ltb, if◌then◌else◌, length, ok, arith, Bool-cases, ltb→lt,
}
use cse.Transfer.Chain.{null, link_list_length}
use cse.Transfer.Chain.Order.{
  Item, from_list, Under, find, IsNextAck, next_ack_lem, length-from_list,
}
use cse.Transfer.Receiver.{Header, Receiver, advertised, acknowledge, is_whole, on_datagram}
use cse.Transfer.Receiver.Order.{span, Holds, InOrder, HasCome, enter-Entered}

-- What the client says with the number of an acknowledgement when its list is `ys`: 0 that the
-- datagram `seq` is the last and all to it have come, any other number that all below it have come,
-- and it has not, nor was it printed.
abbrev pub Promise : ℕ → List Item → (seq ts : ℕ) → ℕ → Type 0
Promise printed ys seq ts a =
    ((a ≡ 0) × (ts ≡ 0) × ((k : ℕ) → k ≤ seq → HasCome printed ys k))
    ⊎ ((printed < a) × ((k : ℕ) → k < a → HasCome printed ys k) × (find a ys ≡ none))

-- The state after a datagram that has come.
abbrev pub noted : Receiver → List Item → (seq ts next : ℕ) → Receiver
noted r ys seq ts next = record r {
  header = from_list ys;
  data_flag = if is_whole next seq ts then true else r.data_flag;
  send_seq = if is_whole next seq ts then 0 else next;
}

up_to_next :
    (ys : List Item) (printed next k : ℕ)
    → IsNextAck ys printed next
    → k < next
    → HasCome printed ys k
up_to_next ys printed next k (above, run, gap) lt = elim (Bool-cases (ltb printed k)) [
  | inl p ↦ inr (run k (ltb→lt _ _ p) lt)
  | inr p ↦ inl (ground arith)
]

whole_next :
    (next seq ts : ℕ) → is_whole next seq ts ≡ true → seq < 2 ^ 32 - 1 → (ts ≡ 0) × (next ≡ seq + 1)
whole_next next seq ts p top = (ground arith, ground arith)

promised :
    (r : Receiver) (ys : List Item) (seq ts next : ℕ)
    → seq < 2 ^ 32 - 1
    → IsNextAck ys r.printed next
    → Promise r.printed ys seq ts (noted r ys seq ts next).send_seq
promised r ys seq ts next top n = elim (Bool-cases (is_whole next seq ts)) [
  | inl p ↦
      let (last, e) = whole_next next seq ts p top in
      rw p (inl (refl, last, λ k le. up_to_next ys r.printed next k n (omega (arith, le, e))))
  | inr p ↦ rw p (inr (n.0, λ k lt. up_to_next ys r.printed next k n lt, n.2))
]

flagged :
    (r : Receiver) (ys : List Item) (seq ts next : ℕ)
    → r.printed < next
    → (noted r ys seq ts next).send_seq ≡ 0
    → (noted r ys seq ts next).data_flag ≡ true
flagged r ys seq ts next lt z = elim (Bool-cases (is_whole next seq ts)) [
  | inl p ↦ rw p refl
  | inr p ↦ absurd (omega (arith, lt, rw p at z))
]

-- Two states with the same list, count, flag and output.
pub record SameHold (r u : Receiver) : Type 0 where
  pub list : u.header ≡ r.header
  pub count : u.printed ≡ r.printed
  pub flag : u.data_flag ≡ r.data_flag
  pub shown : u.output ≡ r.output

abbrev first_seq : List Header → ℕ
first_seq [] = 0
first_seq (a ∷ _) = a.seq

module _ {lines : ℕ → Bytes} (r : Receiver) (w : InOrder lines r) where
  closing-same : (b : Bool) → SameHold r (if b then record r { receiving = false } else r)
  closing-same true = record { list = refl; count = refl; flag = refl; shown = refl }
  closing-same false = record { list = refl; count = refl; flag = refl; shown = refl }

  -- The acknowledgement changes nothing of the list and of what was printed.
  acknowledged :
      (ts : ℕ) (goes : Bool)
      → (p : Receiver × List Header) × (acknowledge r ts goes ≡ ok p)
        × SameHold r p.0
        × ((a : Header) → p.1 ≡ a ∷ [] → a.seq ≡ r.send_seq)
        × ((p.1 ≡ []) ⊎ ((a : Header) × (p.1 ≡ a ∷ [])))
  unfolding acknowledge
  acknowledged ts true =
      let len : link_list_length r.header ≡ ok (length w.items) =
        ap link_list_length w.held ∙ length-from_list w.items in
      (
        (
          if r.data_flag then record r { receiving = false } else r,
          record {
            seq = r.send_seq;
            ts = ts;
            recv_window = advertised r.recv_window (length w.items);
          }
              ∷ [],
        ),
        rw len refl,
        closing-same r.data_flag,
        λ a e. sym (ap first_seq e),
        inr (_, refl),
      )
  acknowledged ts false =
      ((r, []), refl, closing-same false, λ a e. absurd (ground arith), inl refl)

-- What `on_datagram` promises of its result.
pub record Answered (lines : ℕ → Bytes) (r : Receiver) (xs : List Item) (seq ts : ℕ)
    (p : Receiver × List Header) : Type 0 where
  pub in_order : InOrder lines p.0
  pub same_count : p.0.printed ≡ r.printed
  pub same_output : p.0.output ≡ r.output
  pub come : HasCome r.printed in_order.items seq
  pub keeps : (j : ℕ) → HasCome r.printed xs j → HasCome r.printed in_order.items j
  pub bound : (top : ℕ) → seq < top → Under top xs → Under top in_order.items
  pub one_answer : (p.1 ≡ []) ⊎ ((a : Header) × (p.1 ≡ a ∷ []))
  pub flag : (a : Header) → p.1 ≡ a ∷ [] → a.seq ≡ 0 → p.0.data_flag ≡ true
  pub promise : (a : Header) → p.1 ≡ a ∷ [] → Promise r.printed in_order.items seq ts a.seq

-- A datagram whose text, up to its first byte 0, is a line of the file, and whose number is below
-- 2 ^ 32 - 1, that the loss simulation lets through, at a client that has printed the first lines of the file and holds lines that follow, with
-- zeroed memory for a new node: the client takes it without a fault, has printed as much as before,
-- holds the line unless it was printed, still holds what it held, adds no other line, and is again in
-- a state of that kind. If the acknowledgement
-- goes out, its number is 0, and then the datagram is marked as the last one, all lines to it have
-- come, and the flag is set; or it is that of the first line that has not come.
pub on_datagram_lem :
    {lines : ℕ → Bytes} (r : Receiver) (seq ts : ℕ) (array : Bytes) (goes : Bool)
    → before_nul array ≡ lines seq
    → (w : InOrder lines r) → seq < 2 ^ 32 - 1
    → (p : Receiver × List Header) × (on_datagram null r seq ts array true goes ≡ ok p)
      × Answered lines r w.items seq ts p
unfolding on_datagram
on_datagram_lem {lines} r seq ts array goes text w top =
    let (ys, en) = enter-Entered seq w top in
    let (next, found, is_next) =
      next_ack_lem ys r.printed en.still.ascends en.still.below (omega (arith, w.small)) in
    let u = noted r ys seq ts next in
    let v : InOrder lines u = record {
      items = ys;
      held = refl;
      holds = en.still;
      shown = w.shown;
      small = w.small;
    } in
    let (p, done, same_hold, same_seq, one) = acknowledged u v ts goes in
    (
      p,
      rw (en.done array text, found) done,
      record {
        in_order = record {
          items = ys;
          held = same_hold.list;
          holds = subst (λ k. Holds lines k ys) (sym same_hold.count) en.still;
          shown = same_hold.shown ∙ (w.shown ∙ ap (span lines 0) (sym same_hold.count));
          small = omega (arith, same_hold.count, w.small);
        };
        same_count = same_hold.count;
        same_output = same_hold.shown;
        come = en.there;
        keeps = en.keeps;
        bound = en.bound;
        one_answer = one;
        flag = λ a e zero_seq.
            same_hold.flag ∙ flagged r ys seq ts next is_next.0 (sym (same_seq a e) ∙ zero_seq);
        promise = λ a e.
            subst (Promise r.printed ys seq ts) (sym (same_seq a e))
              (promised r ys seq ts next top is_next);
      },
    )
