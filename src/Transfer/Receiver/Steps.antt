-- ===== src/Transfer/Receiver/Steps.antt =====
-- The two threads of client.c, step by step.
use cse.Base.{
  before_nul, ℕ, ◌-◌, ◌^◌, ◌≤◌, ◌<◌, ◌≡◌, refl, sym, subst, ◌∙◌, inl, inr, Bytes, List, [], ◌∷◌,
  Bool, true, false, ◌&&◌, if◌then◌else◌, ok, arith, Sound, Sound-ok, Sound-if, Sound-bind, ok_inj,
}
use cse.Transfer.Chain.{null, link_list_length}
use cse.Transfer.Chain.Order.{Item, find}
use cse.Transfer.Receiver.{
  Header, Receiver, on_datagram, on_window_request, print_lines, print_end, begin_receive,
}
use cse.Transfer.Receiver.Order.{span, InOrder, HasCome}
use cse.Transfer.Receiver.Answer.{Promise, Answered, on_datagram_lem}
use cse.Transfer.Receiver.Print.{print_lines_lem}

-- One step of the two threads, with a server that sends the lines of a file.
pub data Step (lines : ℕ → Bytes) : Receiver → Receiver → Type 0 where
  datagram_step :
      (r : Receiver) (seq ts : ℕ) (array : Bytes) (comes goes : Bool) (p : Receiver × List Header)
      → before_nul array ≡ lines seq
      → seq < 2 ^ 32 - 1
      → on_datagram null r seq ts array comes goes ≡ ok p
      → Step lines r p.0
  request_step :
      (r : Receiver) (comes goes : Bool) (p : Receiver × List Header)
      → on_window_request r comes goes ≡ ok p
      → Step lines r p.0
  print_step : (r u : Receiver) → print_lines r ≡ ok u → Step lines r u
  end_step : (r : Receiver) → Step lines r (print_end r)

pub data Reach (lines : ℕ → Bytes) (r : Receiver) : Receiver → Type 0 where
  begin : Reach lines r r
  and_then : {u v : Receiver} → Reach lines r u → Step lines u v → Reach lines r v

-- A change of the fields that the invariant does not read.
moved-InOrder :
    {lines : ℕ → Bytes} {r : Receiver} (flag : Bool) (seq : ℕ)
    → InOrder lines r
    → InOrder lines (record r { process_flag = flag; send_seq = seq })
moved-InOrder flag seq w = record {
  items = w.items;
  held = w.held;
  holds = w.holds;
  shown = w.shown;
  small = w.small;
}

if-InOrder :
    {lines : ℕ → Bytes} {r u : Receiver} (b : Bool)
    → InOrder lines r
    → InOrder lines u
    → InOrder lines (if b then r else u)
if-InOrder true v w = v
if-InOrder false v w = w

pub lost :
    (r : Receiver) (seq ts : ℕ) (l : Bytes) (goes : Bool)
    → on_datagram null r seq ts l false goes ≡ ok (r, [])
unfolding on_datagram
lost r seq ts l goes = refl

datagram-InOrder :
    {lines : ℕ → Bytes} (r : Receiver) (seq ts : ℕ) (array : Bytes) (comes goes : Bool)
    {p : Receiver × List Header}
    → before_nul array ≡ lines seq
    → seq < 2 ^ 32 - 1
    → on_datagram null r seq ts array comes goes ≡ ok p
    → InOrder lines r
    → InOrder lines p.0
datagram-InOrder {lines} r seq ts array true goes text top e w =
    let (q, done, a) = on_datagram_lem r seq ts array goes text w top in
    subst (λ (p : Receiver × List Header). InOrder lines p.0) (ok_inj (sym done ∙ e)) a.in_order
datagram-InOrder {lines} r seq ts array false goes text top e w =
    subst (λ (p : Receiver × List Header). InOrder lines p.0)
      (ok_inj (sym (lost r seq ts array goes) ∙ e)) w

request-InOrder :
    {lines : ℕ → Bytes} (r : Receiver) (comes goes : Bool)
    → InOrder lines r
    → Sound (λ (p : Receiver × List Header). InOrder lines p.0) (on_window_request r comes goes)
unfolding on_window_request
request-InOrder r comes goes w =
    Sound-if (comes && goes) _ _
      (λ _.
        Sound-bind (link_list_length r.header) _
          (λ len _. Sound-ok _ (moved-InOrder r.process_flag 1 w)))
      (λ _. Sound-ok _ w)

end-InOrder : {lines : ℕ → Bytes} (r : Receiver) → InOrder lines r → InOrder lines (print_end r)
unfolding print_end
end-InOrder r w = if-InOrder r.data_flag (moved-InOrder true r.send_seq w) w

step-InOrder :
    {lines : ℕ → Bytes} {r u : Receiver} → Step lines r u → InOrder lines r → InOrder lines u
step-InOrder (datagram_step r seq ts array comes goes p text top e) w =
    datagram-InOrder r seq ts array comes goes text top e w
step-InOrder (request_step r comes goes p e) w = (request-InOrder r comes goes w).at p e
step-InOrder {lines} (print_step r u e) w =
    let (v, done, kept) = print_lines_lem r w in
    subst (InOrder lines) (ok_inj (sym done ∙ e)) kept.in_order
step-InOrder (end_step r) w = end-InOrder r w

pub begin-InOrder :
    (lines : ℕ → Bytes) (window : ℕ)
    → (w : InOrder lines (begin_receive null window)) × (w.items ≡ [])
unfolding begin_receive
begin-InOrder lines window = (
  record {
    items = [];
    held = refl;
    holds = record {
      ascends = tt;
      right = λ k e. absurd (unfold find in ground arith);
      below = tt;
    };
    shown = refl;
    small = omega arith;
  },
  refl,
)

reach-InOrder :
    {lines : ℕ → Bytes} {r u : Receiver} → InOrder lines r → Reach lines r u → InOrder lines u
reach-InOrder w begin = w
reach-InOrder w (and_then reach s) = step-InOrder s (reach-InOrder w reach)

-- From the start on, with zeroed memory for every node, and datagrams whose texts are the lines of
-- one file under numbers below 2 ^ 32 - 1: whatever the order in which they come, are lost, come again,
-- or are printed, what the client has printed is the first lines of the file, each once, in order.
printed_in_order :
    (lines : ℕ → Bytes) (window : ℕ) {r : Receiver}
    → Reach lines (begin_receive null window) r
    → r.output ≡ span lines 0 r.printed
printed_in_order lines window reach = (reach-InOrder (begin-InOrder lines window).0 reach).shown

flag_ends : (r : Receiver) → r.data_flag ≡ true → (print_end r).process_flag ≡ true
unfolding print_end
flag_ends r h = ground arith

end-output : (r : Receiver) → (print_end r).output ≡ r.output
unfolding print_end
end-output r = ground arith

-- The promise of an acknowledgement with the number 0.
all_come :
    {printed : ℕ} (ys : List Item) (seq ts a : ℕ)
    → a ≡ 0
    → Promise printed ys seq ts a
    → (j : ℕ) → j ≤ seq
    → HasCome printed ys j
all_come ys seq ts a z (inl (_, _, all)) j le = all j le
all_come ys seq ts a z (inr (pos, _, _)) j le = absurd (omega arith)

-- A client that has printed the first lines of the file and holds lines that follow, with zeroed
-- memory for every node, takes datagram `seq` and answers with the number 0. A round of its thread
-- that starts then ends without a fault, has printed the first lines of the file, at least to `seq`,
-- and ends the thread.
whole_file :
    {lines : ℕ → Bytes} {r : Receiver} (seq ts : ℕ) (array : Bytes) {p : Receiver × List Header}
    {a : Header}
    → before_nul array ≡ lines seq
    → InOrder lines r
    → seq < 2 ^ 32 - 1
    → on_datagram null r seq ts array true true ≡ ok p
    → p.1 ≡ a ∷ []
    → a.seq ≡ 0
    → (u : Receiver) × (print_lines p.0 ≡ ok u)
      × ((print_end u).process_flag ≡ true)
      × (u.output ≡ span lines 0 u.printed)
      × (seq ≤ u.printed)
whole_file {lines} {r} seq ts array {p} {a} text w top e answer zero_seq =
    let (q, done, promised) = on_datagram_lem r seq ts array true text w top in
    let same_result : q ≡ p = ok_inj (sym done ∙ e) in
    let got = subst (Answered lines r w.items seq ts) same_result promised in
    let (u, printed, kept) = print_lines_lem p.0 got.in_order in
    (
      u,
      printed,
      flag_ends u (kept.same_flag ∙ got.flag a answer zero_seq),
      kept.in_order.shown,
      kept.up_to seq (λ j le.
          subst (λ k. HasCome k got.in_order.items j) (sym got.same_count)
            (all_come {printed = r.printed} got.in_order.items seq ts a.seq zero_seq
              (got.promise a answer) j le)),
    )

-- If the datagram that is answered with the number 0 comes after the thread has printed and before
-- it looks at the flag, the thread ends with nothing more printed: the output stays the lines that
-- were printed before the datagram came.
pub tail_lost :
    {lines : ℕ → Bytes} {r : Receiver} (seq ts : ℕ) (array : Bytes) {p : Receiver × List Header}
    {a : Header}
    → before_nul array ≡ lines seq
    → InOrder lines r
    → seq < 2 ^ 32 - 1
    → on_datagram null r seq ts array true true ≡ ok p
    → p.1 ≡ a ∷ []
    → a.seq ≡ 0
    → ((print_end p.0).process_flag ≡ true) × ((print_end p.0).output ≡ span lines 0 r.printed)
tail_lost {lines} {r} seq ts array {p} {a} text w top e answer zero_seq =
    let (q, done, promised) = on_datagram_lem r seq ts array true text w top in
    let same_result : q ≡ p = ok_inj (sym done ∙ e) in
    let got = subst (Answered lines r w.items seq ts) same_result promised in
    (flag_ends p.0 (got.flag a answer zero_seq), end-output p.0 ∙ (got.same_output ∙ w.shown))
