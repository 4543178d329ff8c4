-- ===== src/Transfer/Receiver/Tests.antt =====
-- Runs of the model of client.c on concrete inputs, and the theorems there.
use cse.Base.{
  before_nul, ℕ, ◌+◌, ◌%◌, ◌<◌, ◌≤◌, ◌≡◌, refl, Bytes, List, [], ◌∷◌, some, true, false, codes,
  arith, ok, htons, ntohs,
}
use cse.Transfer.Chain.{null, node, insert_link_list, insert_after, link_list_length, next_ack}
use cse.Transfer.Chain.Order.{find}
use cse.Transfer.Receiver.{
  Header, Receiver, begin_receive, advertised, acknowledge, enter, on_datagram, print_run,
  print_lines, print_end,
}
use cse.Transfer.Receiver.Order.{span, InOrder}
use cse.Transfer.Receiver.Answer.{Answered, on_datagram_lem}
use cse.Transfer.Receiver.Steps.{tail_lost}
use cse.Transfer.Receiver.Advertised.{advertised_lem}

-- A file whose line `k` is the letter `k` of the alphabet.
abbrev letters : ℕ → Bytes
letters k = (k + 96) ∷ []

-- Line 1 is printed, and line 2 has come.
abbrev midway : Receiver
midway = record (begin_receive null 9) {
  header = node 2 (codes "b") null;
  printed = 1;
  output = codes "a" ∷ [];
}

find_two : (k : ℕ) {l : Bytes} → find k ((2, codes "b") ∷ []) ≡ some l → l ≡ letters k
unfolding find
find_two k e = ground arith

midway-InOrder : InOrder letters midway
midway-InOrder = record {
  items = (2, codes "b") ∷ [];
  held = refl;
  holds = record {
    ascends = (omega arith, tt);
    right = λ k e. find_two k e;
    below = (omega arith, tt);
  };
  shown = refl;
  small = omega arith;
}

advertised_lem_example :
    (3 ≤ 9 % 256 → ntohs (advertised (htons 9) 3) + 3 ≡ 9)
    × (9 % 256 < 3 → ntohs (advertised (htons 9) 3) + 3 ≡ 9 + 256)
advertised_lem_example = advertised_lem 9 3 (omega arith) (omega arith)

on_datagram_lem_example :
    (p : Receiver × List Header) × (on_datagram null midway 4 77 (letters 4) true true ≡ ok p)
    × Answered letters midway midway-InOrder.items 4 77 p
on_datagram_lem_example =
    on_datagram_lem {lines = letters} midway 4 77 (letters 4) true (unfold before_nul in refl)
      midway-InOrder (omega arith)

-- After the last datagram, number 3.
abbrev complete : Receiver
complete = record midway {
  header = node 2 (codes "b") (node 3 (codes "c") null);
  data_flag = true;
  send_seq = 0;
  receiving = false;
}

abbrev last_answer : Header
last_answer = record { seq = 0; ts = 0; recv_window = 1792 }

last_comes : on_datagram null midway 3 0 (letters 3) true true ≡ ok (complete, last_answer ∷ [])
unfolding on_datagram enter before_nul insert_link_list insert_after next_ack acknowledge
    link_list_length begin_receive advertised htons
last_comes = refl

-- Line 1 comes and is printed.
abbrev one_come : Receiver
one_come = record (begin_receive null 9) { header = node 1 (codes "a") null; send_seq = 2 }

abbrev one_printed : Receiver
one_printed = record one_come { header = null; printed = 1; output = codes "a" ∷ [] }

one_comes :
    on_datagram null (begin_receive null 9) 1 7 (letters 1) true true
    ≡ ok (one_come, record { seq = 2; ts = 7; recv_window = 2048 } ∷ [])
unfolding on_datagram enter before_nul insert_link_list insert_after next_ack acknowledge
    link_list_length begin_receive advertised htons
one_comes = refl

one_is_printed : print_lines one_come ≡ ok one_printed
unfolding print_lines print_run begin_receive
one_is_printed = refl

tail_lost_example :
    ((print_end complete).process_flag ≡ true) × ((print_end complete).output ≡ span letters 0 1)
tail_lost_example =
    tail_lost {lines = letters} 3 0 (letters 3) {p = (complete, last_answer ∷ [])} {a = last_answer}
      (unfold before_nul in refl) midway-InOrder (omega arith) last_comes refl refl
