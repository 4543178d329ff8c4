-- ===== src/Transfer/Tests.antt =====
-- Runs of the models of CirQueue.c, LinkList.c and the sender of server.c, and the theorems there.
use cse.Base.{
  ◌*◌, replicate, length, ℕ, ◌+◌, ◌≤◌, ◌<◌, ◌≡◌, refl, List, [], ◌∷◌, ◌++◌, map, codes, arith, ok,
  fault, ◌==◌, if◌then◌else◌, take,
}
use cse.Transfer.Queue.{Datagram, CirQueue, is_empty, cir_queue_length, en_cir_queue}
use cse.Transfer.Queue.Fifo.{IsValid, contents, blank_datagram, en_cir_queue_lem}
use cse.Transfer.Sender.{Sender, Packet, begin_transfer, zeroed, three_min, resend}
use cse.Transfer.Sender.Window.{InWindow}
use cse.Transfer.Sender.{choose_window, more_to_send, start_round}
use cse.Transfer.Sender.Full.{full_window_lost}
use cse.Transfer.Sender.Resend.{packet_of, resend_lem}
use cse.Transfer.Chain.{null, insert_link_list}
use cse.Transfer.Chain.Order.{Item, from_list, Ascends, Under, find, keep_old, insert_link_list_lem}

abbrev numbered : ℕ → Datagram
numbered n = record { seq = n; ts = 7; sendline = codes "data"; ack = 0 }

-- Four slots; datagrams 5 and 6 stand in the last one and the first.
abbrev round_the_end : CirQueue
round_the_end = record {
  base = numbered 6 ∷ numbered 3 ∷ numbered 4 ∷ numbered 5 ∷ [];
  front = 3;
  rear = 1;
  max_qsize = 4;
}

round_the_end-IsValid : IsValid round_the_end
round_the_end-IsValid = record { slots = refl; front_in = omega arith; rear_in = omega arith }

round_the_end_holds : contents round_the_end ≡ numbered 5 ∷ numbered 6 ∷ []
unfolding cir_queue_length
round_the_end_holds = refl

en_cir_queue_lem_example :
    (q' : CirQueue) × (en_cir_queue round_the_end (numbered 7) ≡ ok q')
    × IsValid q'
    × (q'.max_qsize ≡ 4)
    × (cir_queue_length round_the_end + 1 < 4
        → contents q' ≡ contents round_the_end ++ (numbered 7 ∷ []))
    × (cir_queue_length round_the_end + 1 ≡ 4 → contents q' ≡ [])
en_cir_queue_lem_example = en_cir_queue_lem (numbered 7) round_the_end-IsValid

resend_lem_example :
    (round_the_end.front + 2 ≤ 4
      → resend round_the_end 0 2 ≡ ok (map packet_of (take 2 (contents round_the_end))))
    × (4 < round_the_end.front + 2 → resend round_the_end 0 2 ≡ fault)
resend_lem_example = resend_lem 2 round_the_end-IsValid (unfold cir_queue_length in omega arith)

-- A transfer with ten slots that starts with the window of the client at 4.
abbrev begun : Sender
begun =
    begin_transfer 20 4 0 zeroed
      (record {
        base = blank_datagram ∷ blank_datagram ∷ blank_datagram ∷ blank_datagram ∷ [];
        front = 0;
        rear = 0;
        max_qsize = 4;
      })
      (codes "a short file")

-- Eight acknowledgements in congestion avoidance, and then a fast retransmit.
abbrev halved : Sender
halved = record begun { cwnd = 4; ssh = 4; congestion_avoid_count = 8 }

begun-InWindow : InWindow begun
unfolding begin_transfer cir_queue_length
begun-InWindow = record {
  buffer = record { slots = refl; front_in = omega arith; rear_in = omega arith };
  in_order = refl;
  up_to_last = refl;
}

-- Datagrams 5 and 6 are on their way.
abbrev under_way : Sender
under_way = record begun { head = 5; sequence_number = 6; send_buffer = round_the_end }

under_way-InWindow : InWindow under_way
unfolding cir_queue_length
under_way-InWindow = record { buffer = round_the_end-IsValid; in_order = refl; up_to_last = refl }

-- Datagrams 3 and 5 have come.
abbrev gap : List Item
gap = (3, codes "c") ∷ (5, codes "e") ∷ []

insert_link_list_lem_example :
    (ys : List Item) × (insert_link_list null (from_list gap) 4 (codes "d") ≡ ok (from_list ys))
    × Ascends 2 ys
    × ((k : ℕ) → find k ys ≡ (if k == 4 then keep_old (find 4 gap) (codes "d") else find k gap))
    × ((top : ℕ) → 4 < top → Under top gap → Under top ys)
insert_link_list_lem_example =
    insert_link_list_lem gap 2 4 (codes "d") (omega arith, (omega arith, tt)) (omega arith)

-- Two slots, and a file of two full datagrams and more.
abbrev two_slots : Sender
two_slots =
    record (begin_transfer 2 9 0 zeroed
      (record { base = blank_datagram ∷ blank_datagram ∷ []; front = 0; rear = 0; max_qsize = 2 })
      (replicate 1200 65)) { cwnd = 5 }

full_window_lost_example :
    (r : Sender × List Packet) × (start_round two_slots (17 ∷ 18 ∷ []) ≡ ok r)
    × (length r.1 ≡ 2)
    × (contents r.0.send_buffer ≡ [])
unfolding begin_transfer
full_window_lost_example =
    full_window_lost two_slots 17 (18 ∷ [])
      (unfold begin_transfer in
        record { slots = refl; front_in = omega arith; rear_in = omega arith })
      (unfold begin_transfer is_empty in refl)
      (unfold begin_transfer choose_window three_min in refl)
      (unfold begin_transfer choose_window three_min more_to_send cir_queue_length in refl)
      (unfold begin_transfer in enough)
  where
    enough : 500 * 2 ≤ length {A = ℕ} (replicate 1200 65)
    enough = omega arith
