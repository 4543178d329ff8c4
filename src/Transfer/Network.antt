-- ===== src/Transfer/Network.antt =====
-- server.c and client.c of Assignment 2/Code together, over a network that loses, repeats and
-- reorders what they send each other, but keeps the header and the data of a datagram, which are two
-- UDP datagrams, together: client.c takes whatever comes after a header for its data.
pub mod Invariant
pub mod Steps
pub mod Begun
pub mod Kept
pub mod Whole
pub mod Progress
mod Tests
use cse.Base.{suc, true, ℕ, ◌≡◌, ◌<◌, Bytes, List, [], ◌++◌, Bool, some, get_elem?, ok, ntohs}
use cse.Transfer.Queue.{Datagram, CirQueue, cir_queue_length}
use cse.Transfer.Chain.{Chain}
use cse.Transfer.Sender.{
  Sender, Packet, header_sent, data_sent, sends, Next, start_round, on_timeout, fast_retransmit,
  on_ack, begin_transfer,
}
use cse.Transfer.Sender.Healthy.{Fits}
use cse.Transfer.Receiver.{
  Header, Receiver, begin_receive, on_datagram, on_window_request, print_lines, print_end,
}

-- The two programs, and all that was ever sent in the one direction and in the other.
pub record Network : Type 0 where
  pub sender : Sender
  pub receiver : Receiver
  pub sent : List Packet
  pub answers : List Header

-- One step of a program, `fresh` being what `malloc` gives for the `next` of a node. What a program
-- takes from the network is anything that was ever sent, the client a header with the data that was
-- sent after it, as long as its loop goes on.
-- Every datagram that goes out fits the buffer and the sequence numbers.
pub data Step (fresh : Chain) (s : Network) : Network → Type 0 where
  round_step :
      (stamps : List ℕ) (r : Sender × List Packet)
      → Fits s.sender stamps
      → start_round s.sender stamps ≡ ok r
      → Step fresh s (record s { sender = r.0; sent = r.1 ++ s.sent })
  timeout_step :
      (opened : ℕ) (r : Sender × List Packet)
      → 0 < cir_queue_length s.sender.send_buffer
      → on_timeout s.sender opened ≡ ok r
      → Step fresh s (record s { sender = r.0; sent = r.1 ++ s.sent })
  retransmit_step :
      (opened : ℕ) (stamps : List ℕ) (r : Sender × List Packet)
      → Fits s.sender stamps
      → 0 < cir_queue_length s.sender.send_buffer
      → fast_retransmit s.sender opened stamps ≡ ok r
      → Step fresh s (record s { sender = r.0; sent = r.1 ++ s.sent })
  ack_step :
      (i : ℕ) (a : Header) (r : Sender × Next)
      → get_elem? s.answers i ≡ some a
      → on_ack s.sender a.seq (ntohs a.recv_window) ≡ ok r
      → Step fresh s (record s { sender = r.0 })
  datagram_step :
      (i seq ts : ℕ) (line : Bytes) (comes goes : Bool) (p : Receiver × List Header)
      → s.receiver.receiving ≡ true
      → get_elem? (sends s.sent) i ≡ some (header_sent seq ts)
      → get_elem? (sends s.sent) (suc i) ≡ some (data_sent line)
      → on_datagram fresh s.receiver seq ts line comes goes ≡ ok p
      → Step fresh s (record s { receiver = p.0; answers = p.1 ++ s.answers })
  request_step :
      (comes goes : Bool) (p : Receiver × List Header)
      → s.receiver.receiving ≡ true
      → on_window_request s.receiver comes goes ≡ ok p
      → Step fresh s (record s { receiver = p.0; answers = p.1 ++ s.answers })
  print_step :
      (u : Receiver) → print_lines s.receiver ≡ ok u → Step fresh s (record s { receiver = u })
  end_step : Step fresh s (record s { receiver = print_end s.receiver })

pub data Reach (fresh : Chain) (s : Network) : Network → Type 0 where
  begin : Reach fresh s s
  and_then : {t u : Network} → Reach fresh s t → Step fresh t u → Reach fresh s u

-- The state when the transfer starts, with the memory that the server has for its buffer, the values
-- on its stack, and the windows of the two configurations.
abbrev pub start :
    (fresh : Chain)
    → (memory : List Datagram) → (file : Bytes) → (send_window recv_window stack_ack : ℕ)
    → (stack_line : Bytes) → Network
start fresh memory file send_window recv_window stack_ack stack_line = record {
  sender =
      begin_transfer send_window recv_window stack_ack stack_line
        (record { base = memory; front = 0; rear = 0; max_qsize = send_window }) file;
  receiver = begin_receive fresh recv_window;
  sent = [];
  answers = [];
}
