-- ===== src/Transfer/Sender.antt =====
-- The sending side of Assignment 2/Code/server.c: the sliding window, the congestion window, and
-- what the server does on an acknowledgement and on a timeout.
pub mod Congestion
pub mod Window
pub mod Rounds
pub mod Acks
pub mod Resend
pub mod Full
pub mod Content
pub mod Healthy
pub mod Turns
pub mod Drops
use cse.Base.{
  replicate, ℕ, zero, suc, ◌+◌, ◌-◌, ◌*◌, ◌/◌, Bytes, List, [], ◌∷◌, ◌++◌, Option, none, some, Bool,
  true, false, not, ◌&&◌, ◌==◌, ltb, leb, if◌then◌else◌, length, set, take, drop, u32, Outcome, ok,
  fault, ◌>>=◌, ◌‼◌,
}
use cse.Transfer.Queue.{Datagram, CirQueue, is_empty, cir_queue_length, en_cir_queue, de_cir_queue}

unfoldable pub three_min : ℕ → ℕ → ℕ → ℕ
three_min first second third =
    let lower = if ltb first second then first else second in
    if ltb lower third then lower else third

-- The two calls of `send` for a datagram, one after the other, or the call for the bare header that
-- asks for the window.
pub data Packet : Type 0 where
  datagram : (seq ts : ℕ) → Bytes → Packet
  window_request : Packet

-- A UDP datagram: a header, or an array `sendline`.
pub data Udp : Type 0 where
  header_sent : (seq ts : ℕ) → Udp
  data_sent : Bytes → Udp

-- What the calls send.
unfoldable pub sends : List Packet → List Udp
sends [] = []
sends (datagram seq ts line ∷ ps) = header_sent seq ts ∷ data_sent line ∷ sends ps
sends (window_request ∷ ps) = header_sent 0 0 ∷ sends ps

-- The variables of the transfer loop. `file` is what `fread` has not read, and `eof` what `feof`
-- says; `line_memory` is the array `localcopy.sendline`, which nothing sets before the first datagram,
-- and `stack_ack` is `localcopy.ack`, which nothing sets.
pub record Sender : Type 0 where
  pub send_window : ℕ
  pub cwnd : ℕ
  pub ssh : ℕ
  pub congestion_avoid_count : ℕ
  pub sending_window : ℕ
  pub received : ℕ
  pub sequence_number : ℕ
  pub head : ℕ
  pub recv_window : ℕ
  pub send_buffer : CirQueue
  pub file : Bytes
  pub eof : Bool
  pub line_memory : Bytes
  pub stack_ack : ℕ

-- `(512-2*sizeof(uint32_t)-sizeof(int))/sizeof(char)`
abbrev pub packet_capacity : ℕ
packet_capacity = 500

-- The variables when the transfer starts, with the window that the client advertised.
unfoldable pub begin_transfer :
    (send_window recv_window stack_ack : ℕ) → (stack_line : Bytes) → CirQueue → Bytes → Sender
begin_transfer send_window recv_window stack_ack stack_line send_buffer file = record {
  send_window = send_window;
  cwnd = 1;
  ssh = 65535;
  congestion_avoid_count = 0;
  sending_window = 0;
  received = 0;
  sequence_number = 0;
  head = 1;
  recv_window = recv_window;
  send_buffer = send_buffer;
  file = file;
  eof = false;
  line_memory = stack_line;
  stack_ack = stack_ack;
}

-- The wait for a client whose receive buffer is full: each alarm (`none`) makes the server ask, each
-- header (`some`) brings a window. The requests sent, and the window once it is open.
unfoldable pub await_window : List (Option ℕ) → List Packet × Option ℕ
await_window [] = ([], none)
await_window (none ∷ events) = let rest = await_window events in (window_request ∷ rest.0, rest.1)
await_window (some w ∷ events) =
    let rest = await_window events in if ltb 0 w then ([], some w) else rest

-- Datagrams `j` to `j + n - 1` from the front, sent again: the index does not go round the array.
unfoldable pub resend : CirQueue → ℕ → ℕ → Outcome (List Packet)
resend q j zero = ok []
resend q j (suc n) =
    let rest = resend q (j + 1) n in
    q.base ‼ (q.front + j) >>= λ d. rest >>= λ ps. ok (datagram d.seq d.ts d.sendline ∷ ps)

-- `sendline` after `fread`.
abbrev pub read_into : (memory file : Bytes) → Bytes
read_into memory file = let line = take packet_capacity file in line ++ drop (length line) memory

-- `bzero(localcopy.sendline, ...)`
abbrev pub zeroed : Bytes
zeroed = replicate 4096 0

-- One datagram read from the file, put into the buffer and sent, with all of its array. `now` is the
-- time stamp.
unfoldable pub send_new : Sender → ℕ → Outcome (Sender × Packet)
send_new s now =
    let seq = u32 (s.sequence_number + 1) in
    let line = read_into s.line_memory s.file in
    let eof = ltb (length s.file) packet_capacity in
    let ts = if eof then 0 else now in
    en_cir_queue s.send_buffer (record { seq = seq; ts = ts; sendline = line; ack = s.stack_ack })
    >>= λ q. ok (
      record s {
        sequence_number = seq;
        send_buffer = q;
        file = drop packet_capacity s.file;
        eof = eof;
        line_memory = zeroed;
      },
      datagram seq ts line,
    )

-- The loop that sends `n` new datagrams, or as many as the file has. The list holds the time stamps.
unfoldable pub fill : Sender → List ℕ → Outcome (Sender × List Packet)
fill s [] = ok (s, [])
fill s (now ∷ stamps) = send_new s now >>= λ r.
    if r.0.eof then ok (r.0, r.1 ∷ []) else (fill r.0 stamps >>= λ rest. ok (rest.0, r.1 ∷ rest.1))

-- The window of the round.
unfoldable pub choose_window : Sender → Sender
choose_window s = record s { sending_window = three_min s.cwnd s.send_window s.recv_window }

-- How many datagrams of the buffer the round sends again.
unfoldable pub resend_count : Sender → ℕ
resend_count s =
    if is_empty s.send_buffer
    then 0
    else if leb s.sending_window (cir_queue_length s.send_buffer)
    then s.sending_window
    else cir_queue_length s.send_buffer

-- A round up to the wait for acknowledgements: what is in the buffer goes out again, then new
-- datagrams, one for each time stamp; `stamps` has `more_to_send` of them.
unfoldable pub start_round : Sender → List ℕ → Outcome (Sender × List Packet)
start_round s0 stamps =
    let s = choose_window s0 in
    resend s.send_buffer 0 (resend_count s) >>= λ old.
    fill (record s { received = 0 }) stamps >>= λ r. ok (r.0, old ++ r.1)

unfoldable pub more_to_send : Sender → ℕ
more_to_send s0 = let s = choose_window s0 in s.sending_window - cir_queue_length s.send_buffer

-- Half of the congestion window, and at least 1.
unfoldable pub half_window : ℕ → ℕ
half_window cwnd = if ltb 1 (cwnd / 2) then cwnd / 2 else 1

-- The alarm rings before the acknowledgements are there: the congestion window falls to 1, and the
-- oldest datagram goes out again. `opened` is the window that the wait gave, if it was closed.
unfoldable pub on_timeout : Sender → ℕ → Outcome (Sender × List Packet)
on_timeout s opened = resend s.send_buffer 0 1 >>= λ old. ok (
  record s {
    recv_window = if s.recv_window == 0 then opened else s.recv_window;
    ssh = half_window s.cwnd;
    cwnd = 1;
    sending_window = 1;
    received = 0;
  },
  old,
)

-- Slow start below `ssh`, and congestion avoidance from there on.
unfoldable pub grow : Sender → Sender
grow s =
    if ltb s.cwnd s.ssh
    then record s { cwnd = s.cwnd + 1 }
    else if s.congestion_avoid_count + 1 == s.cwnd
    then record s { cwnd = s.cwnd + 1; congestion_avoid_count = 0 }
    else record s { congestion_avoid_count = s.congestion_avoid_count + 1 }

-- `for( ; head!=recv_hdr.seq; head++) DeCirQueue(send_buffer)`, with the rounds left.
unfoldable pub drop_acked : CirQueue → ℕ → Outcome CirQueue
drop_acked q zero = ok q
drop_acked q (suc n) = de_cir_queue q >>= λ rest. drop_acked rest n

-- What follows an acknowledgement: more are awaited, the round is over, three duplicates came, or
-- the client has the whole file.
pub data Next : Type 0 where
  wait_more round_over duplicates finished : Next

-- `++(send_buffer->base[send_buffer->front].ack)`, which starts again from 0 at the third.
unfoldable pub count_ack : CirQueue → Outcome (CirQueue × Bool)
count_ack q = q.base ‼ q.front >>= λ d.
    let third = d.ack + 1 == 3 in
    let ack = if third then 0 else d.ack + 1 in
    ok (record q { base = set q.base q.front (record d { ack = ack }) }, third)

-- Why the wait goes on or ends.
unfoldable pub next_step : Sender → Bool → Next
next_step s third =
    if third
    then duplicates
    else if not (s.received == s.sending_window) && not (is_empty s.send_buffer)
    then wait_more
    else round_over

-- The acknowledged datagrams leave the buffer, and the client's window is noted.
unfoldable pub take_ack : Sender → (seq window : ℕ) → Outcome (Sender × Next)
take_ack s seq window = drop_acked s.send_buffer (seq - s.head) >>= λ q. count_ack q >>= λ r.
    let t = record s {
      head = if ltb s.head seq then seq else s.head;
      recv_window = window;
      send_buffer = r.0;
    } in
    ok (t, next_step t r.1)

-- An acknowledgement of all datagrams below `seq`, or, with `seq` 0, of the whole file.
unfoldable pub on_ack : Sender → (seq window : ℕ) → Outcome (Sender × Next)
on_ack s0 seq window =
    let s = record (grow s0) { received = s0.received + 1 } in
    if seq == 0 then ok (s, finished) else take_ack s seq window

-- The fast retransmit after three duplicates: the congestion window is halved, the oldest datagram
-- goes out again, and new ones unless the file is at its end.
unfoldable pub fast_retransmit : Sender → ℕ → List ℕ → Outcome (Sender × List Packet)
fast_retransmit s0 opened stamps =
    let s = record s0 {
      recv_window = if s0.recv_window == 0 then opened else s0.recv_window;
      cwnd = half_window s0.cwnd;
      ssh = half_window s0.cwnd;
      received = 0;
    } in
    let window = three_min s.cwnd s.send_window s.recv_window in
    resend s.send_buffer 0 1 >>= λ old.
    if s.eof
    then ok (s, old)
    else (fill (record s { sending_window = window * 2 }) (take (window * 2 / 2 - 1) stamps)
        >>= λ r. ok (r.0, old ++ r.1))
