-- ===== src/Transfer/Network/Begun.antt =====
-- The invariant of a transfer as it starts.
use native.Mathlib.Nat.{mod_self}
use cse.Base.{IsText, ℕ, ◌+◌, ◌-◌, ◌<◌, ◌≡◌, refl, sym, subst, inl, Bytes, List, length, arith}
use cse.Transfer.Queue.{Datagram, CirQueue, cir_queue_length}
use cse.Transfer.Chain.{null}
use cse.Transfer.Chain.Order.{Under}
use cse.Transfer.Sender.{begin_transfer}
use cse.Transfer.Sender.Content.{IsCleared, line_of}
use cse.Transfer.Sender.Healthy.{Healthy}
use cse.Transfer.Receiver.{begin_receive}
use cse.Transfer.Receiver.Steps.{begin-InOrder}
use cse.Transfer.Network.{start}
use cse.Transfer.Network.Invariant.{Inv}

-- The buffer of the start.
abbrev empty_buffer : List Datagram → ℕ → CirQueue
empty_buffer memory size = record { base = memory; front = 0; rear = 0; max_qsize = size }

length-empty_buffer :
    (memory : List Datagram) (size : ℕ) → cir_queue_length (empty_buffer memory size) ≡ 0
unfolding cir_queue_length
length-empty_buffer memory size = let e : 0 + size - 0 ≡ size = omega arith in rw e (mod_self size)

start-Healthy :
    (memory : List Datagram) (file : Bytes) (send_window recv_window stack_ack : ℕ)
    (stack_line : Bytes)
    → length memory ≡ send_window
    → 0 < send_window
    → IsText file
    → IsCleared stack_line
    → Healthy file (start null memory file send_window recv_window stack_ack stack_line).sender
unfolding begin_transfer
start-Healthy memory file send_window recv_window stack_ack stack_line size some_slots plain
      cleared =
    let none_held = length-empty_buffer memory send_window in
    record {
      in_window = record {
        buffer = record { slots = size; front_in = some_slots; rear_in = some_slots };
        in_order = rw none_held refl;
        up_to_last = omega (arith, none_held);
      };
      carries = record {
        buffered = rw none_held tt;
        unread = refl;
        plain = plain;
        cleared = cleared;
      };
      small = omega arith;
    }

pub start-Inv :
    (memory : List Datagram) (file : Bytes) (send_window recv_window stack_ack : ℕ)
    (stack_line : Bytes)
    → length memory ≡ send_window
    → 0 < send_window
    → IsText file
    → IsCleared stack_line
    → Inv file (start null memory file send_window recv_window stack_ack stack_line)
unfolding begin_transfer begin_receive
start-Inv memory file send_window recv_window stack_ack stack_line size some_slots plain cleared =
    let (w, none_held) = begin-InOrder (line_of file) recv_window in
    record {
      healthy =
          start-Healthy memory file send_window recv_window stack_ack stack_line size some_slots
            plain cleared;
      order = w;
      printed_sent = omega arith;
      held_sent = subst (Under 1) (sym none_held) tt;
      sent_right = tt;
      answers_true = tt;
      acked_come = λ k lt. inl (omega arith);
    }
