-- ===== src/Transfer/Queue.antt =====
-- Assignment 2/Code/CirQueue.c, the circular queue of sent datagrams.
pub mod Fifo
use cse.Base.{
  ℕ, zero, suc, ◌+◌, ◌-◌, ◌%◌, Bytes, List, [], ◌∷◌, Option, none, some, Bool, ◌==◌, ltb,
  if◌then◌else◌, length, set, get_elem?, Outcome, ok, fault, ◌>>=◌, ◌‼◌,
}

-- `struct data`
pub record Datagram : Type 0 where
  pub seq : ℕ
  pub ts : ℕ
  pub sendline : Bytes
  pub ack : ℕ

-- `struct CirQueue`; `front` and `rear` are never negative.
pub record CirQueue : Type 0 where
  pub base : List Datagram
  pub front : ℕ
  pub rear : ℕ
  pub max_qsize : ℕ

-- `InitCirQueue`, with what `malloc` gives: nothing, after which the process exits (`none`), or the
-- memory, whose content is not set.
unfoldable pub init_cir_queue : Option (List Datagram) → ℕ → Option CirQueue
init_cir_queue none size = none
init_cir_queue (some memory) size =
    some (record { base = memory; front = 0; rear = 0; max_qsize = size })

unfoldable pub destroy_cir_queue : CirQueue → CirQueue
destroy_cir_queue q = record q { base = []; front = 0; rear = 0 }

unfoldable pub clear_cir_queue : CirQueue → CirQueue
clear_cir_queue q = record q { front = 0; rear = 0 }

unfoldable pub is_empty : CirQueue → Bool
is_empty q = q.front == q.rear

-- `(rear-front+MAX_QSIZE)%MAX_QSIZE`, where `front` is at most `MAX_QSIZE`.
unfoldable pub cir_queue_length : CirQueue → ℕ
cir_queue_length q = (q.rear + q.max_qsize - q.front) % q.max_qsize

-- `x % MAX_QSIZE`; with no slots the division is a fault.
abbrev pub wrap : ℕ → ℕ → Outcome ℕ
wrap m x = if m == 0 then fault else ok (x % m)

-- `EnCirQueue` does not look whether there is room.
unfoldable pub en_cir_queue : CirQueue → Datagram → Outcome CirQueue
en_cir_queue q input =
    if ltb q.rear (length q.base)
    then (wrap q.max_qsize (q.rear + 1) >>= λ rear.
        ok (record q { base = set q.base q.rear input; rear = rear }))
    else fault

-- `DeCirQueue` does not look whether there is an element.
unfoldable pub de_cir_queue : CirQueue → Outcome CirQueue
de_cir_queue q = wrap q.max_qsize (q.front + 1) >>= λ front. ok (record q { front = front })
