-- ===== src/Transfer/Receiver.antt =====
-- The receiving side of Assignment 2/Code/client.c: the loop that takes datagrams, and the thread
-- that prints them. What `rand` decides about a loss is an argument of each step.
pub mod Order
pub mod Answer
pub mod Print
pub mod Steps
mod Tests
pub mod Advertised
use cse.Base.{
  before_nul, ℕ, suc, ◌+◌, ◌-◌, ◌^◌, Bytes, List, [], ◌∷◌, ◌++◌, Bool, true, false, ◌&&◌, ◌==◌, ltb,
  if◌then◌else◌, u32, htons, Outcome, ok, fault, ◌>>=◌,
}
use cse.Transfer.Chain.{Chain, null, wild, node, insert_link_list, link_list_length, next_ack}

-- `struct hdr` with its fields in host order, but for `recv_window`.
pub record Header : Type 0 where
  pub seq : ℕ
  pub ts : ℕ
  pub recv_window : ℕ

-- The globals, `send_hdr.seq` and `recv_window`, what was printed, and whether the loop goes on.
pub record Receiver : Type 0 where
  pub header : Chain
  pub printed : ℕ
  pub data_flag : Bool
  pub process_flag : Bool
  pub recv_window : ℕ
  pub send_seq : ℕ
  pub output : List Bytes
  pub receiving : Bool

-- The client when the transfer starts, `window` being the one of its configuration. The list is
-- empty if `malloc` has zeroed the head node.
unfoldable pub begin_receive : (memory : Chain) → (window : ℕ) → Receiver
begin_receive memory window = record {
  header = memory;
  printed = 0;
  data_flag = false;
  process_flag = false;
  recv_window = htons window;
  send_seq = 0;
  output = [];
  receiving = true;
}

-- `recv_window-htons(LinkListLength(header))`, both in network order, as 32 bits.
unfoldable pub advertised : (recv_window len : ℕ) → ℕ
advertised recv_window len = u32 (recv_window + 2 ^ 32 - htons len)

-- The server asks for the window.
unfoldable pub on_window_request : Receiver → (comes goes : Bool) → Outcome (Receiver × List Header)
on_window_request r comes goes =
    if comes && goes
    then (link_list_length r.header >>= λ len. ok (
      record r { send_seq = 1 },
      record { seq = 1; ts = 0; recv_window = advertised r.recv_window len } ∷ [],
    ))
    else ok (r, [])

-- The acknowledgement goes out, and ends the loop when all has come, or is lost.
unfoldable pub acknowledge : Receiver → (ts : ℕ) → (goes : Bool) → Outcome (Receiver × List Header)
acknowledge r ts goes =
    if goes
    then (link_list_length r.header >>= λ len. ok (
      if r.data_flag then record r { receiving = false } else r,
      record { seq = r.send_seq; ts = ts; recv_window = advertised r.recv_window len } ∷ [],
    ))
    else ok (r, [])

-- The datagram enters the list unless it has been printed; `strcpy` copies the array, which `recv` has
-- filled and the loop has terminated, up to its first byte 0.
unfoldable pub enter : (memory : Chain) → Receiver → (seq : ℕ) → Bytes → Outcome Chain
enter memory r seq line =
    if ltb r.printed seq
    then insert_link_list memory r.header seq (before_nul line)
    else ok r.header

-- Whether this is the last datagram, and all before it are there.
abbrev pub is_whole : (next seq ts : ℕ) → Bool
is_whole next seq ts = (ts == 0) && (next == u32 (seq + 1))

-- A datagram with a number above 0.
unfoldable pub on_datagram :
    (memory : Chain)
    → Receiver
    → (seq ts : ℕ) → Bytes
    → (comes goes : Bool) → Outcome (Receiver × List Header)
on_datagram memory r seq ts line comes goes =
    if comes
    then (enter memory r seq line >>= λ list. next_ack list r.printed >>= λ next.
        acknowledge
          (record r {
            header = list;
            data_flag = if is_whole next seq ts then true else r.data_flag;
            send_seq = if is_whole next seq ts then 0 else next;
          })
          ts goes)
    else ok (r, [])

-- The loop that prints: the rest of the list, the count, and the lines.
unfoldable pub print_run : Chain → (printed : ℕ) → Outcome (Chain × (ℕ × List Bytes))
print_run null printed = ok (null, (printed, []))
print_run wild printed = fault
print_run (node s l next) printed =
    let rest = print_run next (printed + 1) in
    if s == printed + 1
    then (rest >>= λ r. ok (r.0, (r.1.0, l ∷ r.1.1)))
    else ok (node s l next, (printed, []))

-- One round of `print_out` prints, and then looks whether all has come. The loop of datagrams may
-- run between the two.
unfoldable pub print_lines : Receiver → Outcome Receiver
print_lines r = print_run r.header r.printed >>= λ p.
    ok (record r { header = p.0; printed = p.1.0; output = r.output ++ p.1.1 })

unfoldable pub print_end : Receiver → Receiver
print_end r = if r.data_flag then record r { process_flag = true } else r
