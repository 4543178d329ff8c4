-- ===== src/Messages.antt =====
-- Assignment 3/Code/API.c: the texts by which the clients, the servers and ODR.c exchange messages on
-- one node, as `sprintf` writes them and `sscanf` reads them.
pub mod Digits
pub mod Trips
pub mod Programs
pub mod Answers
pub mod Astray
mod Tests
use cse.Base.{
  ℕ, ◌+◌, ◌-◌, ◌*◌, ◌^◌, Bytes, List, [], ◌∷◌, ◌++◌, Option, none, some, Bool, true, false, ◌&&◌,
  ◌||◌, ◌==◌, leb, if◌then◌else◌, blank, decimal, u32, length, drop, before_nul,
}

-- `isspace`
unfoldable pub is_space : ℕ → Bool
is_space c = c == 32 || (leb 9 c && leb c 13)

unfoldable pub is_digit : ℕ → Bool
is_digit c = leb 48 c && leb c 57

unfoldable pub skip : Bytes → Bytes
skip [] = []
skip (c ∷ cs) = let rest = skip cs in if is_space c then rest else c ∷ cs

-- The characters up to the next white space, and the others.
unfoldable pub word : Bytes → Bytes × Bytes
word [] = ([], [])
word (c ∷ cs) = let rest = word cs in if is_space c then ([], c ∷ cs) else (c ∷ rest.0, rest.1)

-- The digits from here on, after those that came to `n`.
unfoldable pub digits : ℕ → Bytes → ℕ × Bytes
digits n [] = (n, [])
digits n (c ∷ cs) =
    let rest = digits (n * 10 + (c - 48)) cs in if is_digit c then rest else (n, c ∷ cs)

-- At least one digit.
unfoldable pub number : Bytes → Option (ℕ × Bytes)
number [] = none
number (c ∷ cs) = if is_digit c then some (digits 0 (c ∷ cs)) else none

abbrev pub negated : Option (ℕ × Bytes) → Option (ℕ × Bytes)
negated none = none
negated (some (n, cs)) = some (u32 (2 ^ 32 - n), cs)

-- `%d`, to the bits of an `int`.
unfoldable pub scan_int : Bytes → Option (ℕ × Bytes)
scan_int [] = none
scan_int (c ∷ cs) =
    if c == 45 then negated (number cs) else if c == 43 then number cs else number (c ∷ cs)

-- `%s`
abbrev pub scan_word : Bytes → Option (Bytes × Bytes)
scan_word [] = none
scan_word (c ∷ cs) = some (word (c ∷ cs))

-- What `msg_send` writes.
pub record Request : Type 0 where
  pub dst_addr : Bytes
  pub dst_port : ℕ
  pub message : Bytes
  pub flag : ℕ

unfoldable pub msg_send : Request → Bytes
msg_send r =
    r.dst_addr
    ++ (blank ++ (decimal r.dst_port ++ (blank ++ (r.message ++ (blank ++ decimal r.flag)))))

-- Each conversion, by what the input has for it: what is not read stays as it was.
abbrev pub put_flag : Request → Option (ℕ × Bytes) → Request
put_flag old none = old
put_flag old (some (n, cs)) = record old { flag = n }

abbrev pub put_message : Request → Option (Bytes × Bytes) → Request
put_message old none = old
put_message old (some (w, cs)) = put_flag (record old { message = w }) (scan_int (skip cs))

abbrev pub put_port : Request → Option (ℕ × Bytes) → Request
put_port old none = old
put_port old (some (n, cs)) = put_message (record old { dst_port = n }) (scan_word (skip cs))

abbrev pub put_addr : Request → Option (Bytes × Bytes) → Request
put_addr old none = old
put_addr old (some (w, cs)) = put_port (record old { dst_addr = w }) (scan_int (skip cs))

-- `sscanf(recvmsg, "%s %d %s %d", dst_addr, &dst_port, message, &flag)` in ODR.c, where the variables
-- have what the message before left in them.
unfoldable pub scan_request : Request → Bytes → Request
scan_request old cs = put_addr old (scan_word (skip cs))

-- What `msg_recv` fills.
pub record Reply : Type 0 where
  pub recvmsg : Bytes
  pub src_addr : Bytes
  pub src_port : ℕ

abbrev pub reply_port : Reply → Option (ℕ × Bytes) → Reply
reply_port old none = old
reply_port old (some (n, cs)) = record old { src_port = n }

abbrev pub reply_addr : Reply → Option (Bytes × Bytes) → Reply
reply_addr old none = old
reply_addr old (some (w, cs)) = reply_port (record old { src_addr = w }) (scan_int (skip cs))

abbrev pub reply_message : Reply → Option (Bytes × Bytes) → Reply
reply_message old none = old
reply_message old (some (w, cs)) = reply_addr (record old { recvmsg = w }) (scan_word (skip cs))

-- `msg_recv`: the datagram goes over the first bytes of the array, whose content is `memory`, and the
-- text goes on with what is there behind it, up to a 0.
unfoldable pub msg_recv : Reply → (memory received : Bytes) → Reply
msg_recv old memory received =
    reply_message old (scan_word (skip (before_nul (received ++ drop (length received) memory))))
