-- ===== src/Transfer/Sender/Content.antt =====
-- What the datagrams of server.c carry: the lines of the file, each under its number.
use mathlib.Core.List.{append-nil}
use cse.Base.{
  before_nul, before_nul-append, IsText, All-take, replicate, zero, suc, refl, ℕ, ◌+◌, ◌-◌, ◌*◌,
  ◌^◌, ◌≤◌, ◌<◌, ◌≡◌, sym, ap, subst, ◌∙◌, inl, inr, Bytes, [], ◌∷◌, ◌++◌, ltb, if◌then◌else◌,
  length, length-drop, take, drop, u32, All, All-append, All-imp, drop-drop, Sound, Sound-known,
  arith, Bool-cases, ltb→lt,
}
use cse.Transfer.Queue.{Datagram, CirQueue, cir_queue_length}
use cse.Transfer.Queue.Fifo.{contents, en_cir_queue_lem}
use cse.Transfer.Sender.{
  Sender, Packet, datagram, window_request, packet_capacity, read_into, zeroed, send_new,
}
use cse.Transfer.Sender.Window.{InWindow}
use cse.Transfer.Sender.Rounds.{Sent, send_new-Sent}

-- Line `k` of a file, counted from 1: the `k`-th piece of 500 bytes.
abbrev pub line_of : Bytes → ℕ → Bytes
line_of file k = take 500 (drop (500 * (k - 1)) file)

-- What goes out under a number: an array with that line of the file as its text, the line being among
-- the first `n`; and the time stamp 0 says that the file ends in this line.
pub record OfFile (file : Bytes) (n seq ts : ℕ) (line : Bytes) : Type 0 where
  pub positive : 0 < seq
  pub reached : seq ≤ n
  pub right : before_nul line ≡ line_of file seq
  pub last : ts ≡ 0 → length file < 500 * seq

abbrev pub IsKept : Bytes → ℕ → Datagram → Type 0
IsKept file n d = OfFile file n d.seq d.ts d.sendline

abbrev pub IsRight : Bytes → ℕ → Packet → Type 0
IsRight file n (datagram seq ts line) = OfFile file n seq ts line
IsRight file n window_request = Unit

-- From any of the first 501 bytes on, there is a 0 first: the bytes behind a line end it.
abbrev pub IsCleared : Bytes → Type 0
IsCleared memory = (n : ℕ) → n ≤ 500 → before_nul (drop n memory) ≡ []

-- The buffer holds lines of the file, a file without a byte 0, and the rest of it is unread.
pub record Carries (file : Bytes) (s : Sender) : Type 0 where
  pub buffered : All (IsKept file s.sequence_number) (contents s.send_buffer)
  pub unread : s.file ≡ drop (500 * s.sequence_number) file
  pub plain : IsText file
  pub cleared : IsCleared s.line_memory

later_OfFile :
    {file line : Bytes} {n m seq ts : ℕ}
    → n ≤ m
    → OfFile file n seq ts line
    → OfFile file m seq ts line
later_OfFile le o = record {
  positive = o.positive;
  reached = omega (arith, o.reached);
  right = o.right;
  last = o.last;
}

pub later_IsRight :
    (file : Bytes) {n m : ℕ} → n ≤ m → (p : Packet) → IsRight file n p → IsRight file m p
later_IsRight file le (datagram seq ts line) o = later_OfFile le o
later_IsRight file le window_request o = tt

all_zero : (n m : ℕ) → before_nul (drop n (replicate m 0)) ≡ []
unfolding before_nul
all_zero zero zero = refl
all_zero zero (suc m) = refl
all_zero (suc n) zero = refl
all_zero (suc n) (suc m) = all_zero n m

pub zeroed-IsCleared : IsCleared zeroed
zeroed-IsCleared n le = all_zero n 4096

length-take-le : (n : ℕ) (xs : Bytes) → length (take n xs) ≤ n
length-take-le zero xs = omega arith
length-take-le (suc n) [] = omega arith
length-take-le (suc n) (x ∷ xs) = omega (arith, length-take-le n xs)

drop-IsText : (n : ℕ) (xs : Bytes) → IsText xs → IsText (drop n xs)
drop-IsText zero xs h = h
drop-IsText (suc n) [] h = tt
drop-IsText (suc n) (x ∷ xs) h = drop-IsText n xs h.1

-- The text of the array that `fread` has filled is the line.
read_into_text :
    (memory rest : Bytes)
    → IsText rest
    → IsCleared memory
    → before_nul (read_into memory rest) ≡ take 500 rest
read_into_text memory rest plain cleared =
    before_nul-append (take 500 rest) (drop (length (take 500 rest)) memory)
      (All-take (λ x. 0 < x) 500 rest plain)
    ∙ (ap (λ ys. take 500 rest ++ ys) (cleared (length (take 500 rest)) (length-take-le 500 rest))
        ∙ append-nil (take 500 rest))

-- The datagram that `send_new` makes.
new_OfFile :
    (file rest memory : Bytes) (n now : ℕ)
    → rest ≡ drop (500 * n) file
    → IsText file
    → IsCleared memory
    → 0 < now
    → OfFile file (n + 1) (n + 1) (if ltb (length rest) 500 then 0 else now) (read_into memory rest)
new_OfFile file rest memory n now unread plain cleared pos = record {
  positive = omega arith;
  reached = omega arith;
  right =
      let e : n + 1 - 1 ≡ n = omega arith in
      let plain_rest : IsText rest = subst IsText (sym unread) (drop-IsText (500 * n) file plain) in
      rw e (read_into_text memory rest plain_rest cleared ∙ ap (take 500) unread);
  last = λ z. elim (Bool-cases (ltb (length rest) 500)) [
    | inl p ↦ omega (arith, ltb→lt _ _ p, ap length unread, length-drop (500 * n) file)
    | inr p ↦ absurd (omega (arith, pos, rw p at z))
  ];
}

module _ {file : Bytes} (s : Sender) (now : ℕ) (w : InWindow s) (c : Carries file s)
    (pos : 0 < now) where
  entered_lines :
      (q : CirQueue) (d : Datagram)
      → contents q ≡ contents s.send_buffer ++ (d ∷ [])
      → IsKept file (s.sequence_number + 1) d
      → All (IsKept file (s.sequence_number + 1)) (contents q)
  entered_lines q d e k =
      let kept =
        All-imp
          (λ (x : Datagram) (o : IsKept file s.sequence_number x). later_OfFile (omega arith) o)
          (contents s.send_buffer) c.buffered in
      subst (All (IsKept file (s.sequence_number + 1))) (sym e) (
        All-append (IsKept file (s.sequence_number + 1)) (contents s.send_buffer) (d ∷ []) kept
          (k, tt))

  send_new-Carries :
      cir_queue_length s.send_buffer + 1 < s.send_buffer.max_qsize
      → s.sequence_number + 1 < 2 ^ 32
      → Sound
          (λ (r : Sender × Packet). Carries file r.0 × IsRight file r.0.sequence_number r.1)
          (send_new s now)
  unfolding send_new
  send_new-Carries room small =
      let seq : ℕ = u32 (s.sequence_number + 1) in
      let line = read_into s.line_memory s.file in
      let eof = ltb (length s.file) packet_capacity in
      let ts : ℕ = if eof then 0 else now in
      let d : Datagram = record { seq = seq; ts = ts; sendline = line; ack = s.stack_ack } in
      let (q, done, _, _, grown, _) = en_cir_queue_lem d w.buffer in
      let next : seq ≡ s.sequence_number + 1 = omega arith in
      let new : OfFile file (s.sequence_number + 1) seq ts line =
        subst (λ k. OfFile file (s.sequence_number + 1) k ts line) (sym next)
          (new_OfFile file s.file s.line_memory s.sequence_number now c.unread c.plain c.cleared
            pos) in
      let t : Sender = record s {
        sequence_number = seq;
        send_buffer = q;
        file = drop packet_capacity s.file;
        eof = eof;
        line_memory = zeroed;
      } in
      Sound-known {a = (t, datagram seq ts line)} (rw done) (
        record {
          buffered =
              subst (λ k. All (IsKept file k) (contents q)) (sym next)
                (entered_lines q d (grown room) new);
          unread =
              ap (drop 500) c.unread
              ∙ (drop-drop (500 * s.sequence_number) 500 file
                  ∙ ap (λ k. drop k file) (omega arith));
          plain = c.plain;
          cleared = zeroed-IsCleared;
        },
        subst (λ k. OfFile file k seq ts line) (sym next) new,
      )

-- What `send_new` leaves.
pub record SentLine (file : Bytes) (s : Sender) (r : Sender × Packet) : Type 0 where
  pub sent : Sent s r.0
  pub carries : Carries file r.0
  pub right : IsRight file r.0.sequence_number r.1

pub send_new-SentLine :
    {file : Bytes} (s : Sender) (now : ℕ)
    → InWindow s
    → Carries file s
    → cir_queue_length s.send_buffer + 1 < s.send_buffer.max_qsize
    → s.sequence_number + 1 < 2 ^ 32
    → 0 < now
    → Sound (SentLine file s) (send_new s now)
send_new-SentLine {file} s now w c room small pos =
    let (r, done, st) = send_new-Sent s now w room small in
    let (carries, right) = (send_new-Carries s now w c pos room small).at r done in
    Sound-known done (record { sent = st; carries = carries; right = right })
