-- ===== src/Messages/Answers.antt =====
-- What the client and the server of Assignment 3/Code make of the texts of ODR.c.
use mathlib.Core.List.{append_assoc}
use cse.Base.{
  ℕ, zero, suc, ◌+◌, ◌-◌, ◌/◌, ◌%◌, ◌^◌, ◌<◌, ◌≡◌, refl, sym, ap, subst, ◌∙◌, inl, inr, Bytes, List,
  [], ◌∷◌, ◌++◌, none, some, true, All-append, blank, decimal, digits_fuel, ltb, Bool-cases, length,
  drop, take, get_elem?, replicate, codes, same, same_refl, same→eq, before_nul, before_nul-append,
  IsText, index_of_array, ok, arith,
}
use cse.Messages.{skip, scan_word, Request, Reply, msg_recv, reply_message, reply_addr, reply_port}
use cse.Messages.Digits.{NoDigitFirst}
use cse.Messages.Trips.{IsWord, scan_word-word, blank_word, blank_int}
use cse.Messages.Programs.{node_addr, wait, client_round, find_node, Server, server_round}
use cse.Odr.Types.{Payload, vm_addr}
use cse.Odr.Data.{load_text}

digits_fuel-IsText : (f n : ℕ) → IsText (digits_fuel f n)
unfolding digits_fuel
digits_fuel-IsText zero n = tt
digits_fuel-IsText (suc f) n = elim (Bool-cases (ltb n 10)) [
  | inl p ↦ rw p (omega arith, tt)
  | inr p ↦ rw p (
      All-append (λ x. 0 < x) (digits_fuel f (n / 10)) ((n % 10 + 48) ∷ [])
        (digits_fuel-IsText f (n / 10)) (omega arith, tt))
]

decimal-IsText : (n : ℕ) → IsText (decimal n)
unfolding decimal
decimal-IsText n = elim (Bool-cases (ltb n (2 ^ 31))) [
  | inl p ↦ rw p (digits_fuel-IsText 10 n)
  | inr p ↦ rw p (omega arith, digits_fuel-IsText 10 (2 ^ 32 - n))
]

-- A payload of two words.
pub record IsPlainLoad (l : Payload) : Type 0 where
  pub message_word : IsWord l.message
  pub message_text : IsText l.message
  pub addr_word : IsWord l.src_addr
  pub addr_text : IsText l.src_addr
  pub port_small : l.src_port < 2 ^ 32

abbrev pub reply_of : Payload → Reply
reply_of l = record { recvmsg = l.message; src_addr = l.src_addr; src_port = l.src_port }

load_text-IsText : (l : Payload) → IsPlainLoad l → IsText (load_text l)
unfolding load_text
load_text-IsText l p =
    let P : ℕ → Type 0 = λ x. 0 < x in
    All-append P l.message _ p.message_text (
      All-append P blank _ (omega arith, tt)
        (All-append P l.src_addr _ p.addr_text
          (All-append P blank _ (omega arith, tt) (decimal-IsText l.src_port))))

load_text-append :
    (l : Payload) (tail : Bytes)
    → load_text l ++ tail
      ≡ l.message ++ (blank ++ (l.src_addr ++ (blank ++ (decimal l.src_port ++ tail))))
unfolding load_text
load_text-append l tail = simp append_assoc refl

scanned :
    (old : Reply) (l : Payload) (tail : Bytes)
    → IsPlainLoad l
    → NoDigitFirst tail
    → reply_message old (scan_word (skip (load_text l ++ tail))) ≡ reply_of l
scanned old l tail p rest =
    let r1 : Reply = record old { recvmsg = l.message } in
    let r2 : Reply = record r1 { src_addr = l.src_addr } in
    let end : Bytes = decimal l.src_port ++ tail in
    ap (λ cs. reply_message old (scan_word (skip cs))) (load_text-append l tail)
    ∙ (ap (reply_message old)
          (scan_word-word l.message (l.src_addr ++ (blank ++ end)) p.message_word)
        ∙ (ap (reply_addr r1) (blank_word l.src_addr end p.addr_word)
            ∙ ap (reply_port r2) (blank_int l.src_port tail p.port_small rest)))

-- What the array of `msg_recv` holds behind a datagram.
abbrev pub behind : (memory received : Bytes) → Bytes
behind memory received = before_nul (drop (length received) memory)

-- A process that receives a payload from ODR.c reads its message, the address and the port that it
-- came from, if message and address are words and what the array holds behind the datagram does not
-- begin with a digit.
msg_recv-load_text :
    (old : Reply) (l : Payload) (memory : Bytes)
    → IsPlainLoad l
    → NoDigitFirst (behind memory (load_text l))
    → msg_recv old memory (load_text l) ≡ reply_of l
unfolding msg_recv
msg_recv-load_text old l memory p rest =
    ap (λ cs. reply_message old (scan_word (skip cs)))
      (before_nul-append (load_text l) (drop (length (load_text l)) memory) (load_text-IsText l p))
    ∙ scanned old l (behind memory (load_text l)) p rest

-- The search finds a node with the address.
find_node-found :
    (addr : Bytes) (addrs : List Bytes) (node recv i : ℕ)
    → get_elem? addrs i ≡ some addr
    → (j : ℕ) × (find_node addr addrs node recv ≡ node + j) × (get_elem? addrs j ≡ some addr)
unfolding find_node
find_node-found addr [] node recv i e = absurd (cc)
find_node-found addr (a ∷ addrs) node recv zero e =
    let e' : some a ≡ some addr = e in
    let here : same addr a ≡ true = subst (λ b. same addr b ≡ true) (cc) (same_refl addr) in
    (0, rw here (omega arith), e)
find_node-found addr (a ∷ addrs) node recv (suc i) e = elim (Bool-cases (same addr a)) [
  | inl p ↦ (0, rw p (omega arith), ap some (sym (same→eq addr a p)))
  | inr p ↦
      let (j, found, there) = find_node-found addr addrs (node + 1) recv i e in
      (suc j, rw p (omega (arith, found)), there)
]

node_addr-suc :
    (j : ℕ) (addr : Bytes) → get_elem? vm_addr j ≡ some addr → node_addr (1 + j) ≡ ok addr
unfolding node_addr
node_addr-suc j addr e = let f : 1 + j ≡ suc j = omega arith in rw f (ap (λ o. index_of_array o) e)

-- A request of two words from one of the ten nodes, as ODR.c writes it: the server answers to the
-- address and the port that the request came from, with the time and the flag 0, if what its array
-- holds behind the datagram does not begin with a digit.
pub server_round_lem :
    (s : Server) (l : Payload) (memory date : Bytes) (i : ℕ)
    → get_elem? vm_addr i ≡ some l.src_addr
    → IsPlainLoad l
    → NoDigitFirst (behind memory (load_text l))
    → (t : Server) × (server_round s memory (load_text l) date
        ≡ ok (
          t,
          record {
            dst_addr = l.src_addr;
            dst_port = l.src_port;
            message = take 24 date ++ (13 ∷ 10 ∷ []);
            flag = 0;
          },
        ))
unfolding server_round
server_round_lem s l memory date i known p rest =
    let (j, found, there) = find_node-found l.src_addr vm_addr 1 s.recv i known in
    let addr : node_addr (find_node l.src_addr vm_addr 1 s.recv) ≡ ok l.src_addr =
      ap node_addr found ∙ node_addr-suc j l.src_addr there in
    (
      record { reply = reply_of l; recv = find_node l.src_addr vm_addr 1 s.recv },
      simp (msg_recv-load_text s.reply l memory p rest, addr) refl,
    )

wait-timeouts :
    (n : ℕ) (q : Request) (old : Reply) (memory received : Bytes)
    → wait q old (replicate n none ++ (some (memory, received) ∷ []))
      ≡ (replicate n (record q { flag = 1 }), some (msg_recv old memory received))
unfolding wait
wait-timeouts zero q old memory received = refl
wait-timeouts (suc n) q old memory received = rw (wait-timeouts n q old memory received) refl

-- The client asks for one of the ten nodes, and an answer of two words comes after `n` timeouts: it
-- has sent the request once without the flag that forces a new route, and `n` times with it; and it
-- has the message of the answer, and the address and the port that it came from.
client_round_lem :
    (i n : ℕ) (addr : Bytes) (old : Reply) (l : Payload) (memory : Bytes)
    → get_elem? vm_addr i ≡ some addr
    → IsPlainLoad l
    → NoDigitFirst (behind memory (load_text l))
    → (let q : Request = record {
      dst_addr = addr;
      dst_port = 5000;
      message = codes "HI";
      flag = 0;
    } in
        client_round (1 + i) old (replicate n none ++ (some (memory, load_text l) ∷ []))
        ≡ ok (q ∷ replicate n (record q { flag = 1 }), some (reply_of l)))
unfolding client_round
client_round_lem i n addr old l memory known p rest =
    let q : Request = record { dst_addr = addr; dst_port = 5000; message = codes "HI"; flag = 0 } in
    simp
      (
        node_addr-suc i addr known,
        wait-timeouts n q old memory (load_text l),
        msg_recv-load_text old l memory p rest,
      )
      refl
