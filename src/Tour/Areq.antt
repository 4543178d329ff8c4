-- ===== src/Tour/Areq.antt =====
-- `areq` of Assignment 4/Code/tour.c, by which the tour asks arp.c on its node for a hardware address.
use mathlib.Core.List.{append-nil}
use cse.Base.{
  ℕ, zero, suc, ◌+◌, ◌<◌, ◌≡◌, refl, ap, ◌∙◌, Bytes, [], ◌∷◌, ◌++◌, some, false, ltb, if◌then◌else◌,
  length, take, drop, get_elem?, same, before_nul, before_nul-append, IsText, lt→ltb, Outcome, ok,
  fault, arith,
}
use cse.Arp.{
  Arp, CacheEntry, send, write, close, on_connection, on_frame, ask_header, ask_message,
  answer_header, answer_message,
}
use cse.Arp.Resolve.{slot_of, resolve_lem}

-- What goes to arp.c: the fifteen bytes of an array with the address in it; `memory` is what the array
-- held.
unfoldable pub areq_request : (ip_addr memory : Bytes) → Outcome Bytes
areq_request ip_addr memory =
    if ltb (length ip_addr) 15
    then ok (take 15 (ip_addr ++ (0 ∷ drop (length ip_addr + 1) memory)))
    else fault

-- `ip` in arp.c, as a string.
unfoldable pub requested_ip : (received : Bytes) → Bytes
requested_ip received = before_nul received

-- `HW->sll_addr` after the answer: six bytes of the array `mac_addr`, into which the answer was read.
unfoldable pub areq_answer : (sll_addr memory received : Bytes) → Bytes
areq_answer sll_addr memory received =
    take 6 (received ++ drop (length received) memory) ++ drop 6 sll_addr

take_text :
    (n : ℕ) (text rest : Bytes)
    → length text < n
    → (ys : Bytes) × (take n (text ++ (0 ∷ rest)) ≡ text ++ (0 ∷ ys))
take_text zero text rest h = absurd (omega arith)
take_text (suc n) [] rest h = (take n rest, refl)
take_text (suc n) (x ∷ xs) rest h =
    let (ys, e) = take_text n xs rest (omega arith) in (ys, ap (λ zs. x ∷ zs) e)

take_front : (n : ℕ) (xs ys : Bytes) → length xs ≡ n → take n (xs ++ ys) ≡ xs
take_front zero [] ys h = refl
take_front zero (x ∷ xs) ys h = absurd (omega arith)
take_front (suc n) [] ys h = absurd (omega arith)
take_front (suc n) (x ∷ xs) ys h = ap (λ zs. x ∷ zs) (take_front n xs ys (omega arith))

nul-before_nul : (ys : Bytes) → before_nul (0 ∷ ys) ≡ []
unfolding before_nul
nul-before_nul ys = refl

-- The address arrives as it was.
request-arrives :
    (ip memory : Bytes)
    → IsText ip
    → length ip < 15
    → (sent : Bytes) × (areq_request ip memory ≡ ok sent) × (requested_ip sent ≡ ip)
unfolding areq_request requested_ip
request-arrives ip memory plain short =
    let (ys, e) = take_text 15 ip (drop (length ip + 1) memory) short in
    (
      take 15 (ip ++ (0 ∷ drop (length ip + 1) memory)),
      rw (lt→ltb (length ip) 15 short) refl,
      ap before_nul e
          ∙ (before_nul-append ip (0 ∷ ys) plain
              ∙ (ap (λ zs. ip ++ zs) (nul-before_nul ys) ∙ append-nil ip)),
    )

-- What the tour gets for the address of node `b`.
pub record Resolves (a b : Arp) (fd : ℕ) (memory hw mac_memory : Bytes) : Type 0 where
  pub sent : Bytes
  pub asked : areq_request b.ip_addr memory ≡ ok sent
  pub a1 : Arp
  pub broadcasts :
      on_connection a fd (requested_ip sent)
      ≡ ok (a1, send (ask_header a) (ask_message a b.ip_addr) ∷ [])
  pub answers :
      on_frame b (ask_header a) (ask_message a b.ip_addr)
      ≡ ok (
        b,
        send (answer_header b (ask_header a)) (answer_message b (ask_message a b.ip_addr)) ∷ [],
      )
  pub a2 : Arp
  pub received : Bytes
  pub writes :
      on_frame a1 (answer_header b (ask_header a)) (answer_message b (ask_message a b.ip_addr))
      ≡ ok (a2, write fd received ∷ close fd ∷ [])
  pub gets : areq_answer hw mac_memory received ≡ b.mac_addr ++ drop 6 hw

-- The tour on the node of `a` calls `areq` for the address of a node `b`, one of the ten, that `a`
-- does not know: the request goes through the two arp processes, and the answer that `a` writes to
-- the tour makes `areq` put the hardware address of `b` in place of the first six bytes.
pub areq-Resolves :
    (a b : Arp) (fd : ℕ) (memory hw mac_memory : Bytes) {e : CacheEntry}
    → IsText b.ip_addr
    → length b.ip_addr < 15
    → length b.mac_addr ≡ 6
    → slot_of b.ip_addr < 10
    → get_elem? a.cache (slot_of b.ip_addr) ≡ some e
    → same e.ip_addr b.ip_addr ≡ false
    → Resolves a b fd memory hw mac_memory
unfolding areq_answer
areq-Resolves a b fd memory hw mac_memory plain short six known found unknown =
    let (sent, asked, arrives) = request-arrives b.ip_addr memory plain short in
    let (a1, a2, miss, _, answered, _, taken, _) = resolve_lem a b fd known found unknown in
    record {
      sent = sent;
      asked = asked;
      a1 = a1;
      broadcasts = ap (on_connection a fd) arrives ∙ miss;
      answers = answered;
      a2 = a2;
      received = b.mac_addr;
      writes = taken;
      gets =
          ap (λ m. m ++ drop 6 hw)
            (take_front 6 b.mac_addr (drop (length b.mac_addr) mac_memory) six);
    }
