-- ===== src/Arp/Resolve.antt =====
-- How two instances of arp.c resolve an address between them, and what several requests come to.
use cse.Base.{
  true, length, ◌≢◌, same, same_refl, subst, zero, suc, ℕ, ◌≤◌, ◌<◌, ◌≡◌, refl, Bytes, List, [],
  ◌∷◌, some, false, get_elem?, get_elem?-lt, get_elem?_total, get_elem?-set_self, set, same,
  same→eq, same_refl, htons, get_elem?-none, ltb, ltb→lt, Bool-cases, inl, inr, ◌↔◌, ntohs-htons,
  ok, fault, arith,
}
use cse.Arp.{
  Arp, CacheEntry, Header, ArpMessage, Call, send, write, close, vm_addr, index_of, answer_header,
  answer_message, ask_header, ask_message, store, on_frame, on_connection,
}
use cse.Arp.Cache.{IsValid, index_of-eq}

-- The place of an address that the table has.
abbrev pub slot_of : Bytes → ℕ
slot_of ip = index_of ip vm_addr

module _ (a : Arp) (ip : Bytes) {e : CacheEntry}
    (found : get_elem? a.cache (slot_of ip) ≡ some e) where
  connection_hit :
      (fd : ℕ)
      → get_elem? vm_addr (slot_of ip) ≡ some ip
      → e.ip_addr ≡ ip
      → on_connection a fd ip ≡ ok (a, write fd e.mac_addr ∷ close fd ∷ [])
  unfolding on_connection
  connection_hit fd known h = rw (found, known, h, same_refl ip)

  connection_miss :
      (fd : ℕ)
      → get_elem? vm_addr (slot_of ip) ≡ some ip
      → same e.ip_addr ip ≡ false
      → on_connection a fd ip
        ≡ ok (
          record a { cache = set a.cache (slot_of ip) (record e { sockfd = fd }) },
          send (ask_header a) (ask_message a ip) ∷ [],
        )
  unfolding on_connection
  connection_miss fd known h = rw (found, known, h)

  frame_reply :
      (header : Header) (arp : ArpMessage)
      → arp.op ≡ htons 2
      → arp.dst_ip ≡ ip
      → on_frame a header arp
        ≡ ok (
          record a {
            cache = set a.cache (slot_of ip) (record e { ip_addr = ip; mac_addr = arp.dst_mac });
          },
          write e.sockfd arp.dst_mac ∷ close e.sockfd ∷ [],
        )
  unfolding on_frame store
  frame_reply header arp o d = rw (o, ntohs-htons 2 (omega arith), d, found)

request_answered :
    (a b : Arp)
    → on_frame b (ask_header a) (ask_message a b.ip_addr)
      ≡ ok (
        b,
        send (answer_header b (ask_header a)) (answer_message b (ask_message a b.ip_addr)) ∷ [],
      )
unfolding on_frame ask_message
request_answered a b = rw (ntohs-htons 1 (omega arith), same_refl b.ip_addr)

-- A request that is not for this node is not answered, and leaves the cache as it is.
request_ignored :
    (a b : Arp) (ip : Bytes)
    → same ip b.ip_addr ≡ false
    → on_frame b (ask_header a) (ask_message a ip) ≡ ok (b, [])
unfolding on_frame ask_message
request_ignored a b ip h = rw (ntohs-htons 1 (omega arith), h)

-- The reply of `b` that comes back to `a`, which has noted `fd` and whose entry is `e`.
module _ (a b : Arp) (fd : ℕ) {e : CacheEntry}
    (found : get_elem? a.cache (slot_of b.ip_addr) ≡ some e) where
  -- `a` after the request, and after the reply.
  abbrev pub waiting : Arp
  waiting = record a { cache = set a.cache (slot_of b.ip_addr) (record e { sockfd = fd }) }

  abbrev pub resolved : Arp
  resolved = record a {
    cache =
        set (set a.cache (slot_of b.ip_addr) (record e { sockfd = fd })) (slot_of b.ip_addr)
          (record e { ip_addr = b.ip_addr; mac_addr = b.mac_addr; sockfd = fd });
  }

  found_waiting : get_elem? waiting.cache (slot_of b.ip_addr) ≡ some (record e { sockfd = fd })
  found_waiting =
      get_elem?-set_self a.cache (slot_of b.ip_addr) (record e { sockfd = fd })
        (get_elem?-lt a.cache (slot_of b.ip_addr) found)

  found_resolved :
      get_elem? resolved.cache (slot_of b.ip_addr)
      ≡ some (record e { ip_addr = b.ip_addr; mac_addr = b.mac_addr; sockfd = fd })
  found_resolved =
      get_elem?-set_self waiting.cache (slot_of b.ip_addr)
        (record e { ip_addr = b.ip_addr; mac_addr = b.mac_addr; sockfd = fd })
        (get_elem?-lt waiting.cache (slot_of b.ip_addr) found_waiting)

  reply_taken :
      on_frame waiting (answer_header b (ask_header a)) (answer_message b (ask_message a b.ip_addr))
      ≡ ok (resolved, write fd b.mac_addr ∷ close fd ∷ [])
  unfolding answer_message ask_message
  reply_taken =
      frame_reply waiting b.ip_addr found_waiting (answer_header b (ask_header a))
        (answer_message b (ask_message a b.ip_addr)) refl refl

-- What becomes of a request for the address of `b` at a node `a` that does not know it: `a` sends a
-- request to all nodes; a node with another address ignores it; `b` answers; and the answer makes
-- `a` write the hardware address of `b` to the connection that asked and close it. From then on `a`
-- answers every connection that asks for the address at once, from its cache.
pub resolve_lem :
    (a b : Arp) (fd : ℕ) {e : CacheEntry}
    → slot_of b.ip_addr < 10
    → get_elem? a.cache (slot_of b.ip_addr) ≡ some e
    → same e.ip_addr b.ip_addr ≡ false
    → (a1 a2 : Arp) × (on_connection a fd b.ip_addr
        ≡ ok (a1, send (ask_header a) (ask_message a b.ip_addr) ∷ []))
      × ((c : Arp)
          → same b.ip_addr c.ip_addr ≡ false
          → on_frame c (ask_header a) (ask_message a b.ip_addr) ≡ ok (c, []))
      × (on_frame b (ask_header a) (ask_message a b.ip_addr)
          ≡ ok (
            b,
            send (answer_header b (ask_header a)) (answer_message b (ask_message a b.ip_addr)) ∷ [],
          ))
      × ((answer_header b (ask_header a)).dst_mac ≡ a.mac_addr)
      × (on_frame a1 (answer_header b (ask_header a)) (answer_message b (ask_message a b.ip_addr))
          ≡ ok (a2, write fd b.mac_addr ∷ close fd ∷ []))
      × ((fd' : ℕ)
          → on_connection a2 fd' b.ip_addr ≡ ok (a2, write fd' b.mac_addr ∷ close fd' ∷ []))
resolve_lem a b fd lt found unknown = (
  waiting a b fd found,
  resolved a b fd found,
  connection_miss a b.ip_addr found fd known unknown,
  λ c h. request_ignored a c b.ip_addr h,
  request_answered a b,
  unfold answer_header ask_header in refl,
  reply_taken a b fd found,
  λ fd'.
      connection_hit (resolved a b fd found) b.ip_addr (found_resolved a b fd found) fd' known refl,
)
  where
    known : get_elem? vm_addr (slot_of b.ip_addr) ≡ some b.ip_addr
    known = index_of-eq b.ip_addr vm_addr (unfold vm_addr in lt)

-- Two connections that ask for the same unknown address before the answer comes: both requests go
-- out, and both are answered, but both answers are written to the second connection, which the first
-- answer has closed. The first connection never gets one.
asked_twice :
    (a b : Arp) (fd fd' : ℕ) {e : CacheEntry}
    → slot_of b.ip_addr < 10
    → get_elem? a.cache (slot_of b.ip_addr) ≡ some e
    → same e.ip_addr b.ip_addr ≡ false
    → (a1 a2 a3 a4 : Arp) × (on_connection a fd b.ip_addr
        ≡ ok (a1, send (ask_header a) (ask_message a b.ip_addr) ∷ []))
      × (on_connection a1 fd' b.ip_addr
          ≡ ok (a2, send (ask_header a) (ask_message a b.ip_addr) ∷ []))
      × (on_frame a2 (answer_header b (ask_header a)) (answer_message b (ask_message a b.ip_addr))
          ≡ ok (a3, write fd' b.mac_addr ∷ close fd' ∷ []))
      × (on_frame a3 (answer_header b (ask_header a)) (answer_message b (ask_message a b.ip_addr))
          ≡ ok (a4, write fd' b.mac_addr ∷ close fd' ∷ []))
unfolding ask_header ask_message
asked_twice a b fd fd' {e} lt found unknown =
    let first = waiting a b fd found in
    let noted = found_waiting a b fd found in
    let third = resolved first b fd' noted in
    let kept = found_resolved first b fd' noted in
    (
      first,
      waiting first b fd' noted,
      third,
      record third {
        cache =
            set third.cache (slot_of b.ip_addr)
              (record e { ip_addr = b.ip_addr; mac_addr = b.mac_addr; sockfd = fd' });
      },
      connection_miss a b.ip_addr found fd known unknown,
      connection_miss first b.ip_addr noted fd' known unknown,
      reply_taken first b fd' noted,
      unfold answer_message ask_message in
          frame_reply third b.ip_addr kept (answer_header b (ask_header a))
            (answer_message b (ask_message a b.ip_addr)) refl refl,
    )
  where
    known : get_elem? vm_addr (slot_of b.ip_addr) ≡ some b.ip_addr
    known = index_of-eq b.ip_addr vm_addr (unfold vm_addr in lt)

connection_known :
    (a : Arp) (fd : ℕ) (ip : Bytes)
    → IsValid a
    → slot_of ip < 10
    → (r : Arp × List Call) × (on_connection a fd ip ≡ ok r)
connection_known a fd ip v lt =
    let (e, found) = get_elem?_total a.cache (slot_of ip) (omega (arith, v.slots, lt)) in
    elim (Bool-cases (same e.ip_addr ip)) [
      | inl h ↦ (
        (a, write fd e.mac_addr ∷ close fd ∷ []),
        connection_hit a ip found fd known (same→eq e.ip_addr ip h),
      )
      | inr h ↦ (_, connection_miss a ip found fd known h)
    ]
  where
    known : get_elem? vm_addr (slot_of ip) ≡ some ip
    known = index_of-eq ip vm_addr (unfold vm_addr in lt)

connection_unknown :
    (a : Arp) (fd : ℕ) (ip : Bytes) → IsValid a → 10 ≤ slot_of ip → on_connection a fd ip ≡ fault
unfolding on_connection
connection_unknown a fd ip v h =
    rw (get_elem?-none a.cache (slot_of ip) (omega (arith, v.slots, h)))

-- An address of the table is found.
index_of-lt :
    (ip : Bytes) (addrs : List Bytes) (i : ℕ)
    → get_elem? addrs i ≡ some ip
    → index_of ip addrs < length addrs
unfolding index_of
index_of-lt ip [] i e = absurd (cc)
index_of-lt ip (addr ∷ addrs) zero e =
    let there : some addr ≡ some ip = e in
    let here : same ip addr ≡ true = subst (λ b. same ip b ≡ true) (cc) (same_refl ip) in
    rw here (omega arith)
index_of-lt ip (addr ∷ addrs) (suc i) e = elim (Bool-cases (same ip addr)) [
  | inl p ↦ rw p (omega arith)
  | inr p ↦ rw p (omega (arith, index_of-lt ip addrs i e))
]

-- With a valid cache, a connection that asks for an address is served without a fault exactly when
-- the address is one of the ten: for any other the code reads the entry past the end of its cache.
pub on_connection-faults :
    (a : Arp) (fd : ℕ) (ip : Bytes)
    → IsValid a
    → (on_connection a fd ip ≢ fault) ↔ ((i : ℕ) × (get_elem? vm_addr i ≡ some ip))
unfolding vm_addr
on_connection-faults a fd ip v = (
  λ h. elim (Bool-cases (ltb (slot_of ip) 10)) [
    | inl lt ↦ (slot_of ip, index_of-eq ip vm_addr (ltb→lt _ _ lt))
    | inr ge ↦ absurd (h (connection_unknown a fd ip v (ground arith)))
  ],
  λ there h.
      let (r, done) = connection_known a fd ip v (index_of-lt ip vm_addr there.0 there.1) in
      absurd (cc),
)
