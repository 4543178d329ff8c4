-- ===== src/Arp/Lan/Answers.antt =====
-- What arp.c writes on the connections of the tour processes.
use cse.Base.{
  ℕ, zero, suc, ◌<◌, ◌≡◌, ◌≢◌, refl, sym, ap, subst, ◌∙◌, ◌⊎◌, inl, inr, Bytes, List, [], ◌∷◌, ◌++◌,
  some, get_elem?, get_elem?-lt, length, set, All, All-get_elem?, same, same→eq, ntohs, ◌==◌, ◌‼◌,
  at-eq-ok, Sound, Sound-ok, Sound-if, Sound-bind, arith,
}
use cse.Arp.{
  Arp, CacheEntry, Header, ArpMessage, Call, vm_addr, index_of, store, on_frame, on_connection,
}
use cse.Arp.Cache.{index_of-eq, index_of-known}
use cse.Arp.Lan.{Nodes, Ask, Answer, answers_of, ask_of}
use cse.Arp.Lan.Truth.{Owns, EntryTrue, MessageTrue, not_request, NodeTrue}

-- The tour process of the node asked on this connection for an address with the property.
pub record AskedOn (asked : List Ask) (u fd : ℕ) (P : Bytes → Type 0) : Type 0 where
  pub at : ℕ
  pub what : Ask
  pub there : get_elem? asked at ≡ some what
  pub node : what.node ≡ u
  pub connfd : what.connfd ≡ fd
  pub address : P what.ip

AskedOn-more :
    {asked : List Ask} {u fd : ℕ} {P : Bytes → Type 0} (asks : List Ask)
    → AskedOn asked u fd P
    → AskedOn (asks ++ asked) u fd P
AskedOn-more [] a = a
AskedOn-more (x ∷ asks) a =
    let b = AskedOn-more asks a in
    record {
      at = suc b.at;
      what = b.what;
      there = b.there;
      node = b.node;
      connfd = b.connfd;
      address = b.address;
    }

just_asked :
    {asked : List Ask} {u fd : ℕ} {ip : Bytes} (P : Bytes → Type 0)
    → P ip
    → AskedOn (ask_of u fd ip ∷ asked) u fd P
just_asked {asked} {u} {fd} {ip} P p = record {
  at = 0;
  what = ask_of u fd ip;
  there = refl;
  node = refl;
  connfd = refl;
  address = p;
}

-- The socket of an entry is none, or a connection on which the address of this place was asked for.
abbrev pub Waits : List Ask → (u i : ℕ) → CacheEntry → Type 0
Waits asked u i e = (e.sockfd ≡ 0) ⊎ AskedOn asked u e.sockfd (λ ip. index_of ip vm_addr ≡ i)

abbrev pub CacheWaits : List Ask → (u : ℕ) → List CacheEntry → Type 0
CacheWaits asked u cache = (i : ℕ) (e : CacheEntry) → get_elem? cache i ≡ some e → Waits asked u i e

-- What was written on a connection is the hardware address of the node whose address was asked for on
-- it.
abbrev pub AnswerTrue : Nodes → List Ask → Answer → Type 0
AnswerTrue n asked a = (a.fd ≡ 0) ⊎ AskedOn asked a.node a.fd (λ ip. Owns n ip a.bytes)

abbrev pub ResultWaits : Nodes → List Ask → ℕ → Arp × List Call → Type 0
ResultWaits n asked u r = CacheWaits asked u r.0.cache × All (AnswerTrue n asked) (answers_of u r.1)

pub Waits-more :
    {asked : List Ask} {u i : ℕ} (e : CacheEntry) (asks : List Ask)
    → Waits asked u i e
    → Waits (asks ++ asked) u i e
Waits-more e asks (inl z) = inl z
Waits-more e asks (inr a) = inr (AskedOn-more asks a)

pub AnswerTrue-more :
    (n : Nodes) (asked : List Ask) (asks : List Ask) (answers : List Answer)
    → All (AnswerTrue n asked) answers
    → All (AnswerTrue n (asks ++ asked)) answers
AnswerTrue-more n asked asks [] h = tt
AnswerTrue-more n asked asks (a ∷ answers) h = (go h.0, AnswerTrue-more n asked asks answers h.1)
  where
    go : AnswerTrue n asked a → AnswerTrue n (asks ++ asked) a
    go (inl z) = inl z
    go (inr b) = inr (AskedOn-more asks b)

-- A property of each entry by its place, when one entry is written.
set-At :
    {P : ℕ → CacheEntry → Type 0} (cache : List CacheEntry) (i : ℕ) (e : CacheEntry)
    → P i e
    → ((j : ℕ) (d : CacheEntry) → get_elem? cache j ≡ some d → P j d)
    → (j : ℕ) (d : CacheEntry) → get_elem? (set cache i e) j ≡ some d
    → P j d
set-At [] i e p h j d there = h j d there
set-At {P} (x ∷ cache) zero e p h zero d there = subst (P 0) (cc) p
set-At (x ∷ cache) zero e p h (suc j) d there = h (suc j) d there
set-At (x ∷ cache) (suc i) e p h zero d there = h 0 d there
set-At {P} (x ∷ cache) (suc i) e p h (suc j) d there =
    set-At {P = λ k. P (suc k)} cache i e p (λ k. h (suc k)) j d there

same_place :
    (x y : Bytes) → index_of x vm_addr ≡ index_of y vm_addr → index_of y vm_addr < 10 → x ≡ y
same_place x y e lt =
    index_of-known y lt
      (ap (get_elem? vm_addr) (sym e) ∙ index_of-eq x vm_addr (in_table (omega (arith, e, lt))))
  where
    in_table : index_of x vm_addr < 10 → index_of x vm_addr < length vm_addr
    in_table h = unfold vm_addr in h

not_empty : (i : ℕ) {addr : Bytes} → get_elem? vm_addr i ≡ some addr → addr ≢ []
not_empty i {addr} there e =
    let n : length addr ≡ 14 = All-get_elem? (λ a. length a ≡ 14) vm_addr i all_long there in
    let z : length addr ≡ 0 = ap length e in absurd (omega arith)
  where
    all_long : All (λ (a : Bytes). length a ≡ 14) vm_addr
    all_long =
        unfold vm_addr in
        (refl, (refl, (refl, (refl, (refl, (refl, (refl, (refl, (refl, (refl, tt))))))))))

-- What a node's handlers do, when all that its tour process has asked is in the log.
module _ (n : Nodes) (u : ℕ) (asked : List Ask) {a : Arp} (true_a : NodeTrue n u a)
    (waits : CacheWaits asked u a.cache) where
  in_cache : (i : ℕ) {e : CacheEntry} → get_elem? a.cache i ≡ some e → i < 10
  in_cache i there = let lt = get_elem?-lt a.cache i there in omega (arith, lt, true_a.valid.slots)

  store-Waits :
      (arp : ArpMessage)
      → Owns n arp.dst_ip arp.dst_mac
      → Sound (ResultWaits n asked u) (store a arp)
  unfolding store
  store-Waits arp owns =
      let index : ℕ = index_of arp.dst_ip vm_addr in
      Sound-bind (a.cache ‼ index) _ (λ e found.
        let there = at-eq-ok a.cache index found in
        Sound-ok _ (
          set-At {P = Waits asked u} a.cache index
              (record e { ip_addr = arp.dst_ip; mac_addr = arp.dst_mac }) (waits index e there)
              waits,
          (answer e there (waits index e there), tt),
        ))
    where
      answer :
          (e : CacheEntry)
          → get_elem? a.cache (index_of arp.dst_ip vm_addr) ≡ some e
          → Waits asked u (index_of arp.dst_ip vm_addr) e
          → AnswerTrue n asked (record { node = u; fd = e.sockfd; bytes = arp.dst_mac })
      answer e there (inl z) = inl z
      answer e there (inr b) =
          let is_ip =
            same_place b.what.ip arp.dst_ip b.address
              (in_cache (index_of arp.dst_ip vm_addr) there) in
          inr (record {
            at = b.at;
            what = b.what;
            there = b.there;
            node = b.node;
            connfd = b.connfd;
            address = subst (λ ip. Owns n ip arp.dst_mac) (sym is_ip) owns;
          })

  pub on_frame-Waits :
      (header : Header) (arp : ArpMessage)
      → MessageTrue n arp
      → Sound (ResultWaits n asked u) (on_frame a header arp)
  unfolding on_frame
  on_frame-Waits header arp true_arp =
      Sound-if (ntohs arp.op == 1) _ _
        (λ _.
          Sound-if (same arp.dst_ip a.ip_addr) _ _ (λ _. Sound-ok _ (waits, tt))
            (λ _. Sound-ok (a, []) (waits, tt)))
        (λ q. store-Waits arp (not_request n arp q true_arp))

  grown : (connfd : ℕ) (ip : Bytes) → CacheWaits (ask_of u connfd ip ∷ asked) u a.cache
  grown connfd ip i e there = Waits-more e (ask_of u connfd ip ∷ []) (waits i e there)

  pub on_connection-Waits :
      (connfd : ℕ) (ip : Bytes)
      → Sound (ResultWaits n (ask_of u connfd ip ∷ asked) u) (on_connection a connfd ip)
  unfolding on_connection
  on_connection-Waits connfd ip =
      let index : ℕ = index_of ip vm_addr in
      Sound-bind (a.cache ‼ index) _ (λ e found. Sound-bind (vm_addr ‼ index) _ (λ addr known.
        let there = at-eq-ok a.cache index found in
        let place = at-eq-ok vm_addr index known in
        let true_e : EntryTrue n e =
          All-get_elem? (EntryTrue n) a.cache index true_a.entries there in
        Sound-if (same e.ip_addr addr) _ _
          (λ p. Sound-ok _ (
            grown connfd ip,
            (
              inr (
                  just_asked (λ x. Owns n x e.mac_addr)
                    (cached e addr there place (same→eq e.ip_addr addr p) true_e)),
              tt,
            ),
          ))
          (λ _. Sound-ok _ (
            set-At {P = Waits (ask_of u connfd ip ∷ asked) u} a.cache index
                (record e { sockfd = connfd })
                (inr (just_asked (λ x. index_of x vm_addr ≡ index) refl)) (grown connfd ip),
            tt,
          ))))
    where
      cached :
          (e : CacheEntry) (addr : Bytes)
          → get_elem? a.cache (index_of ip vm_addr) ≡ some e
          → get_elem? vm_addr (index_of ip vm_addr) ≡ some addr
          → e.ip_addr ≡ addr
          → EntryTrue n e
          → Owns n ip e.mac_addr
      cached e addr there place filled (inl z) =
          absurd (not_empty (index_of ip vm_addr) place (sym filled ∙ z))
      cached e addr there place filled (inr owns) =
          subst (λ x. Owns n x e.mac_addr)
            (filled ∙ index_of-known ip (in_cache (index_of ip vm_addr) there) place) owns
