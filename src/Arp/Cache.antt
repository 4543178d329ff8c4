-- ===== src/Arp/Cache.antt =====
-- The cache of arp.c: what an entry may hold, and that every event keeps it so.
use cse.Base.{
  ℕ, ◌<◌, ◌≡◌, refl, sym, ap, subst, ◌∙◌, ◌⊎◌, inl, inr, Bytes, List, [], ◌∷◌, some, ◌==◌, length,
  get_elem?, get_elem?-lt, get_elem?-set_self, get_elem?-set_ne, get_elem?-replicate, length-set,
  set, same, same→eq, ntohs, ok, ◌‼◌, at-eq-ok, Sound, Sound-ok, Sound-if, Sound-bind, Bool-cases,
  arith,
}
use cse.Arp.{
  Arp, CacheEntry, Header, ArpMessage, Call, vm_addr, index_of, store, on_frame, on_connection,
  start,
}

-- An entry holds nothing, or the address of its own node.
abbrev pub IsOwn : Bytes → CacheEntry → Type 0
IsOwn addr e = (e.ip_addr ≡ []) ⊎ (e.ip_addr ≡ addr)

pub record IsValid (a : Arp) : Type 0 where
  pub slots : length a.cache ≡ 10
  pub owned :
      (i : ℕ) {e : CacheEntry} {addr : Bytes}
      → get_elem? a.cache i ≡ some e
      → get_elem? vm_addr i ≡ some addr
      → IsOwn addr e

pub index_of-eq :
    (ip : Bytes) (addrs : List Bytes)
    → index_of ip addrs < length addrs
    → get_elem? addrs (index_of ip addrs) ≡ some ip
unfolding index_of
index_of-eq ip [] h = absurd (omega arith)
index_of-eq ip (addr ∷ addrs) h = elim (Bool-cases (same ip addr)) [
  | inl e ↦ rw e (ap some (sym (same→eq ip addr e)))
  | inr e ↦ rw e (index_of-eq ip addrs (ground (arith, e)))
]

inj : {d e : CacheEntry} → some d ≡ some e → d ≡ e
inj h = cc

-- One entry written, as a write of an address that belongs there.
pub set-IsValid :
    (a : Arp) (i : ℕ) (e : CacheEntry)
    → IsValid a
    → ((addr : Bytes) → get_elem? vm_addr i ≡ some addr → IsOwn addr e)
    → IsValid (record a { cache = set a.cache i e })
set-IsValid a i e v own = record {
  slots = length-set a.cache i e ∙ v.slots;
  owned = λ j {addr} found known. elim (Bool-cases (i == j)) [
    | inl p ↦
        let k : i ≡ j = ground arith in
        let lt : j < length (set a.cache i e) = get_elem?-lt (set a.cache i e) j found in
        let new : get_elem? (set a.cache i e) i ≡ some e =
          get_elem?-set_self a.cache i e (omega (arith, length-set a.cache i e)) in
        subst (IsOwn addr) (inj (sym new ∙ (ap (get_elem? (set a.cache i e)) k ∙ found)))
          (own addr (ap (get_elem? vm_addr) k ∙ known))
    | inr p ↦
        v.owned j (sym (get_elem?-set_ne a.cache e (λ q. absurd (ground arith))) ∙ found) known
  ];
}

pub index_of-known :
    (ip : Bytes) {addr : Bytes}
    → index_of ip vm_addr < 10
    → get_elem? vm_addr (index_of ip vm_addr) ≡ some addr
    → addr ≡ ip
unfolding vm_addr
index_of-known ip {addr} lt known = inj_bytes (sym known ∙ index_of-eq ip vm_addr lt)
  where
    inj_bytes : some addr ≡ some ip → addr ≡ ip
    inj_bytes h = cc

abbrev pub Keeps : Arp × List Call → Type 0
Keeps r = IsValid r.0

store-IsValid : (a : Arp) (arp : ArpMessage) → IsValid a → Sound Keeps (store a arp)
unfolding store
store-IsValid a arp v = Sound-bind (a.cache ‼ index_of arp.dst_ip vm_addr) _ (λ e found.
    Sound-ok _ (
      set-IsValid a (index_of arp.dst_ip vm_addr)
        (record e { ip_addr = arp.dst_ip; mac_addr = arp.dst_mac }) v
        (λ addr known. inr (
          sym (
            index_of-known arp.dst_ip
              (subst (λ n. index_of arp.dst_ip vm_addr < n) v.slots
                (get_elem?-lt a.cache (index_of arp.dst_ip vm_addr)
                  (at-eq-ok a.cache (index_of arp.dst_ip vm_addr) found)))
              known)))))

-- A frame leaves the cache with ten entries, each empty or with the address of its own node.
pub on_frame-IsValid :
    (a : Arp) (header : Header) (arp : ArpMessage) → IsValid a → Sound Keeps (on_frame a header arp)
unfolding on_frame
on_frame-IsValid a header arp v =
    Sound-if (ntohs arp.op == 1) _ _
      (λ _. Sound-if (same arp.dst_ip a.ip_addr) _ _ (λ _. Sound-ok _ v) (λ _. Sound-ok _ v))
      (λ _. store-IsValid a arp v)

pub on_connection-IsValid :
    (a : Arp) (connfd : ℕ) (ip : Bytes) → IsValid a → Sound Keeps (on_connection a connfd ip)
unfolding on_connection
on_connection-IsValid a connfd ip v = Sound-bind (a.cache ‼ index_of ip vm_addr) _ (λ e found.
    Sound-bind (vm_addr ‼ index_of ip vm_addr) _ (λ addr _.
      Sound-if (same e.ip_addr addr) _ _ (λ _. Sound-ok _ v)
        (λ _. Sound-ok _ (
          set-IsValid a (index_of ip vm_addr) (record e { sockfd = connfd }) v
            (λ own known.
              v.owned (index_of ip vm_addr) (at-eq-ok a.cache (index_of ip vm_addr) found)
                known)))))

-- One event of the loop, with what the process does.
pub data Step : Arp → Arp → Type 0 where
  frame :
      (a : Arp) (header : Header) (arp : ArpMessage) (r : Arp × List Call)
      → on_frame a header arp ≡ ok r
      → Step a r.0
  connection :
      (a : Arp) (connfd : ℕ) (ip : Bytes) (r : Arp × List Call)
      → on_connection a connfd ip ≡ ok r
      → Step a r.0

pub data Reach (a : Arp) : Arp → Type 0 where
  begin : Reach a a
  and_then : {b c : Arp} → Reach a b → Step b c → Reach a c

pub start-IsValid : (ip_addr mac_addr : Bytes) → IsValid (start ip_addr mac_addr)
unfolding start vm_addr
start-IsValid ip_addr mac_addr = record {
  slots = refl;
  owned =
      λ i found known. inl (ap (λ (e : CacheEntry). e.ip_addr) (get_elem?-replicate 10 i found));
}

Step-IsValid : {a b : Arp} → Step a b → IsValid a → IsValid b
Step-IsValid (frame a header arp r e) v = (on_frame-IsValid a header arp v).at r e
Step-IsValid (connection a connfd ip r e) v = (on_connection-IsValid a connfd ip v).at r e

-- In every state that the loop reaches, whatever frames and connections come, the cache has its ten
-- entries, and each of them is empty or holds the address of its own node.
pub reachable_cache :
    (ip_addr mac_addr : Bytes) {a : Arp} → Reach (start ip_addr mac_addr) a → IsValid a
reachable_cache ip_addr mac_addr begin = start-IsValid ip_addr mac_addr
reachable_cache ip_addr mac_addr (and_then r s) =
    Step-IsValid s (reachable_cache ip_addr mac_addr r)
