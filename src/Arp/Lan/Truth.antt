-- ===== src/Arp/Lan/Truth.antt =====
-- The caches of arp.c hold true hardware addresses.
use cse.Base.{
  ℕ, ◌≡◌, ◌≢◌, refl, subst, ◌∙◌, ◌⊎◌, inl, inr, Bytes, List, [], ◌∷◌, some, false, get_elem?, All,
  All-set, All-append, All-get_elem?, All-replicate, replicate, same, same→eq, ntohs, ntohs-htons,
  ◌==◌, ◌‼◌, at-eq-ok, Sound, Sound-ok, Sound-if, Sound-bind, Bool-cases, arith,
}
use cse.Arp.{
  Arp, CacheEntry, Header, ArpMessage, Call, vm_addr, index_of, store, on_frame, on_connection,
  start, answer_message, ask_message,
}
use cse.Arp.Cache.{IsValid, on_frame-IsValid, on_connection-IsValid, start-IsValid}
use cse.Arp.Lan.{
  Nodes, Ask, Lan, frames_of, after_event, ask_of, Step, frame_step, connection_step, Reach, begin,
  and_then, begun,
}

-- Some node has this address and this hardware address.
abbrev pub Owns : Nodes → Bytes → Bytes → Type 0
Owns n ip mac = (w : ℕ) × (ip ≡ n.ip w) × (mac ≡ n.mac w)

-- An entry is empty, or true.
abbrev pub EntryTrue : Nodes → CacheEntry → Type 0
EntryTrue n e = (e.ip_addr ≡ []) ⊎ Owns n e.ip_addr e.mac_addr

-- A request, or a reply whose target fields are true.
abbrev pub MessageTrue : Nodes → ArpMessage → Type 0
MessageTrue n arp = (ntohs arp.op ≡ 1) ⊎ Owns n arp.dst_ip arp.dst_mac

-- What is no request is a reply.
pub not_request :
    (n : Nodes) (arp : ArpMessage)
    → (ntohs arp.op == 1) ≡ false
    → MessageTrue n arp
    → Owns n arp.dst_ip arp.dst_mac
not_request n arp q (inl z) = absurd (ground arith)
not_request n arp q (inr owns) = owns

abbrev pub FrameTrue : Nodes → Header × ArpMessage → Type 0
FrameTrue n f = MessageTrue n f.1

pub record NodeTrue (n : Nodes) (u : ℕ) (a : Arp) : Type 0 where
  pub valid : IsValid a
  pub own_ip : a.ip_addr ≡ n.ip u
  pub own_mac : a.mac_addr ≡ n.mac u
  pub entries : All (EntryTrue n) a.cache

abbrev ResultTrue : Nodes → ℕ → Arp × List Call → Type 0
ResultTrue n u r =
    ((r.0.ip_addr ≡ n.ip u) × (r.0.mac_addr ≡ n.mac u) × All (EntryTrue n) r.0.cache)
    × All (FrameTrue n) (frames_of r.1)

module _ (n : Nodes) (u : ℕ) {a : Arp} (true_a : NodeTrue n u a) where
  store-True :
      (arp : ArpMessage) → Owns n arp.dst_ip arp.dst_mac → Sound (ResultTrue n u) (store a arp)
  unfolding store
  store-True arp owns =
      let index : ℕ = index_of arp.dst_ip vm_addr in
      Sound-bind (a.cache ‼ index) _ (λ e _. Sound-ok _ (
        (
          true_a.own_ip,
          true_a.own_mac,
          All-set (EntryTrue n) a.cache index
              (record e { ip_addr = arp.dst_ip; mac_addr = arp.dst_mac }) true_a.entries (inr owns),
        ),
        tt,
      ))

  on_frame-True :
      (header : Header) (arp : ArpMessage)
      → MessageTrue n arp
      → Sound (ResultTrue n u) (on_frame a header arp)
  unfolding on_frame answer_message
  on_frame-True header arp true_arp =
      Sound-if (ntohs arp.op == 1) _ _
        (λ _.
          Sound-if (same arp.dst_ip a.ip_addr) _ _
            (λ p. Sound-ok _ (
              (true_a.own_ip, true_a.own_mac, true_a.entries),
              (inr (u, same→eq arp.dst_ip a.ip_addr p ∙ true_a.own_ip, true_a.own_mac), tt),
            ))
            (λ _. Sound-ok (a, []) ((true_a.own_ip, true_a.own_mac, true_a.entries), tt)))
        (λ q. store-True arp (not_request n arp q true_arp))

  on_connection-True :
      (connfd : ℕ) (ip : Bytes) → Sound (ResultTrue n u) (on_connection a connfd ip)
  unfolding on_connection ask_message
  on_connection-True connfd ip =
      let index : ℕ = index_of ip vm_addr in
      Sound-bind (a.cache ‼ index) _ (λ e found. Sound-bind (vm_addr ‼ index) _ (λ addr _.
        let true_e : EntryTrue n e =
          All-get_elem? (EntryTrue n) a.cache index true_a.entries (at-eq-ok a.cache index found) in
        Sound-if (same e.ip_addr addr) _ _
          (λ _. Sound-ok _ ((true_a.own_ip, true_a.own_mac, true_a.entries), tt))
          (λ _. Sound-ok _ (
            (
              true_a.own_ip,
              true_a.own_mac,
              All-set (EntryTrue n) a.cache index (record e { sockfd = connfd }) true_a.entries
                  true_e,
            ),
            (inl (ntohs-htons 1 (omega arith)), tt),
          ))))

pub record Inv (n : Nodes) (lan : Lan) : Type 0 where
  pub nodes : (u : ℕ) → NodeTrue n u (lan.arp u)
  pub sent : All (FrameTrue n) lan.sent

module _ (n : Nodes) (lan : Lan) (inv : Inv n lan) where
  event-Inv :
      (u : ℕ) (asks : List Ask) (r : Arp × List Call)
      → IsValid r.0
      → ResultTrue n u r
      → Inv n (after_event lan u asks r)
  event-Inv u asks r valid true_r =
      let new : NodeTrue n u r.0 = record {
        valid = valid;
        own_ip = true_r.0.0;
        own_mac = true_r.0.1;
        entries = true_r.0.2;
      } in
      record {
        nodes = λ v. elim (Bool-cases (v == u)) [
          | inl p ↦ let e : u ≡ v = ground arith in rw p (subst (λ w. NodeTrue n w r.0) e new)
          | inr p ↦ rw p (inv.nodes v)
        ];
        sent = All-append (FrameTrue n) (frames_of r.1) lan.sent true_r.1 inv.sent;
      }

pub Step-Inv : (n : Nodes) {lan last : Lan} → Step lan last → Inv n lan → Inv n last
Step-Inv n {lan} (frame_step u j f r there ran) inv =
    event-Inv n lan inv u [] r ((on_frame-IsValid (lan.arp u) f.0 f.1 (inv.nodes u).valid).at r ran)
      ((on_frame-True n u (inv.nodes u) f.0 f.1
          (All-get_elem? (FrameTrue n) lan.sent j inv.sent there)).at
        r ran)
Step-Inv n {lan} (connection_step u connfd ip r ran) inv =
    event-Inv n lan inv u (ask_of u connfd ip ∷ []) r
      ((on_connection-IsValid (lan.arp u) connfd ip (inv.nodes u).valid).at r ran)
      ((on_connection-True n u (inv.nodes u) connfd ip).at r ran)

abbrev pub empty : CacheEntry
empty = record { ip_addr = []; mac_addr = replicate 6 0; sockfd = 0 }

pub begun-Inv : (n : Nodes) → Inv n (begun n)
unfolding start
begun-Inv n = record {
  nodes = λ u. record {
    valid = start-IsValid (n.ip u) (n.mac u);
    own_ip = refl;
    own_mac = refl;
    entries = All-replicate (EntryTrue n) 10 empty (inl refl);
  };
  sent = tt;
}

pub Reach-Inv : (n : Nodes) {lan last : Lan} → Reach lan last → Inv n lan → Inv n last
Reach-Inv n begin inv = inv
Reach-Inv n (and_then path s) inv = Step-Inv n s (Reach-Inv n path inv)

-- On an Ethernet of these nodes that loses, repeats and reorders frames, and whatever addresses their
-- tour processes ask for: in every state, a cache entry that is not empty stands in the place of its
-- address, which is that of a node, and has that node's hardware address.
pub caches_are_true :
    (n : Nodes) {lan : Lan} (u i : ℕ) {e : CacheEntry} {addr : Bytes}
    → Reach (begun n) lan
    → get_elem? (lan.arp u).cache i ≡ some e
    → get_elem? vm_addr i ≡ some addr
    → e.ip_addr ≢ []
    → (e.ip_addr ≡ addr) × Owns n e.ip_addr e.mac_addr
caches_are_true n {lan} u i {e} {addr} path there place filled =
    let true_u = (Reach-Inv n path (begun-Inv n)).nodes u in
    (
      placed (true_u.valid.owned i there place),
      owned (All-get_elem? (EntryTrue n) (lan.arp u).cache i true_u.entries there),
    )
  where
    placed : (e.ip_addr ≡ []) ⊎ (e.ip_addr ≡ addr) → e.ip_addr ≡ addr
    placed (inl z) = absurd (filled z)
    placed (inr h) = h

    owned : EntryTrue n e → Owns n e.ip_addr e.mac_addr
    owned (inl z) = absurd (filled z)
    owned (inr h) = h
