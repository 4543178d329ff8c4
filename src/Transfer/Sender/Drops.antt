-- ===== src/Transfer/Sender/Drops.antt =====
-- What an acknowledgement leaves of the lines that server.c keeps.
use cse.Base.{
  ℕ, zero, suc, ◌+◌, ◌-◌, ◌*◌, ◌%◌, ◌≤◌, ◌<◌, ◌≡◌, refl, max, sym, ap, subst, ◌∙◌, inl, inr, Bytes,
  List, [], ◌∷◌, Bool, true, false, ◌==◌, if◌then◌else◌, length, drop, set, get_or, All, ok, Sound,
  Sound-ok, Sound-bind, Sound-known, arith, Bool-cases, get_elem?-eq-get_or,
}
use cse.Transfer.Queue.{Datagram, CirQueue, cir_queue_length, de_cir_queue}
use cse.Transfer.Queue.Fifo.{
  IsValid, contents, window, blank_datagram, length-contents, de_cir_queue_lem,
}
use cse.Transfer.Sender.{Sender, Next, finished, drop_acked, count_ack, take_ack, on_ack, grow}
use cse.Transfer.Sender.Acks.{on_ack-InWindow}
use cse.Transfer.Sender.Content.{IsCleared, IsKept}
use cse.Transfer.Sender.Healthy.{Healthy, SameBuffer, Healthy-same}

-- Of a predicate of the datagrams that does not read the count of acknowledgements.
module _ (P : Datagram → Type 0)
    (ignores : (d : Datagram) (ack : ℕ) → P d → P (record d { ack = ack })) where
  get_or-recounted :
      (base : List Datagram) (i k : ℕ) (ack : ℕ)
      → P (get_or base k blank_datagram)
      → P (
          get_or
            (set base i (record (get_or base i blank_datagram) { ack = ack }))
            k
            blank_datagram)
  get_or-recounted [] i k ack p = p
  get_or-recounted (x ∷ xs) zero zero ack p = ignores x ack p
  get_or-recounted (x ∷ xs) zero (suc k) ack p = p
  get_or-recounted (x ∷ xs) (suc i) zero ack p = p
  get_or-recounted (x ∷ xs) (suc i) (suc k) ack p = get_or-recounted xs i k ack p

  window-recounted :
      (base : List Datagram) (m f i ack j n : ℕ)
      → All P (window base m f j n)
      → All P (window (set base i (record (get_or base i blank_datagram) { ack = ack })) m f j n)
  window-recounted base m f i ack j zero p = tt
  window-recounted base m f i ack j (suc n) p =
      (get_or-recounted base i ((f + j) % m) ack p.0, window-recounted base m f i ack (j + 1) n p.1)

  count_ack-All :
      (q : CirQueue)
      → IsValid q
      → All P (contents q)
      → Sound (λ (r : CirQueue × Bool). All P (contents r.0)) (count_ack q)
  unfolding count_ack cir_queue_length
  count_ack-All q v p =
      let d = get_or q.base q.front blank_datagram in
      let third = d.ack + 1 == 3 in
      let ack : ℕ = if third then 0 else d.ack + 1 in
      Sound-known {a = (record q { base = set q.base q.front (record d { ack = ack }) }, third)}
        (rw
          (get_elem?-eq-get_or q.base q.front blank_datagram (omega (arith, v.slots, v.front_in))))
        (window-recounted q.base q.max_qsize q.front q.front ack 0 (cir_queue_length q) p)

  -- One datagram out of a queue that has one.
  de_cir_queue-All :
      (q : CirQueue) (xs : List Datagram)
      → IsValid q
      → contents q ≡ xs
      → 0 < length xs
      → All P xs
      → (q' : CirQueue) × (de_cir_queue q ≡ ok q')
        × IsValid q'
        × (cir_queue_length q' + 1 ≡ cir_queue_length q)
        × All P (contents q')
  de_cir_queue-All q [] v e some_left p = absurd (omega arith)
  de_cir_queue-All q (x ∷ xs) v e some_left p =
      let (q', done, valid, _, tail, _) = de_cir_queue_lem v in
      let left = tail x xs e in
      (
        q',
        done,
        valid,
        omega (arith, length-contents q, ap length e, length-contents q', ap length left),
        subst (All P) (sym left) p.1,
      )

  drop_acked-All :
      (n : ℕ) (q : CirQueue)
      → IsValid q
      → n ≤ cir_queue_length q
      → All P (contents q)
      → Sound (λ q'. IsValid q' × All P (contents q')) (drop_acked q n)
  unfolding drop_acked
  drop_acked-All zero q v le p = Sound-ok q (v, p)
  drop_acked-All (suc n) q v le p =
      let (q', done, v', count, p') =
        de_cir_queue-All q (contents q) v refl (omega (arith, length-contents q)) p in
      rw done (drop_acked-All n q' v' (omega arith) p')

-- The lines of the buffer after an acknowledgement.
module _ {file : Bytes} where
  ignored :
      (n : ℕ) (d : Datagram) (ack : ℕ) → IsKept file n d → IsKept file n (record d { ack = ack })
  ignored n d ack k = k

  take_ack-buffered :
      (s : Sender) (seq window : ℕ)
      → Healthy file s
      → seq ≤ s.sequence_number + 1
      → Sound
          (λ (r : Sender × Next).
            All (IsKept file s.sequence_number) (contents r.0.send_buffer)
            × (r.0.file ≡ s.file)
            × (r.0.sequence_number ≡ s.sequence_number)
            × (r.0.line_memory ≡ s.line_memory))
          (take_ack s seq window)
  unfolding take_ack
  take_ack-buffered s seq window h sent_it =
      let n = seq - s.head in
      let P = IsKept file s.sequence_number in
      let w = h.in_window in
      let few : n ≤ cir_queue_length s.send_buffer = omega (arith, w.up_to_last) in
      Sound-bind _ _ (λ q dropped.
        let (v, p) =
          (drop_acked-All P (ignored s.sequence_number) n s.send_buffer w.buffer few
              h.carries.buffered).at
            q dropped in
        Sound-bind _ _ (λ r counted.
          Sound-ok _
            ((count_ack-All P (ignored s.sequence_number) q v p).at r counted, refl, refl, refl)))

-- An acknowledgement of datagrams that were sent, or of the whole file.
pub record Acked (file : Bytes) (s : Sender) (seq : ℕ) (r : Sender × Next) : Type 0 where
  pub healthy : Healthy file r.0
  pub same_number : r.0.sequence_number ≡ s.sequence_number
  pub new_head : r.0.head ≡ max s.head seq
  pub whole : r.1 ≡ finished → seq ≡ 0
  pub ends : seq ≡ 0 → r.1 ≡ finished

abbrev grown : Sender → Sender
grown s = record (grow s) { received = s.received + 1 }

grown-same : (s : Sender) → SameBuffer s (grown s)
unfolding grow
grown-same s = record {
  buffer = ground arith;
  head = ground arith;
  number = ground arith;
  file = ground arith;
  memory = ground arith;
}

on_ack-eq-take_ack :
    (s : Sender) (seq window : ℕ)
    → (seq == 0) ≡ false
    → on_ack s seq window ≡ take_ack (grown s) seq window
unfolding on_ack
on_ack-eq-take_ack s seq window nz = rw nz refl

module _ {file : Bytes} where
  last_ack :
      (s : Sender) (seq window : ℕ)
      → Healthy file s
      → (seq == 0) ≡ true
      → (r : Sender × Next) × (on_ack s seq window ≡ ok r) × Acked file s seq r
  unfolding on_ack
  last_ack s seq window h z =
      let e = grown-same s in
      (
        (grown s, finished),
        rw z refl,
        record {
          healthy = Healthy-same e h;
          same_number = e.number;
          new_head = e.head ∙ ground arith;
          whole = λ _. ground arith;
          ends = λ _. refl;
        },
      )

  usual_ack :
      (s : Sender) (seq window : ℕ)
      → Healthy file s
      → (seq == 0) ≡ false
      → seq ≤ s.sequence_number + 1
      → (r : Sender × Next) × (on_ack s seq window ≡ ok r) × Acked file s seq r
  usual_ack s seq window h nz sent_it =
      let e = grown-same s in
      let (r, done, w, head, number, _, going_on) =
        on_ack-InWindow s seq window h.in_window (ground arith) sent_it in
      let (kept, unread, same, same_memory) =
        (take_ack-buffered (grown s) seq window (Healthy-same e h) (omega (arith, e.number))).at r
          (sym (on_ack-eq-take_ack s seq window nz) ∙ done) in
      (
        r,
        done,
        record {
          healthy = record {
            in_window = w;
            carries = record {
              buffered =
                  subst (λ n. All (IsKept file n) (contents r.0.send_buffer)) (sym same) kept;
              unread =
                  unread
                  ∙ (e.file ∙ (h.carries.unread ∙ ap (λ n. drop (500 * n) file) (sym number)));
              plain = h.carries.plain;
              cleared = subst IsCleared (sym (same_memory ∙ e.memory)) h.carries.cleared;
            };
            small = omega (arith, number, h.small);
          };
          same_number = number;
          new_head = head;
          whole = λ f. absurd (going_on f);
          ends = λ z. absurd (ground arith);
        },
      )

  pub on_ack-Acked :
      (s : Sender) (seq window : ℕ)
      → Healthy file s
      → seq ≤ s.sequence_number + 1
      → (r : Sender × Next) × (on_ack s seq window ≡ ok r) × Acked file s seq r
  on_ack-Acked s seq window h sent_it = elim (Bool-cases (seq == 0)) [
    | inl z ↦ last_ack s seq window h z
    | inr nz ↦ usual_ack s seq window h nz sent_it
  ]
