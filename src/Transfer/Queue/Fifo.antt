-- ===== src/Transfer/Queue/Fifo.antt =====
-- The circular queue against a first-in first-out list of at most one datagram less than its slots.
use native.Mathlib.Nat.{mod-add-mod, mod-eq_of_lt, mod-eq-sub-mod}
use cse.Base.{
  ℕ, zero, suc, ◌+◌, ◌-◌, ◌%◌, ◌≤◌, ◌<◌, ◌≡◌, ◌≢◌, refl, ap, ap₂, ◌∙◌, inl, inr, List, [], ◌∷◌,
  ◌++◌, ◌==◌, ltb, if◌then◌else◌, length, set, get_or, length-set, get_or-set_self, get_or-set_ne,
  ok, arith, Bool-cases, ltb→lt,
}
use cse.Transfer.Queue.{Datagram, CirQueue, cir_queue_length, en_cir_queue, de_cir_queue}

pub record IsValid (q : CirQueue) : Type 0 where
  pub slots : length q.base ≡ q.max_qsize
  pub front_in : q.front < q.max_qsize
  pub rear_in : q.rear < q.max_qsize

abbrev pub blank_datagram : Datagram
blank_datagram = record { seq = 0; ts = 0; sendline = []; ack = 0 }

-- The remainder of a number that goes round once at most.
pub mod_once : (a m : ℕ) → a < m + m → a % m ≡ (if ltb a m then a else a - m)
mod_once a m h = elim (Bool-cases (ltb a m)) [
  | inl p ↦ rw p (mod-eq_of_lt (ltb→lt a m p))
  | inr p ↦ rw p (wrapped (ground arith) (ground arith))
]
  where
    wrapped : m ≤ a → a - m < m → a % m ≡ a - m
    wrapped le lt = mod-eq-sub-mod le ∙ mod-eq_of_lt lt

module _ (base : List Datagram) (max_qsize front : ℕ) where
  -- The slot of the `j`-th datagram from the front.
  abbrev pub slot : ℕ → ℕ
  slot j = (front + j) % max_qsize

  -- `n` datagrams from the `j`-th on.
  abbrev pub window : ℕ → ℕ → List Datagram
  window j zero = []
  window j (suc n) = get_or base (slot j) blank_datagram ∷ window (j + 1) n

-- The queue as a list, the oldest datagram first.
abbrev pub contents : CirQueue → List Datagram
contents q = window q.base q.max_qsize q.front 0 (cir_queue_length q)

length-window : (base : List Datagram) (m f j n : ℕ) → length (window base m f j n) ≡ n
length-window base m f j zero = refl
length-window base m f j (suc n) = ap suc (length-window base m f (j + 1) n)

pub length-contents : (q : CirQueue) → length (contents q) ≡ cir_queue_length q
length-contents q = length-window q.base q.max_qsize q.front 0 (cir_queue_length q)

window-last :
    (base : List Datagram) (m f j n : ℕ)
    → window base m f j (suc n)
      ≡ window base m f j n ++ (get_or base (slot base m f (j + n)) blank_datagram ∷ [])
window-last base m f j zero = let e : j + 0 ≡ j = omega arith in rw e
window-last base m f j (suc n) =
    let e : j + suc n ≡ j + 1 + n = omega arith in rw (e, window-last base m f (j + 1) n)

-- A write outside a window leaves it as it is.
window-set :
    (base : List Datagram) (m f r : ℕ) (x : Datagram) (j n : ℕ)
    → ((k : ℕ) → k < n → r ≢ slot base m f (j + k))
    → window (set base r x) m f j n ≡ window base m f j n
window-set base m f r x j zero h = refl
window-set base m f r x j (suc n) h =
    let e : j + 0 ≡ j = omega arith in
    let first : r ≢ slot base m f j = rw e at (h 0 (omega arith)) in
    ap₂ ◌∷◌ (get_or-set_ne base x blank_datagram first) (
      window-set base m f r x (j + 1) n
        (λ k lt. let d : j + suc k ≡ j + 1 + k = omega arith in rw d at (h (suc k) (omega arith))))

-- The front of the window moved on by one.
window-front :
    (base : List Datagram) (m f j n : ℕ)
    → window base m ((f + 1) % m) j n ≡ window base m f (j + 1) n
window-front base m f j zero = refl
window-front base m f j (suc n) =
    ap₂ (λ i rest. get_or base i blank_datagram ∷ rest) shifted (window-front base m f (j + 1) n)
  where
    shifted : ((f + 1) % m + j) % m ≡ (f + (j + 1)) % m
    shifted = rw mod-add-mod (ap (λ k. k % m) (omega arith))

module _ {q : CirQueue} (v : IsValid q) where
  -- Between front and rear there are as many datagrams as the length says.
  front_to_rear : (q.front + cir_queue_length q) % q.max_qsize ≡ q.rear
  unfolding cir_queue_length
  front_to_rear = ground (
    arith,
    mod_once (q.rear + q.max_qsize - q.front) q.max_qsize (omega arith),
    mod_once (q.front + (q.rear + q.max_qsize - q.front) % q.max_qsize) q.max_qsize,
  )

  length-lt : cir_queue_length q < q.max_qsize
  unfolding cir_queue_length
  length-lt = ground (arith, mod_once (q.rear + q.max_qsize - q.front) q.max_qsize (omega arith))

  distinct :
      (k n : ℕ)
      → k < n
      → n < q.max_qsize
      → (q.front + n) % q.max_qsize ≢ (q.front + k) % q.max_qsize
  distinct k n h lt = ground (
    arith,
    mod_once (q.front + n) q.max_qsize (omega arith),
    mod_once (q.front + k) q.max_qsize (omega arith),
  )

  -- The queue after an insertion.
  abbrev entered : Datagram → CirQueue
  entered x = record q { base = set q.base q.rear x; rear = (q.rear + 1) % q.max_qsize }

  en-eq-entered : (x : Datagram) → en_cir_queue q x ≡ ok (entered x)
  unfolding en_cir_queue
  en-eq-entered x = ground (arith, v.slots, v.rear_in)

  entered-IsValid : (x : Datagram) → IsValid (entered x)
  entered-IsValid x = record {
    slots = length-set q.base q.rear x ∙ v.slots;
    front_in = v.front_in;
    rear_in = ground (arith, mod_once (q.rear + 1) q.max_qsize (omega arith));
  }

  length-entered :
      (x : Datagram)
      → cir_queue_length (entered x)
        ≡ (if cir_queue_length q + 1 == q.max_qsize then 0 else cir_queue_length q + 1)
  unfolding cir_queue_length
  length-entered x = ground (
    arith,
    mod_once (q.rear + 1) q.max_qsize (omega arith),
    mod_once (q.rear + q.max_qsize - q.front) q.max_qsize (omega arith),
    mod_once ((q.rear + 1) % q.max_qsize + q.max_qsize - q.front) q.max_qsize,
  )

  contents-entered :
      (x : Datagram)
      → cir_queue_length q + 1 < q.max_qsize
      → contents (entered x) ≡ contents q ++ (x ∷ [])
  contents-entered x room = rw (
    grown,
    window-last (set q.base q.rear x) q.max_qsize q.front 0 (cir_queue_length q),
    window-set q.base q.max_qsize q.front q.rear x 0 (cir_queue_length q) apart,
    at_rear,
    get_or-set_self q.base q.rear x blank_datagram (omega (arith, v.slots, v.rear_in)),
  )
    where
      grown : cir_queue_length (entered x) ≡ suc (cir_queue_length q)
      grown = ground (arith, length-entered x)

      at_rear : (q.front + (0 + cir_queue_length q)) % q.max_qsize ≡ q.rear
      at_rear =
          let e : 0 + cir_queue_length q ≡ cir_queue_length q = omega arith in rw e front_to_rear

      apart : (k : ℕ) → k < cir_queue_length q → q.rear ≢ (q.front + (0 + k)) % q.max_qsize
      apart k lt =
          let e : 0 + k ≡ k = omega arith in
          rw (e, ← front_to_rear) (distinct k (cir_queue_length q) lt length-lt)

-- `EnCirQueue` on a valid queue. While the queue holds at most two datagrams less than it has slots,
-- the new one goes behind the others. When it holds one less, the insertion leaves it empty: every
-- datagram in it is lost. The queue stays valid either way.
pub en_cir_queue_lem :
    {q : CirQueue} (x : Datagram)
    → IsValid q
    → (q' : CirQueue) × (en_cir_queue q x ≡ ok q')
      × IsValid q'
      × (q'.max_qsize ≡ q.max_qsize)
      × (cir_queue_length q + 1 < q.max_qsize → contents q' ≡ contents q ++ (x ∷ []))
      × (cir_queue_length q + 1 ≡ q.max_qsize → contents q' ≡ [])
en_cir_queue_lem {q} x v = (
  entered v x,
  en-eq-entered v x,
  entered-IsValid v x,
  refl,
  contents-entered v x,
  λ full. let e : cir_queue_length (entered v x) ≡ 0 = ground (arith, length-entered v x) in rw e,
)

length-left :
    {q : CirQueue}
    → IsValid q
    → cir_queue_length (record q { front = (q.front + 1) % q.max_qsize })
      ≡ (if cir_queue_length q == 0 then q.max_qsize - 1 else cir_queue_length q - 1)
unfolding cir_queue_length
length-left {q} v = ground (
  arith,
  mod_once (q.front + 1) q.max_qsize (omega arith),
  mod_once (q.rear + q.max_qsize - q.front) q.max_qsize (omega arith),
  mod_once (q.rear + q.max_qsize - (q.front + 1) % q.max_qsize) q.max_qsize,
)

window-tail :
    (base : List Datagram) (m f n k : ℕ) (x : Datagram) (rest : List Datagram)
    → n ≡ suc k
    → window base m f 0 n ≡ x ∷ rest
    → window base m ((f + 1) % m) 0 k ≡ rest
window-tail base m f n k x rest count e =
    let opened : window base m f 0 (suc k) ≡ x ∷ rest = rw count at e in
    rw (window-front base m f 0 k) (cc opened)

-- `DeCirQueue` on a valid queue. One that holds datagrams loses the oldest. An empty one then counts
-- one datagram less than it has slots. The queue stays valid either way.
pub de_cir_queue_lem :
    {q : CirQueue}
    → IsValid q
    → (q' : CirQueue) × (de_cir_queue q ≡ ok q')
      × IsValid q'
      × (q'.max_qsize ≡ q.max_qsize)
      × ((x : Datagram) (rest : List Datagram) → contents q ≡ x ∷ rest → contents q' ≡ rest)
      × (contents q ≡ [] → cir_queue_length q' ≡ q.max_qsize - 1)
unfolding de_cir_queue
de_cir_queue_lem {q} v = (
  record q { front = (q.front + 1) % q.max_qsize },
  ground arith,
  record {
    slots = v.slots;
    front_in = ground (arith, mod_once (q.front + 1) q.max_qsize (omega arith));
    rear_in = v.rear_in;
  },
  refl,
  λ x rest e.
      window-tail q.base q.max_qsize q.front (cir_queue_length q) (cir_queue_length (left q)) x rest
        (count x rest e) e,
  λ e. ground (arith, length-left v, length-contents q, ap length e),
)
  where
    left : CirQueue → CirQueue
    left q = record q { front = (q.front + 1) % q.max_qsize }

    count :
        (x : Datagram) (rest : List Datagram)
        → contents q ≡ x ∷ rest
        → cir_queue_length q ≡ suc (cir_queue_length (left q))
    count x rest e = ground (arith, length-left v, length-contents q, ap length e)
