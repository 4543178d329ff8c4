-- ===== src/Transfer/Chain/Order.antt =====
-- The linked list as a list in the order of its numbers, without repetition.
use cse.Base.{
  ℕ, ◌+◌, ◌-◌, ◌^◌, ◌≤◌, ◌<◌, ◌≡◌, ◌≢◌, refl, inl, inr, Bytes, List, [], ◌∷◌, Option, none, some,
  not, ltb, ◌==◌, if◌then◌else◌, length, u32, ok, fault, arith, Bool-cases, lt→ltb,
}
use cse.Transfer.Chain.{
  Chain, null, wild, node, insert_after, insert_link_list, link_list_length, next_ack,
}

abbrev pub Item : Type 0
Item = ℕ × Bytes

-- A list with its nodes linked to NULL.
abbrev pub from_list : List Item → Chain
from_list [] = null
from_list ((s, l) ∷ xs) = node s l (from_list xs)

-- The numbers grow, and are above `low`.
abbrev pub Ascends : ℕ → List Item → Type 0
Ascends low [] = Unit
Ascends low ((s, l) ∷ xs) = (low < s) × Ascends s xs

-- Every number is below `top`.
abbrev pub Under : ℕ → List Item → Type 0
Under top [] = Unit
Under top ((s, l) ∷ xs) = (s < top) × Under top xs

-- What an insertion means: at its place by number, unless the number is there.
unfoldable pub put : ℕ → Bytes → List Item → List Item
put seq line [] = (seq, line) ∷ []
put seq line ((s, l) ∷ xs) =
    if ltb s seq
    then (s, l) ∷ put seq line xs
    else if not (s == seq)
    then (seq, line) ∷ (s, l) ∷ xs
    else (s, l) ∷ xs

-- The line at a number.
unfoldable pub find : ℕ → List Item → Option Bytes
find k [] = none
find k ((s, l) ∷ xs) = if s == k then some l else find k xs

-- A line that is there stays.
abbrev pub keep_old : Option Bytes → Bytes → Option Bytes
keep_old none line = some line
keep_old (some l) line = some l

insert_after-put :
    (xs : List Item) (seq : ℕ) (line : Bytes)
    → insert_after null (from_list xs) seq line ≡ ok (from_list (put seq line xs))
unfolding insert_after put
insert_after-put [] seq line = refl
insert_after-put ((s, l) ∷ xs) seq line = ground (arith, insert_after-put xs seq line)

insert-put :
    (xs : List Item) (seq : ℕ) (line : Bytes)
    → insert_link_list null (from_list xs) seq line ≡ ok (from_list (put seq line xs))
unfolding insert_link_list
insert-put [] seq line = unfold put in refl
insert-put (x ∷ xs) seq line = insert_after-put (x ∷ xs) seq line

put-Ascends :
    (xs : List Item) (low seq : ℕ) (line : Bytes)
    → low < seq
    → Ascends low xs
    → Ascends low (put seq line xs)
unfolding put
put-Ascends [] low seq line h a = (h, tt)
put-Ascends ((s, l) ∷ xs) low seq line h a = ground (arith, put-Ascends xs s seq line)

pub find_low : (xs : List Item) (low k : ℕ) → k ≤ low → Ascends low xs → find k xs ≡ none
unfolding find
find_low [] low k h a = refl
find_low ((s, l) ∷ xs) low k h a = ground (arith, find_low xs s k)

find-put :
    (xs : List Item) (low seq k : ℕ) (line : Bytes)
    → Ascends low xs
    → find k (put seq line xs) ≡ (if k == seq then keep_old (find seq xs) line else find k xs)
unfolding find put
find-put [] low seq k line a = ground arith
find-put ((s, l) ∷ xs) low seq k line a =
    ground (arith, find-put xs s seq k line, find_low xs s seq)

put-Under :
    (xs : List Item) (top seq : ℕ) (line : Bytes)
    → seq < top
    → Under top xs
    → Under top (put seq line xs)
unfolding put
put-Under [] top seq line h u = (h, tt)
put-Under ((s, l) ∷ xs) top seq line h u = ground (arith, put-Under xs top seq line)

-- `InsertLinkList` on a list in ascending order, if `malloc` gives zeroed memory. It ends without a
-- fault, and leaves a list in ascending order in which the number has the new line, unless it had
-- one before, and every other number has what it had: a datagram that comes twice is kept once. No
-- number is added but the inserted one.
pub insert_link_list_lem :
    (xs : List Item) (low seq : ℕ) (line : Bytes)
    → Ascends low xs
    → low < seq
    → (ys : List Item) × (insert_link_list null (from_list xs) seq line ≡ ok (from_list ys))
      × Ascends low ys
      × ((k : ℕ) → find k ys ≡ (if k == seq then keep_old (find seq xs) line else find k xs))
      × ((top : ℕ) → seq < top → Under top xs → Under top ys)
insert_link_list_lem xs low seq line a h = (
  put seq line xs,
  insert-put xs seq line,
  put-Ascends xs low seq line h a,
  λ k. find-put xs low seq k line a,
  λ top lt u. put-Under xs top seq line lt u,
)

appended_unset :
    (xs : List Item) (seq : ℕ) (line : Bytes)
    → Under seq xs
    → (c : Chain) × (insert_after wild (from_list xs) seq line ≡ ok c)
      × (link_list_length c ≡ fault)
unfolding insert_after link_list_length
appended_unset [] seq line u = (node seq line wild, refl, refl)
appended_unset ((s, l) ∷ xs) seq line u =
    let (c, done, broken) = appended_unset xs seq line u.1 in
    (node s l c, rw (lt→ltb s seq u.0, done), rw broken)

-- If `malloc` gives memory that is not zeroed, a datagram that comes behind all others in a list
-- that is not empty leaves a list that ends in an unset pointer: the next walk over it, which the
-- length needs, is a fault.
appended_tail_unset :
    (x : Item) (xs : List Item) (seq : ℕ) (line : Bytes)
    → Under seq (x ∷ xs)
    → (c : Chain) × (insert_link_list wild (from_list (x ∷ xs)) seq line ≡ ok c)
      × (link_list_length c ≡ fault)
unfolding insert_link_list
appended_tail_unset x xs seq line u = appended_unset (x ∷ xs) seq line u

pub length-from_list : (xs : List Item) → link_list_length (from_list xs) ≡ ok (length xs)
unfolding link_list_length
length-from_list [] = refl
length-from_list ((s, l) ∷ xs) = rw (length-from_list xs)

-- What `NextAck` promises of its result `a`.
abbrev pub IsNextAck : List Item → ℕ → ℕ → Type 0
IsNextAck xs start a =
    (start < a) × ((k : ℕ) → start < k → k < a → find k xs ≢ none) × (find a xs ≡ none)

IsNextAck-none :
    (xs : List Item) (start s : ℕ) (l : Bytes)
    → start + 1 ≢ s
    → start < s
    → Ascends s xs
    → IsNextAck ((s, l) ∷ xs) start (start + 1)
unfolding find
IsNextAck-none xs start s l ne lt a =
    (omega arith, λ k lo hi. absurd (omega arith), ground (arith, find_low xs s (start + 1)))

IsNextAck-more :
    (xs : List Item) (start s a : ℕ) (l : Bytes)
    → start + 1 ≡ s
    → IsNextAck xs s a
    → IsNextAck ((s, l) ∷ xs) start a
unfolding find
IsNextAck-more xs start s a l e (lt, run, gap) = (
  omega arith,
  λ k lo hi. elim (Bool-cases (s == k)) [
    | inl here ↦ rw here (λ p. cc)
    | inr later ↦ rw later (run k (ground arith) hi)
  ],
  ground arith,
)

-- `NextAck` on a list in ascending order above `start`: it ends, with the least number above `start`
-- that is not in the list.
pub next_ack_lem :
    (xs : List Item) (start : ℕ)
    → Ascends start xs
    → Under (2 ^ 32 - 1) xs
    → start + 1 < 2 ^ 32
    → (a : ℕ) × (next_ack (from_list xs) start ≡ ok a) × IsNextAck xs start a
unfolding next_ack
next_ack_lem [] start a u small =
    (start + 1, ground arith, (omega arith, λ k lo hi. absurd (omega arith), unfold find in refl))
next_ack_lem ((s, l) ∷ xs) start (lt, a) (below, u) small =
    elim (Bool-cases (s == u32 (start + 1))) [
      | inl e ↦
          let (b, done, is_next) = next_ack_lem xs s a u (omega arith) in
          (b, rw (e, done), IsNextAck-more xs start s b l (ground arith) is_next)
      | inr ne ↦ (start + 1, rw ne (ground arith), IsNextAck-none xs start s l (ground arith) lt a)
    ]
