-- ===== src/Transfer/Receiver/Print.antt =====
-- What the printing thread of client.c prints of the lines that the client holds.
use cse.Base.{
  ℕ, zero, suc, ◌+◌, ◌-◌, ◌^◌, ◌≤◌, ◌<◌, ◌≡◌, refl, ap, ap₂, subst, ◌∙◌, inl, inr, Bytes, List, [],
  ◌∷◌, ◌++◌, none, some, true, false, ◌==◌, ok, arith, Bool-cases, ltb,
}
use cse.Transfer.Chain.{null}
use cse.Transfer.Chain.Order.{Item, from_list, Ascends, Under, find, find_low}
use cse.Transfer.Receiver.{Receiver, print_run, print_lines}
use cse.Transfer.Receiver.Order.{span, Holds, InOrder, HasCome}

span-append :
    (lines : ℕ → Bytes) (k n m : ℕ) → span lines k n ++ span lines (k + n) m ≡ span lines k (n + m)
span-append lines k zero m =
    let e : k + 0 ≡ k = omega arith in rw e (ap (span lines k) (omega arith))
span-append lines k (suc n) m =
    let e : k + suc n ≡ k + 1 + n = omega arith in
    let f : suc (n + m) ≡ suc n + m = omega arith in
    rw e (ap (λ rest. lines (k + 1) ∷ rest) (span-append lines (k + 1) n m) ∙ ap (span lines k) f)

find_tail :
    (xs : List Item) (s j : ℕ) (l : Bytes) {l' : Bytes}
    → Ascends s xs
    → find j xs ≡ some l'
    → find j ((s, l) ∷ xs) ≡ some l'
unfolding find
find_tail xs s j l a e = ground (arith, find_low xs s j)

-- The run that is printed: `n` lines, after which `rest` is left, and the next line is not there.
pub record Printed (lines : ℕ → Bytes) (k : ℕ) (items : List Item) : Type 0 where
  pub n : ℕ
  pub rest : List Item
  pub done : print_run (from_list items) k ≡ ok (from_list rest, (k + n, span lines k n))
  pub left : Holds lines (k + n) rest
  pub gap : find (k + n + 1) items ≡ none
  pub keeps : (j : ℕ) → HasCome k items j → HasCome (k + n) rest j
  pub bound : (top : ℕ) → k < top → Under top items → (k + n < top) × Under top rest

print_none :
    {lines : ℕ → Bytes} (xs : List Item) (k s : ℕ) (l : Bytes)
    → Holds lines k ((s, l) ∷ xs)
    → (s == k + 1) ≡ false
    → Printed lines k ((s, l) ∷ xs)
unfolding print_run find
print_none {lines} xs k s l h ne = record {
  n = 0;
  rest = (s, l) ∷ xs;
  done = rw ne (ground arith);
  left = subst (λ j. Holds lines j ((s, l) ∷ xs)) (omega arith) h;
  gap = ground (arith, find_low xs s (k + 0 + 1), h.ascends);
  keeps = λ j come. subst (λ i. HasCome i ((s, l) ∷ xs) j) (omega arith) come;
  bound = λ top lt u. (omega arith, u);
}

-- A line that had come has come after one more was printed.
come_later :
    (xs : List Item) (k s j : ℕ) (l : Bytes)
    → s ≡ k + 1
    → HasCome k ((s, l) ∷ xs) j
    → HasCome (k + 1) xs j
unfolding find
come_later xs k s j l first (inl le) = inl (omega arith)
come_later xs k s j l first (inr there) = elim (Bool-cases (s == j)) [
  | inl e ↦ inl (ground arith)
  | inr ne ↦ inr (rw ne at there)
]

print_one :
    {lines : ℕ → Bytes} (xs : List Item) (k s : ℕ) (l : Bytes)
    → Holds lines k ((s, l) ∷ xs)
    → (s == k + 1) ≡ true
    → Printed lines (k + 1) xs
    → Printed lines k ((s, l) ∷ xs)
unfolding print_run find
print_one {lines} xs k s l h e p =
    let q : k + 1 + p.n ≡ k + suc p.n = omega arith in
    let q' : k + 1 + p.n + 1 ≡ k + suc p.n + 1 = omega arith in
    let here : s ≡ k + 1 = ground arith in
    let line : l ≡ lines (k + 1) = h.right s (ground arith) ∙ ap lines here in
    record {
      n = suc p.n;
      rest = p.rest;
      done =
          rw (e, p.done)
            (ap₂ (λ i x. ok (from_list p.rest, (i, x ∷ span lines (k + 1) p.n))) q line);
      left = subst (λ j. Holds lines j p.rest) q p.left;
      gap = subst (λ j. find j ((s, l) ∷ xs) ≡ none) q' (ground (arith, p.gap));
      keeps =
          λ j come. subst (λ i. HasCome i p.rest j) q (p.keeps j (come_later xs k s j l here come));
      bound = λ top lt u.
          let (low, rest) = p.bound top (omega (arith, here, u.0)) u.1 in (omega arith, rest);
    }

tail-Holds :
    {lines : ℕ → Bytes} (xs : List Item) (k s : ℕ) (l : Bytes)
    → Holds lines k ((s, l) ∷ xs)
    → (s == k + 1) ≡ true
    → Holds lines (k + 1) xs
tail-Holds xs k s l h e = record {
  ascends = subst (λ j. Ascends j xs) (ground arith) h.ascends.1;
  right = λ j f. h.right j (find_tail xs s j l h.ascends.1 f);
  below = h.below.1;
}

print_run_lem : {lines : ℕ → Bytes} (xs : List Item) (k : ℕ) → Holds lines k xs → Printed lines k xs
unfolding print_run
print_run_lem {lines} [] k h =
    let e : k ≡ k + 0 = omega arith in
    record {
      n = 0;
      rest = [];
      done = ap (λ i. ok (null, (i, []))) e;
      left = subst (λ j. Holds lines j []) e h;
      gap = unfold find in refl;
      keeps = λ j come. subst (λ i. HasCome i [] j) e come;
      bound = λ top lt u. (omega arith, tt);
    }
print_run_lem ((s, l) ∷ xs) k h = elim (Bool-cases (s == k + 1)) [
  | inl e ↦ print_one xs k s l h e (print_run_lem xs (k + 1) (tail-Holds xs k s l h e))
  | inr ne ↦ print_none xs k s l h ne
]

come_all :
    {lines : ℕ → Bytes} {k : ℕ} {xs : List Item} (n : ℕ)
    → (p : Printed lines k xs) → ((j : ℕ) → j ≤ n → HasCome k xs j)
    → n ≤ k + p.n
come_all {k} n p all = elim (Bool-cases (ltb (k + p.n) n)) [
  | inr ge ↦ ground arith
  | inl lt ↦ elim (all (k + p.n + 1) (ground arith)) [
    | inl le ↦ absurd (omega arith)
    | inr there ↦ absurd (there p.gap)
  ]
]

-- The client after a run of the loop that prints; `xs` is what it held before.
pub record Shown (lines : ℕ → Bytes) (r : Receiver) (xs : List Item) (u : Receiver) : Type 0 where
  pub in_order : InOrder lines u
  pub same_flag : u.data_flag ≡ r.data_flag
  pub up_to : (n : ℕ) → ((j : ℕ) → j ≤ n → HasCome r.printed xs j) → n ≤ u.printed
  pub keeps : (j : ℕ) → HasCome r.printed xs j → HasCome u.printed in_order.items j
  pub bound :
      (top : ℕ) → r.printed < top → Under top xs → (u.printed < top) × Under top in_order.items

-- The thread prints the unbroken run of lines that follow those printed, and no other, and at least
-- up to any line `n` for which all lines to it have come; of the lines that had come none is lost.
pub print_lines_lem :
    {lines : ℕ → Bytes} (r : Receiver)
    → (w : InOrder lines r) → (u : Receiver) × (print_lines r ≡ ok u) × Shown lines r w.items u
unfolding print_lines
print_lines_lem {lines} r w =
    let p = print_run_lem w.items r.printed w.holds in
    (
      record r {
        header = from_list p.rest;
        printed = r.printed + p.n;
        output = r.output ++ span lines r.printed p.n;
      },
      rw (w.held, p.done),
      record {
        in_order = record {
          items = p.rest;
          held = refl;
          holds = p.left;
          shown = rw w.shown (
              let e : 0 + r.printed ≡ r.printed = omega arith in
              rw e at (span-append lines 0 r.printed p.n));
          small = (p.bound (2 ^ 32 - 1) w.small w.holds.below).0;
        };
        same_flag = refl;
        up_to = λ n all. come_all n p all;
        keeps = p.keeps;
        bound = p.bound;
      },
    )
