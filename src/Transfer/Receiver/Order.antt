-- ===== src/Transfer/Receiver/Order.antt =====
-- What the client holds of the file: the lines that it has printed, and those in its list.
use cse.Base.{
  before_nul, ℕ, zero, suc, ◌+◌, ◌-◌, ◌^◌, ◌≤◌, ◌<◌, ◌≡◌, ◌≢◌, sym, ap, ◌∙◌, ◌⊎◌, inl, inr, Bytes,
  List, [], ◌∷◌, Option, none, some, false, ltb, ◌==◌, if◌then◌else◌, ok, arith, Bool-cases, ltb→lt,
  lt→ltb, ==_refl,
}
use cse.Transfer.Chain.{null}
use cse.Transfer.Chain.Order.{Item, from_list, Ascends, Under, find, keep_old, insert_link_list_lem}
use cse.Transfer.Receiver.{Receiver, enter}

-- Lines `k + 1` to `k + n` of a file.
abbrev pub span : (ℕ → Bytes) → ℕ → ℕ → List Bytes
span lines k zero = []
span lines k (suc n) = lines (k + 1) ∷ span lines (k + 1) n

-- The list holds lines of the file with numbers above `printed`, in ascending order.
pub record Holds (lines : ℕ → Bytes) (printed : ℕ) (items : List Item) : Type 0 where
  pub ascends : Ascends printed items
  pub right : (k : ℕ) {l : Bytes} → find k items ≡ some l → l ≡ lines k
  pub below : Under (2 ^ 32 - 1) items

-- The client has printed the first lines of the file, and holds lines that follow.
pub record InOrder (lines : ℕ → Bytes) (r : Receiver) : Type 0 where
  pub items : List Item
  pub held : r.header ≡ from_list items
  pub holds : Holds lines r.printed items
  pub shown : r.output ≡ span lines 0 r.printed
  pub small : r.printed < 2 ^ 32 - 1

-- A line that has come: printed, or in the list.
abbrev pub HasCome : ℕ → List Item → ℕ → Type 0
HasCome printed items k = (k ≤ printed) ⊎ (find k items ≢ none)

-- The list `xs` after a datagram.
pub record Entered (lines : ℕ → Bytes) (r : Receiver) (xs : List Item) (seq : ℕ) (ys : List Item)
    : Type 0 where
  pub done :
      (array : Bytes) → before_nul array ≡ lines seq → enter null r seq array ≡ ok (from_list ys)
  pub still : Holds lines r.printed ys
  pub there : HasCome r.printed ys seq
  pub keeps : (j : ℕ) → HasCome r.printed xs j → HasCome r.printed ys j
  pub bound : (top : ℕ) → seq < top → Under top xs → Under top ys

keep_old-right :
    (o : Option Bytes) {line l : Bytes}
    → ((l' : Bytes) → o ≡ some l' → l' ≡ line)
    → keep_old o line ≡ some l
    → l ≡ line
keep_old-right none h e = cc
keep_old-right (some a) {line} {l} h e = h l e

keep_old-some : (o : Option Bytes) (line : Bytes) → keep_old o line ≢ none
keep_old-some none line e = absurd (ground arith)
keep_old-some (some a) line e = absurd (ground arith)

-- The lines of the new list are right.
entered_right :
    {lines : ℕ → Bytes} {printed : ℕ} {xs : List Item} (ys : List Item) (seq k : ℕ) {l : Bytes}
    → Holds lines printed xs
    → find k ys ≡ (if k == seq then keep_old (find seq xs) (lines seq) else find k xs)
    → find k ys ≡ some l
    → l ≡ lines k
entered_right {lines} {xs} ys seq k {l} h content e = elim (Bool-cases (k == seq)) [
  | inl p ↦
      let q : k ≡ seq = ground arith in
      let old : keep_old (find seq xs) (lines seq) ≡ some l = sym (rw p at content) ∙ e in
      keep_old-right (find seq xs) (λ l' f. h.right seq f) old ∙ ap lines (sym q)
  | inr p ↦ h.right k (sym (rw p at content) ∙ e)
]

-- What was there stays there.
entered_keeps :
    (xs ys : List Item) (seq j printed : ℕ) (line : Bytes)
    → find j ys ≡ (if j == seq then keep_old (find seq xs) line else find j xs)
    → HasCome printed xs j
    → HasCome printed ys j
entered_keeps xs ys seq j printed line content (inl le) = inl le
entered_keeps xs ys seq j printed line content (inr there) = elim (Bool-cases (j == seq)) [
  | inl p ↦ inr (λ e. keep_old-some (find seq xs) line (sym (rw p at content) ∙ e))
  | inr p ↦ inr (λ e. there (sym (rw p at content) ∙ e))
]

enter_new :
    {lines : ℕ → Bytes} {r : Receiver} (seq : ℕ)
    → (w : InOrder lines r) → seq < 2 ^ 32 - 1
    → r.printed < seq
    → (ys : List Item) × Entered lines r w.items seq ys
unfolding enter
enter_new {lines} {r} seq w top lt =
    let (ys, done, ascends, content, under) =
      insert_link_list_lem w.items r.printed seq (lines seq) w.holds.ascends lt in
    (
      ys,
      record {
        done = λ array text. rw (lt→ltb r.printed seq lt, w.held, text, done);
        still = record {
          ascends = ascends;
          right = λ k e. entered_right ys seq k w.holds (content k) e;
          below = under (2 ^ 32 - 1) top w.holds.below;
        };
        there = inr (λ e.
            keep_old-some (find seq w.items) (lines seq)
              (sym (rw (==_refl seq) at (content seq)) ∙ e));
        keeps = λ j come. entered_keeps w.items ys seq j r.printed (lines seq) (content j) come;
        bound = under;
      },
    )

enter_old :
    {lines : ℕ → Bytes} {r : Receiver} (seq : ℕ)
    → (w : InOrder lines r) → seq ≤ r.printed
    → (ys : List Item) × Entered lines r w.items seq ys
unfolding enter
enter_old {lines} {r} seq w le =
    let old : ltb r.printed seq ≡ false = ground arith in
    (
      w.items,
      record {
        done = λ array text. rw (old, w.held);
        still = w.holds;
        there = inl le;
        keeps = λ j come. come;
        bound = λ top lt u. u;
      },
    )

-- Either way the list is one of lines of the file, and the line has come.
pub enter-Entered :
    {lines : ℕ → Bytes} {r : Receiver} (seq : ℕ)
    → (w : InOrder lines r) → seq < 2 ^ 32 - 1
    → (ys : List Item) × Entered lines r w.items seq ys
enter-Entered {r} seq w top = elim (Bool-cases (ltb r.printed seq)) [
  | inl p ↦ enter_new seq w top (ltb→lt _ _ p)
  | inr p ↦ enter_old seq w (ground arith)
]
