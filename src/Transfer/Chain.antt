-- ===== src/Transfer/Chain.antt =====
-- Assignment 2/Code/LinkList.c, the linked list of received datagrams, which server.c also uses for
-- the clients that it is serving. A list is what hangs at the `next` of its head node.
pub mod Order
use cse.Base.{
  ℕ, suc, ◌+◌, Bytes, Bool, true, false, not, ◌&&◌, ltb, ◌==◌, if◌then◌else◌, same, u32, Outcome,
  ok, fault, ◌>>=◌,
}

-- A `struct node *`: NULL, a node with its fields, or a pointer that nothing has set.
pub data Chain : Type 0 where
  null : Chain
  wild : Chain
  node : ℕ → Bytes → Chain → Chain

-- The rest of a list that a node stands before.
abbrev pub before : ℕ → Bytes → Outcome Chain → Outcome Chain
before seq line rest = rest >>= λ l. ok (node seq line l)

-- The loop of `InsertLinkList` and what follows it, from a node on that is not the last. `memory` is
-- what `malloc` leaves in the `next` of a node, which the code does not set at the end of the list.
unfoldable pub insert_after : Chain → Chain → ℕ → Bytes → Outcome Chain
insert_after memory null seq line = ok (node seq line memory)
insert_after memory wild seq line = fault
insert_after memory (node s l next) seq line =
    let rest = insert_after memory next seq line in
    if ltb s seq
    then before s l rest
    else if not (s == seq)
    then ok (node seq line (node s l next))
    else ok (node s l next)

-- `InsertLinkList`: the first node of a list has its `next` set.
unfoldable pub insert_link_list : Chain → Chain → ℕ → Bytes → Outcome Chain
insert_link_list memory null seq line = ok (node seq line null)
insert_link_list memory wild seq line = insert_after memory wild seq line
insert_link_list memory (node s l next) seq line = insert_after memory (node s l next) seq line

-- `DeleteLinkList` takes the first node out without a look whether there is one.
unfoldable pub delete_link_list : Chain → Outcome Chain
delete_link_list null = fault
delete_link_list wild = fault
delete_link_list (node s l next) = ok next

-- `DeleteSelectedNode`
unfoldable pub delete_selected_node : Chain → ℕ → Bytes → Outcome Chain
delete_selected_node null port ip_addr = ok null
delete_selected_node wild port ip_addr = fault
delete_selected_node (node s l next) port ip_addr =
    let rest = delete_selected_node next port ip_addr in
    if s == port && same l ip_addr then ok next else before s l rest

-- `DuplicateNode`
unfoldable pub duplicate_node : Chain → ℕ → Bytes → Outcome Bool
duplicate_node null port ip_addr = ok false
duplicate_node wild port ip_addr = fault
duplicate_node (node s l next) port ip_addr =
    let rest = duplicate_node next port ip_addr in
    if s == port && same l ip_addr then ok true else rest

-- `LinkListLength`
unfoldable pub link_list_length : Chain → Outcome ℕ
link_list_length null = ok 0
link_list_length wild = fault
link_list_length (node s l next) = link_list_length next >>= λ len. ok (suc len)

-- `NextAck`: the number after the unbroken run that follows `start`.
unfoldable pub next_ack : Chain → ℕ → Outcome ℕ
next_ack null start = ok (u32 (start + 1))
next_ack wild start = fault
next_ack (node s l next) start =
    let rest = next_ack next s in if s == u32 (start + 1) then rest else ok (u32 (start + 1))
