-- ===== src/Transfer/Clients.antt =====
-- The parent process of Assignment 2/Code/server.c: on each of its sockets it keeps a linked list of
-- the clients that it has forked a child for, by port and address.
pub mod Once
use cse.Base.{ℕ, Bytes, Bool, true, false, if◌then◌else◌, Outcome, ok, fault, ◌>>=◌}
use cse.Transfer.Chain.{Chain, duplicate_node, insert_link_list, delete_selected_node}

-- A request from a client: the list after it, and whether a child is forked. `memory` is what
-- `malloc` leaves in the `next` of a new node.
unfoldable pub on_request :
    (memory : Chain) → Chain → (port : ℕ) → (ip_addr : Bytes) → Outcome (Chain × Bool)
on_request memory connected port ip_addr = duplicate_node connected port ip_addr >>= λ duplicate.
    if duplicate
    then ok (connected, false)
    else (insert_link_list memory connected port ip_addr >>= λ list. ok (list, true))

-- After the handshake the child takes its client out of its own copy of the list.
unfoldable pub forget : Chain → (port : ℕ) → (ip_addr : Bytes) → Outcome Chain
forget connected port ip_addr = delete_selected_node connected port ip_addr
