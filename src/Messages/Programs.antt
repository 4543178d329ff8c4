-- ===== src/Messages/Programs.antt =====
-- The loops of Assignment 3/Code/client.c and Assignment 3/Code/server.c.
use cse.Base.{
  ℕ, zero, suc, ◌+◌, Bytes, List, [], ◌∷◌, ◌++◌, Option, none, some, if◌then◌else◌, codes, same,
  take, Outcome, ok, fault, ◌>>=◌, ◌‼◌,
}
use cse.Messages.{Request, Reply, msg_recv}
use cse.Odr.Types.{vm_addr}

-- `vm_addr[n-1]`
unfoldable pub node_addr : ℕ → Outcome Bytes
unfolding vm_addr
node_addr zero = fault
node_addr (suc i) = vm_addr ‼ i

-- The wait of the client: each timeout (`none`) sends the request again, with the flag set; a datagram
-- ends the wait. With it stands what the array of `msg_recv` held.
unfoldable pub wait : Request → Reply → List (Option (Bytes × Bytes)) → List Request × Option Reply
wait q old [] = ([], none)
wait q old (none ∷ events) =
    let rest = wait q old events in (record q { flag = 1 } ∷ rest.0, rest.1)
wait q old (some (memory, received) ∷ events) = ([], some (msg_recv old memory received))

-- A round of the client: the user asks for node `send`.
unfoldable pub client_round :
    (send : ℕ) → Reply → List (Option (Bytes × Bytes)) → Outcome (List Request × Option Reply)
client_round send old events = node_addr send >>= λ addr.
    let q : Request = record { dst_addr = addr; dst_port = 5000; message = codes "HI"; flag = 0 } in
    let r = wait q old events in ok (q ∷ r.0, r.1)

-- The number of the node with an address; `recv`, if there is none.
unfoldable pub find_node : Bytes → List Bytes → (node recv : ℕ) → ℕ
find_node addr [] node recv = recv
find_node addr (a ∷ addrs) node recv =
    let rest = find_node addr addrs (node + 1) recv in if same addr a then node else rest

-- The variables of the server that live across the rounds of its loop.
pub record Server : Type 0 where
  pub reply : Reply
  pub recv : ℕ

-- A round of the server: a request comes in, `date` being the text of `ctime` then.
unfoldable pub server_round : Server → (memory received date : Bytes) → Outcome (Server × Request)
unfolding vm_addr
server_round s memory received date =
    let r = msg_recv s.reply memory received in
    let recv = find_node r.src_addr vm_addr 1 s.recv in
    node_addr recv >>= λ addr. ok (
      record { reply = r; recv = recv },
      record {
        dst_addr = addr;
        dst_port = r.src_port;
        message = take 24 date ++ (13 ∷ 10 ∷ []);
        flag = 0;
      },
    )
