-- ===== src/Arp/Lan.antt =====
-- The processes arp.c of several nodes on one Ethernet, which loses, repeats and reorders frames.
pub mod Truth
pub mod Answers
pub mod Answered
mod Tests
use cse.Base.{ℕ, ◌≡◌, Bytes, List, [], ◌∷◌, ◌++◌, some, get_elem?, ◌==◌, if◌then◌else◌, ok}
use cse.Arp.{Arp, Header, ArpMessage, Call, send, write, close, on_frame, on_connection, start}

-- The address and the hardware address of each node.
pub record Nodes : Type 0 where
  pub ip : ℕ → Bytes
  pub mac : ℕ → Bytes

-- What a tour process asked on a connection, and what its node wrote on one.
pub record Ask : Type 0 where
  pub node : ℕ
  pub connfd : ℕ
  pub ip : Bytes

pub record Answer : Type 0 where
  pub node : ℕ
  pub fd : ℕ
  pub bytes : Bytes

-- The state of each process, and all that was ever sent, asked and answered.
pub record Lan : Type 0 where
  pub arp : ℕ → Arp
  pub sent : List (Header × ArpMessage)
  pub asked : List Ask
  pub answers : List Answer

abbrev pub frames_of : List Call → List (Header × ArpMessage)
frames_of [] = []
frames_of (send header arp ∷ calls) = (header, arp) ∷ frames_of calls
frames_of (write fd bytes ∷ calls) = frames_of calls
frames_of (close fd ∷ calls) = frames_of calls

abbrev pub answers_of : (node : ℕ) → List Call → List Answer
answers_of node [] = []
answers_of node (send header arp ∷ calls) = answers_of node calls
answers_of node (write fd bytes ∷ calls) =
    record { node = node; fd = fd; bytes = bytes } ∷ answers_of node calls
answers_of node (close fd ∷ calls) = answers_of node calls

abbrev pub put_node : ℕ → Arp → (ℕ → Arp) → ℕ → Arp
put_node u a arp v = if v == u then a else arp v

abbrev pub after_event : Lan → (u : ℕ) → List Ask → Arp × List Call → Lan
after_event lan u asks r = record {
  arp = put_node u r.0 lan.arp;
  sent = frames_of r.1 ++ lan.sent;
  asked = asks ++ lan.asked;
  answers = answers_of u r.1 ++ lan.answers;
}

abbrev pub ask_of : (u connfd : ℕ) → Bytes → Ask
ask_of u connfd ip = record { node = u; connfd = connfd; ip = ip }

-- A node takes any frame that was ever sent, or a connection of its tour process.
pub data Step (lan : Lan) : Lan → Type 0 where
  frame_step :
      (u j : ℕ) (f : Header × ArpMessage) (r : Arp × List Call)
      → get_elem? lan.sent j ≡ some f
      → on_frame (lan.arp u) f.0 f.1 ≡ ok r
      → Step lan (after_event lan u [] r)
  connection_step :
      (u connfd : ℕ) (ip : Bytes) (r : Arp × List Call)
      → on_connection (lan.arp u) connfd ip ≡ ok r
      → Step lan (after_event lan u (ask_of u connfd ip ∷ []) r)

pub data Reach (lan : Lan) : Lan → Type 0 where
  begin : Reach lan lan
  and_then : {mid last : Lan} → Reach lan mid → Step mid last → Reach lan last

abbrev pub begun : Nodes → Lan
begun n = record { arp = λ u. start (n.ip u) (n.mac u); sent = []; asked = []; answers = [] }
