-- ===== src/Transfer/Network/Progress.antt =====
-- The transfer of Assignment 2/Code can always go on.
use cse.Base.{ℕ, ◌≡◌, [], ◌∷◌, some, get_elem?, ok, ntohs}
use cse.Transfer.Sender.{Sender, Packet, Next, finished, on_timeout, on_ack}
use cse.Transfer.Receiver.{Header, Receiver}
use cse.Transfer.Network.{Network}

-- The server ends when it takes one of the acknowledgements.
abbrev pub IsOver : Network → Type 0
IsOver t =
    (i : ℕ) × (a : Header) × (r : Sender × Next) × (get_elem? t.answers i ≡ some a)
    × (on_ack t.sender a.seq (ntohs a.recv_window) ≡ ok r)
    × (r.1 ≡ finished)

-- The sender after a timeout.
record Resent (s : Network) (p : Packet) : Type 0 where
  after : Sender
  done : on_timeout s.sender 1 ≡ ok (after, p ∷ [])
  same_head : after.head ≡ s.sender.head
