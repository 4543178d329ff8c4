-- ===== src/Transfer/Network/Whole.antt =====
-- What the transfer of Assignment 2/Code achieves.
use cse.Transfer.Sender.{Sender}
use cse.Transfer.Receiver.{Receiver}
use cse.Transfer.Network.{Network}
