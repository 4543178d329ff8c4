-- ===== src/Transfer/Network/Tests.antt =====
-- A short transfer by server.c and client.c, and the theorems there.
use cse.Base.{Bytes, List, [], ◌∷◌, true, false, codes}
use cse.Transfer.Queue.{Datagram}
use cse.Transfer.Queue.Fifo.{blank_datagram}
use cse.Transfer.Chain.{null, node}
use cse.Transfer.Sender.{Sender, Packet, datagram, read_into, zeroed}
use cse.Transfer.Receiver.{Header, Receiver}
use cse.Transfer.Network.{Network, start}

abbrev memory : List Datagram
memory = blank_datagram ∷ blank_datagram ∷ blank_datagram ∷ []

abbrev text : Bytes
text = codes "abc"

abbrev first : Network
first = start null memory text 3 3 0 zeroed

-- What the server sends of it.
abbrev array : Bytes
array = read_into zeroed text

-- The first round sends the whole file in one datagram.
abbrev sender_after : Sender
sender_after = record first.sender {
  sending_window = 1;
  sequence_number = 1;
  send_buffer = record {
    base =
        record { seq = 1; ts = 0; sendline = array; ack = 0 }
        ∷ blank_datagram
        ∷ blank_datagram
        ∷ [];
    front = 0;
    rear = 1;
    max_qsize = 3;
  };
  file = [];
  eof = true;
  line_memory = zeroed;
}

abbrev out : Packet
out = datagram 1 0 array

abbrev second : Network
second = record first { sender = sender_after; sent = out ∷ [] }

-- The client takes it, and says that it has all.
abbrev receiver_after : Receiver
receiver_after = record first.receiver {
  header = node 1 text null;
  data_flag = true;
  receiving = false;
}

abbrev all_there : Header
all_there = record { seq = 0; ts = 0; recv_window = 512 }

abbrev third : Network
third = record second { receiver = receiver_after; answers = all_there ∷ [] }

abbrev printer_after : Receiver
printer_after = record receiver_after { header = null; printed = 1; output = text ∷ [] }

abbrev fourth : Network
fourth = record third { receiver = printer_after }
