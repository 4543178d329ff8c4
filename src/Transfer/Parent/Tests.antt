-- ===== src/Transfer/Parent/Tests.antt =====
-- Runs of the parent process on two sockets.
use cse.Base.{
  ℕ, ◌≡◌, refl, List, [], ◌∷◌, none, some, ok, fault, All, map, codes, arith, replicate, same,
}
use cse.Transfer.Chain.{null}
use cse.Transfer.Chain.Order.{Item, from_list, find}
use cse.Transfer.Addresses.{SocketInfo, loopback}
use cse.Transfer.Parent.{
  Listener, open_sockets, Client, Child, Event, interrupted, arrived, Parent, start, rounds,
}
use cse.Transfer.Parent.Children.{
  Table, table_rounds, Implement, AreSent, start-Implement, rounds_lem, found-Holds, and_socket,
  no_sockets,
}
use cse.Transfer.Parent.Again.{IsOther, rounds-IsOther}

abbrev host : List (ℕ × SocketInfo)
host =
    (3, record { ip_addr = loopback; mask = 0xff000000 })
    ∷ (4, record { ip_addr = 0x82f59c15; mask = 0xffffff00 })
    ∷ []

abbrev listeners : List Listener
listeners =
    record {
      sockfd = 3;
      address = record { ip_addr = loopback; mask = 0xff000000 };
      subnet = 0x7f000000;
    }
    ∷ record {
      sockfd = 4;
      address = record { ip_addr = 0x82f59c15; mask = 0xffffff00 };
      subnet = 0x82f59c00;
    }
    ∷ []

opened : open_sockets 0 host ≡ ok listeners
unfolding open_sockets
opened = refl

-- The array has no place for an eleventh interface.
too_many :
    open_sockets 0 (replicate 11 (3, record { ip_addr = loopback; mask = 0xff000000 })) ≡ fault
unfolding open_sockets
too_many = refl

abbrev first : Client
first = record { port = 4001; ip_addr = codes "130.245.156.22" }

abbrev second : Client
second = record { port = 4002; ip_addr = codes "130.245.156.23" }

-- A client asks twice, and another one asks in between.
abbrev events : List Event
events =
    arrived (none ∷ some first ∷ []) ∷ interrupted ∷ arrived (some second ∷ some first ∷ []) ∷ []

abbrev tables : List Table
tables = map (λ s k. none) listeners

sent : All AreSent events
sent = ((tt, (omega arith, tt)), (tt, ((omega arith, (omega arith, tt)), tt)))

forked :
    (table_rounds tables events).1
    ≡ record { socket = 1; client = first } ∷ record { socket = 0; client = second } ∷ []
unfolding same
forked = refl

rounds_lem_example :
    (q : Parent) × (rounds null listeners (start null listeners) events
      ≡ ok (q, (table_rounds tables events).1))
    × Implement listeners q.connected (table_rounds tables events).0
rounds_lem_example =
    rounds_lem (start null listeners) listeners tables events (start-Implement listeners) sent

-- The parent after the first datagram.
abbrev items : List Item
items = (4001, codes "130.245.156.22") ∷ []

abbrev noted_once : Parent
noted_once = record { maxfdp = 5; connected = null ∷ from_list items ∷ [] }

abbrev known : List Table
known = (λ k. find k []) ∷ (λ k. find k items) ∷ []

is_known : find 4001 items ≡ some (codes "130.245.156.22")
unfolding find
is_known = refl

served : Implement listeners noted_once.connected known
served =
    and_socket
      (record {
        sockfd = 3;
        address = record { ip_addr = loopback; mask = 0xff000000 };
        subnet = 0x7f000000;
      })
      (found-Holds [] tt)
      (and_socket
        (record {
          sockfd = 4;
          address = record { ip_addr = 0x82f59c15; mask = 0xffffff00 };
          subnet = 0x82f59c00;
        })
        (found-Holds items (omega arith, tt)) no_sockets)

rounds-IsOther_example :
    (q : Parent) × (children : List Child) × (rounds null listeners noted_once events
      ≡ ok (q, children))
    × All (IsOther 1 4001 (codes "130.245.156.22")) children
rounds-IsOther_example =
    rounds-IsOther noted_once listeners known events 1 4001 (codes "130.245.156.22") served sent
      (_, refl, is_known)
