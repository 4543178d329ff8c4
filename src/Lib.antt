-- ===== src/Lib.antt =====
-- Programs of the repository for four assignments on network programming, and what is proved of
-- them.
--
-- Parts. `Odr` models Assignment 3/Code/ODR.c, a daemon that finds routes on demand: local
-- processes send it datagrams, the ODR daemons of the nodes send each other frames (RREQ, RREP,
-- payload). `Transfer` models Assignment 2/Code, a file transfer over UDP: server.c sends with a
-- sliding window and a congestion window out of the circular queue of CirQueue.c, and client.c
-- receives into the linked list of LinkList.c, out of which a thread prints. `Arp` models
-- Assignment 4/Code/arp.c, which resolves addresses for the tour process on its node; `Tour` models
-- Assignment 4/Code/tour.c, which sends a packet along a route of nodes and asks arp.c for the
-- hardware address of each node that the packet came from. `Messages` models Assignment
-- 3/Code/API.c, the texts by which the local processes talk to ODR.c, and the loops of the processes,
-- Assignment 3/Code/client.c and Assignment 3/Code/server.c. `Echo` models Assignment 1/Code: the
-- echo service and the time service of tcpechotimesrv.c, their clients echo_cli.c and time_cli.c, and
-- tcpechotimecli.c, which starts a client and shows what it reports through a pipe. `Base` has what
-- they share.
--
-- Files. Odr/Types: the structs and the variables of `main`. Odr/Routes, Odr/Ports: the searches of
-- the two tables and the update of a route. Odr/Local: a local datagram. Odr/Request, Odr/Reply,
-- Odr/Data: an RREQ, an RREP, a payload, and the loop (`round`). Odr/SetUp: the interfaces before
-- the loop, with SetUp/Begun. Odr/Network: the processes of several nodes, as one transition
-- relation in which a node's round reads any frames that nodes on its segments ever sent; below it
-- Truth (what makes a route, a frame and a local datagram true), Parts, Requests, Others and Asks
-- (each handler keeps it), and Whole. Odr/Network/Discovery: a discovery along a path, with Tables,
-- Nodes, Backs, Ends and Start (the nodes), Leads (the routes that they come to have), Air and
-- Along (what they send each other), and Found; and a payload along those routes, with Carried and
-- Arrives. Odr/Invariant and Odr/Rounds: valid states; Odr/Routes/Learn, Odr/Flood, Odr/Duplicate,
-- Odr/Forced, Odr/Delivery: the behaviour of the handlers. Transfer/Queue: the functions of
-- CirQueue.c, Transfer/Queue/Fifo: as a list. Transfer/Chain: the functions of LinkList.c,
-- Transfer/Chain/Order: as a list in order. Transfer/Sender: the loop of server.c, with Congestion,
-- Window, Rounds, Acks, Resend and Full below it, and Content, Healthy, Turns and Drops for what
-- the buffer and the datagrams carry of the file. Transfer/Clients: what the parent process of
-- server.c does with a request of a client, with Transfer/Clients/Once. Transfer/Parent: that
-- process, with Parent/Children, which relates its lists to one table for each socket, and
-- Parent/Again. Transfer/Receiver: the loop and the thread of client.c, with Order, Answer, Print,
-- Steps and Advertised below it. Transfer/Network: both programs and all that they have sent, as
-- one transition relation in which each step of a program is a function of the model and takes any
-- one of the things ever sent, so that they may be lost, repeated or reordered; Network/Invariant,
-- Network/Begun, Network/Steps, Network/Kept, Network/Whole and Network/Progress: its invariant and
-- what follows. Transfer/Addresses: how client.c chooses its address and how server.c tells whether
-- a client is local, with Addresses/Local. Transfer/Handshake: the handshake of the two, with
-- Handshake/Agreed. Messages: API.c, with Messages/Digits and Messages/Trips; Messages/Programs:
-- the loops of its callers, with Messages/Answers, and Messages/Astray: the way of an answer
-- through server.c and two ODR.c. Arp, with Arp/SetUp, Arp/Cache and Arp/Resolve, and Arp/Lan: the
-- processes of several nodes on one Ethernet, with Lan/Truth, Lan/Answers and Lan/Answered; Tour,
-- with Tour/Journey and Tour/Ending, and Tour/Areq: the call of arp.c. Echo: `str_echo` and
-- `echo_cli`; Echo/Stream: the two joined by a connection, with Echo/Whole and Echo/Ends;
-- Echo/Clock: the time service; Echo/Menu: tcpechotimecli.c.
--
-- State and calls. Each process has a record of its variables, and a function for each event, which
-- returns the new state and the calls that leave the process, in their order. Only failing system
-- calls are left out: the code then exits, having made the calls before the failing one. A read or
-- a write outside an array, or through a pointer that nothing has set, is the outcome `fault`, but
-- for the reads past string literals in Assignment 1/Code/echo_cli.c, of which the text of the
-- literal is what counts, and for the array of `msg_send`, which no caller fills. Integers are
-- natural numbers, with the remainder by 2 ^ 32 or 2 ^ 16 written out where the code may exceed it;
-- `htonl`, `ntohl`, `htons` and `ntohs` are those of a little-endian host. `decimal` prints at most
-- ten digits, which is enough below 2 ^ 32.
--
-- Not modelled: the system calls that set up the sockets, the search for the own address other than
-- in ODR.c and arp.c, time and the rtt library (what an alarm or a loss decides is an argument),
-- printing other than that of the received file, the lookup of host names, the configuration files,
-- and the copy of the library unpv13e. The threads of client.c are taken to alternate between whole
-- runs of their loops. In Transfer/Network the header and the data of a datagram, two UDP
-- datagrams, stay together, and the new datagrams of a step fit the buffer of the server and the
-- sequence numbers (`Fits`), and their time stamps are above 0, since client.c takes the stamp 0
-- for that of the last datagram. In Echo/Stream a write sends all its bytes, and no call is
-- interrupted or fails.
pub mod Base
pub mod Odr
pub mod Messages
pub mod Transfer
pub mod Arp
pub mod Tour
pub mod Echo
