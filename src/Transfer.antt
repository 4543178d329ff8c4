-- ===== src/Transfer.antt =====
-- The file transfer of Assignment 2/Code: the two containers, the sender and the receiver.
pub mod Queue
pub mod Sender
pub mod Chain
pub mod Receiver
pub mod Clients
pub mod Parent
pub mod Network
pub mod Addresses
pub mod Handshake
mod Tests
