-- ===== src/Transfer/Handshake.antt =====
-- The handshake of Assignment 2/Code before a transfer: client.c asks for a file until it is told a
-- port, and server.c tells the port until it hears the window of the client.
pub mod Agreed
mod Tests
use cse.Base.{
  ℕ, Bytes, List, [], ◌∷◌, ◌++◌, Option, none, some, Bool, true, false, if◌then◌else◌, htons, ntohs,
}

-- What the loop of the client has done: the requests that it has sent, the seconds that it gave each
-- `select`, and the port that it was told, if it was.
pub record Asked : Type 0 where
  pub sent : List Bytes
  pub waits : List ℕ
  pub told : Option ℕ

-- The loop of the client. In each round the loss simulation lets the request go or not, and `select`
-- ends by its time (`none`) or the client is told a port. `tv` is what is left of the three seconds:
-- `select` takes from it the time that it has waited.
unfoldable pub ask : (filename : Bytes) → (tv : ℕ) → List (Bool × Option ℕ) → Asked
ask filename tv [] = record { sent = []; waits = []; told = none }
ask filename tv ((goes, none) ∷ rounds) =
    let rest = ask filename 0 rounds in
    record rest {
      sent = (if goes then filename ∷ [] else []) ++ rest.sent;
      waits = tv ∷ rest.waits;
    }
ask filename tv ((goes, some port) ∷ rounds) = record {
  sent = if goes then filename ∷ [] else [];
  waits = tv ∷ [];
  told = some port;
}

-- `srvaddr.sin_port`, and what the client then sends.
unfoldable pub connect_port : (port_number : ℕ) → ℕ
connect_port port_number = htons port_number

unfoldable pub window_message : (recv_window : ℕ) → ℕ
window_message recv_window = htons recv_window

-- By the socket of the request, or by the child's own, with the port.
pub data Notice : Type 0 where
  by_listening : ℕ → Notice
  by_child : ℕ → Notice

-- An alarm, with what `rtt_timeout` says, or the window of the client.
pub data Event : Type 0 where
  alarm_rings : (gives_up : Bool) → Event
  window_comes : ℕ → Event

pub data Outlook : Type 0 where
  waiting : Outlook
  given_up : Outlook
  connected : (recv_window : ℕ) → Outlook

-- The wait of the server for the window.
unfoldable pub await_client : (ephemeral_port : ℕ) → List Event → List Notice × Outlook
await_client port [] = ([], waiting)
await_client port (alarm_rings gives_up ∷ events) =
    let rest = await_client port events in
    if gives_up then ([], given_up) else (by_listening port ∷ by_child port ∷ rest.0, rest.1)
await_client port (window_comes w ∷ events) = ([], connected (ntohs w))

-- The child tells the port of its socket, `sin_port`, and waits.
unfoldable pub handshake : (sin_port : ℕ) → List Event → List Notice × Outlook
handshake sin_port events =
    let port = htons sin_port in
    let rest = await_client port events in (by_listening port ∷ rest.0, rest.1)
