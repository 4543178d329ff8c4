-- ===== src/Echo/Stream.antt =====
-- The echo client and one thread of the server, joined by the two directions of a connection.
use cse.Base.{
  ℕ, ◌≤◌, ◌≡◌, Bytes, List, [], ◌∷◌, ◌++◌, Option, none, some, Bool, true, false, length, concat,
}
use cse.Echo.{
  maxline, ReadResult, got, end_of_file, EchoEnd, waiting, terminated, client_failed, str_echo,
  Call, write_stdout, write_socket, write_pipe, shutdown_socket, EchoClient, echo_cli,
}

-- The client and the ends of the two streams: what is under way in each, whether it is shut, what
-- the user has yet to type, and what was displayed. The statuses are those that went into the pipe.
pub record Connection : Type 0 where
  pub client : EchoClient
  pub input : Bytes
  pub to_server : Bytes
  pub shut : Bool
  pub to_client : Bytes
  pub closed : Bool
  pub output : Bytes
  pub statuses : List Bytes

abbrev pub start : Bytes → Connection
start input = record {
  client = record { echo_flag = false; running = true };
  input = input;
  to_server = [];
  shut = false;
  to_client = [];
  closed = false;
  output = [];
  statuses = [];
}

-- What a `read` can take from a stream, and what it leaves.
pub data Reads (stream : Bytes) (ended : Bool) : Bytes → Bytes → Type 0 where
  some_bytes :
      (x : ℕ) (xs rest : Bytes)
      → stream ≡ (x ∷ xs) ++ rest
      → length (x ∷ xs) ≤ maxline
      → Reads stream ended (x ∷ xs) rest
  at_end : stream ≡ [] → ended ≡ true → Reads stream ended [] []

-- The effect of a call of the client.
abbrev pub perform : Connection → Call → Connection
perform s (write_stdout bytes) = record s { output = s.output ++ bytes }
perform s (write_socket bytes) = record s { to_server = s.to_server ++ bytes }
perform s (write_pipe status n) = record s { statuses = s.statuses ++ (status ∷ []) }
perform s shutdown_socket = record s { shut = true }

abbrev pub perform_all : Connection → List Call → Connection
perform_all s [] = s
perform_all s (c ∷ cs) = perform_all (perform s c) cs

-- A round of the client, after what it reads has left its stream.
abbrev pub round : Connection → (socket user : Option Bytes) → Connection
round s socket user =
    let r = echo_cli s.client socket user in perform_all (record s { client = r.0 }) r.1

abbrev pub has_returned : EchoEnd → Bool
has_returned waiting = false
has_returned terminated = true
has_returned client_failed = true

-- A `read` of the server, which leaves `rest` in its stream.
abbrev pub serve : Connection → (rest : Bytes) → ReadResult → Connection
serve s rest r =
    let done = str_echo (r ∷ []) in
    record s {
      to_server = rest;
      to_client = s.to_client ++ concat done.0;
      closed = has_returned done.1;
    }

-- One step: a round of the client in which the socket, the user or both are ready, the user only
-- while `echo_flag` is not set; or a `read` of the server.
pub data Step (s : Connection) : Connection → Type 0 where
  socket_step :
      (bytes rest : Bytes)
      → s.client.running ≡ true
      → Reads s.to_client s.closed bytes rest
      → Step s (round (record s { to_client = rest }) (some bytes) none)
  user_step :
      (bytes rest : Bytes)
      → s.client.running ≡ true
      → s.client.echo_flag ≡ false
      → Reads s.input true bytes rest
      → Step s (round (record s { input = rest }) none (some bytes))
  both_step :
      (x : ℕ) (xs rest typed more : Bytes)
      → s.client.running ≡ true
      → s.client.echo_flag ≡ false
      → Reads s.to_client s.closed (x ∷ xs) rest
      → Reads s.input true typed more
      → Step s (round (record s { to_client = rest; input = more }) (some (x ∷ xs)) (some typed))
  echo_step :
      (bytes rest : Bytes)
      → s.closed ≡ false
      → Reads s.to_server false bytes rest
      → Step s (serve s rest (got bytes))
  close_step : s.closed ≡ false → Reads s.to_server s.shut [] [] → Step s (serve s [] end_of_file)

pub data Reach (s : Connection) : Connection → Type 0 where
  begin : Reach s s
  and_then : {t u : Connection} → Reach s t → Step t u → Reach s u
