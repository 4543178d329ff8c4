-- ===== src/Echo.antt =====
-- The echo service of Assignment 1/Code: `str_echo` of tcpechotimesrv.c and `echo_cli` of echo_cli.c.
pub mod Stream
pub mod Whole
pub mod Ends
pub mod Clock
pub mod Menu
mod Tests
use cse.Base.{
  ℕ, Bytes, List, [], ◌∷◌, ◌++◌, Option, none, some, Bool, true, false, if◌then◌else◌, codes,
}

-- `MAXLINE`
abbrev pub maxline : ℕ
maxline = 4096

-- What `read` comes to: bytes, an interrupt by a signal, the end of the stream, or another error.
pub data ReadResult : Type 0 where
  got : Bytes → ReadResult
  interrupted : ReadResult
  end_of_file : ReadResult
  failed : ReadResult

-- Whether `str_echo` waits for more, or has returned after the end of the stream or an error. In
-- either case of a return `echo_serv` closes the socket.
pub data EchoEnd : Type 0 where
  waiting : EchoEnd
  terminated : EchoEnd
  client_failed : EchoEnd

-- What `str_echo` writes to the socket, given what it reads.
unfoldable pub str_echo : List ReadResult → List Bytes × EchoEnd
str_echo [] = ([], waiting)
str_echo (got bytes ∷ reads) = let rest = str_echo reads in (bytes ∷ rest.0, rest.1)
str_echo (interrupted ∷ reads) = str_echo reads
str_echo (end_of_file ∷ reads) = ([], terminated)
str_echo (failed ∷ reads) = ([], client_failed)

-- The calls of `echo_cli`; a status goes into the pipe with the number of bytes that are written.
pub data Call : Type 0 where
  write_stdout : Bytes → Call
  write_socket : Bytes → Call
  write_pipe : Bytes → ℕ → Call
  shutdown_socket : Call

-- `echo_flag`, and whether the loop goes on.
pub record EchoClient : Type 0 where
  pub echo_flag : Bool
  pub running : Bool

-- The second half of a round: `user` is what comes from the user, and empty at the end of the input.
unfoldable pub on_user : EchoClient → Option Bytes → EchoClient × List Call
on_user c none = (c, [])
on_user c (some []) = (
  record c { echo_flag = true },
  write_pipe (codes "No more user input") 20 ∷ shutdown_socket ∷ [],
)
on_user c (some (x ∷ xs)) =
    (c, write_socket (x ∷ xs) ∷ write_pipe (codes "User input is forwarded to server") 30 ∷ [])

unfoldable pub server_gone : EchoClient → EchoClient × List Call
server_gone c = (
  record c { running = false },
  (if c.echo_flag
        then write_pipe (codes "Server terminated") 20
        else write_pipe (codes "Server terminated prematurely") 30)
      ∷ [],
)

-- A round of `echo_cli`: what `Select` found on the socket and at the user.
unfoldable pub echo_cli : EchoClient → (socket user : Option Bytes) → EchoClient × List Call
echo_cli c none user = on_user c user
echo_cli c (some []) user = server_gone c
echo_cli c (some (x ∷ xs)) user =
    let rest = on_user c user in
    (rest.0, write_stdout (x ∷ xs) ∷ write_pipe (codes "User input is echoed back") 30 ∷ rest.1)
