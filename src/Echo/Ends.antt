-- ===== src/Echo/Ends.antt =====
-- The echo client and the server always come to an end.
use cse.Base.{
  ℕ, suc, ◌+◌, ◌*◌, ◌≤◌, ◌<◌, ◌≡◌, refl, ap, ◌∙◌, ◌⊎◌, inl, inr, Bytes, [], ◌∷◌, ◌++◌, none, some,
  Bool, true, false, not, length, length-append, Bool-cases, arith,
}
use cse.Echo.{on_user, echo_cli, server_gone, str_echo, got, end_of_file}
use cse.Echo.Stream.{
  Connection, start, Reads, some_bytes, at_end, round, serve, Step, socket_step, user_step,
  both_step, echo_step, close_step, Reach, begin, and_then,
}
use cse.Echo.Whole.{Flows, reach-Flows, start-Flows, both-eq}

-- What is left to do: three moves for a byte that is not typed, two for one on its way to the
-- server, one for one on its way back, and the three ends.
abbrev one_if : Bool → ℕ
one_if true = 1
one_if false = 0

abbrev to_do : Connection → ℕ
to_do s =
    3 * length s.input
    + 2 * length s.to_server
    + length s.to_client
    + one_if (not s.client.echo_flag)
    + one_if (not s.closed)
    + one_if s.client.running

taken :
    {stream : Bytes} (bytes rest : Bytes)
    → stream ≡ bytes ++ rest
    → length stream ≡ length bytes + length rest
taken bytes rest e = ap length e ∙ length-append bytes rest

socket-lt :
    (s : Connection) (bytes rest : Bytes)
    → s.client.running ≡ true
    → Reads s.to_client s.closed bytes rest
    → to_do (round (record s { to_client = rest }) (some bytes) none) < to_do s
unfolding echo_cli on_user server_gone
socket-lt s _ _ running (some_bytes x xs rest e le) = omega (arith, taken (x ∷ xs) rest e)
socket-lt s _ _ running (at_end none_left closed) =
    let run = ap one_if running in
    elim (Bool-cases s.client.echo_flag) [
      | inl flag ↦ simp flag (omega (arith, run, ap one_if (ap not flag)))
      | inr flag ↦ simp flag (omega (arith, run, ap one_if (ap not flag)))
    ]

user-lt :
    (s : Connection) (bytes rest : Bytes)
    → s.client.echo_flag ≡ false
    → Reads s.input true bytes rest
    → to_do (round (record s { input = rest }) none (some bytes)) < to_do s
unfolding echo_cli on_user
user-lt s _ _ flag (some_bytes x xs rest e le) =
    omega (arith, taken (x ∷ xs) rest e, length-append s.to_server (x ∷ xs))
user-lt s _ _ flag (at_end none_left _) = omega (arith, ap one_if (ap not flag))

both-lt :
    (s : Connection) (x : ℕ) (xs rest typed more : Bytes)
    → s.client.running ≡ true
    → s.client.echo_flag ≡ false
    → Reads s.to_client s.closed (x ∷ xs) rest
    → Reads s.input true typed more
    → to_do (round (record s { to_client = rest; input = more }) (some (x ∷ xs)) (some typed))
      < to_do s
unfolding echo_cli on_user
both-lt s x xs rest typed more running flag reads typing =
    let after : Connection = round (record s { to_client = rest }) (some (x ∷ xs)) none in
    omega (
      arith,
      ap to_do (both-eq s x xs rest typed more),
      user-lt after typed more flag typing,
      socket-lt s (x ∷ xs) rest running reads,
    )

echo-lt :
    (s : Connection) (bytes rest : Bytes)
    → s.closed ≡ false
    → Reads s.to_server false bytes rest
    → to_do (serve s rest (got bytes)) < to_do s
unfolding str_echo
echo-lt s _ _ open_yet (some_bytes x xs rest e le) = omega (
  arith,
  taken (x ∷ xs) rest e,
  length-append s.to_client ((x ∷ xs) ++ []),
  length-append (x ∷ xs) [],
  ap one_if (ap not open_yet),
)
echo-lt s _ _ open_yet (at_end none_left ended) = absurd (cc)

close-lt :
    (s : Connection)
    → s.closed ≡ false
    → Reads s.to_server s.shut [] []
    → to_do (serve s [] end_of_file) < to_do s
unfolding str_echo
close-lt s open_yet (at_end none_left shut) =
    omega (arith, length-append s.to_client [], ap one_if (ap not open_yet))

step-lt : {s t : Connection} → Step s t → to_do t < to_do s
step-lt {s} (socket_step bytes rest running reads) = socket-lt s bytes rest running reads
step-lt {s} (user_step bytes rest running flag reads) = user-lt s bytes rest flag reads
step-lt {s} (both_step x xs rest typed more running flag reads typing) =
    both-lt s x xs rest typed more running flag reads typing
step-lt {s} (echo_step bytes rest open_yet reads) = echo-lt s bytes rest open_yet reads
step-lt {s} (close_step open_yet reads) = close-lt s open_yet reads

-- How many steps a run has.
abbrev pub steps : {s t : Connection} → Reach s t → ℕ
steps begin = 0
steps (and_then r step) = suc (steps r)

steps-le : {s t : Connection} (r : Reach s t) → steps r + to_do t ≤ to_do s
steps-le begin = omega arith
steps-le (and_then r step) = omega (arith, steps-le r, step-lt step)

-- A run of the client and the server, whatever the sizes of the reads and the order of the rounds,
-- has at most three steps for each byte that the user types, and three more.
pub run_bounded :
    (whole : Bytes) {s : Connection} (r : Reach (start whole) s) → steps r ≤ 3 * length whole + 3
run_bounded whole r = omega (arith, steps-le r)

one_byte :
    (stream : Bytes) (ended : Bool)
    → (stream ≡ []) ⊎ ((x : ℕ) × (rest : Bytes) × Reads stream ended (x ∷ []) rest)
one_byte [] ended = inl refl
one_byte (x ∷ xs) ended = inr (x, xs, some_bytes x [] xs refl (omega arith))

module _ {whole : Bytes} (s : Connection) (f : Flows whole s)
    (running : s.client.running ≡ true) where
  user_next : s.client.echo_flag ≡ false → (t : Connection) × Step s t
  user_next flag = elim (one_byte s.input true) [
    | inl e ↦ (_, user_step [] [] running flag (at_end e refl))
    | inr (x, rest, reads) ↦ (_, user_step (x ∷ []) rest running flag reads)
  ]

  server_next : s.closed ≡ false → (t : Connection) × Step s t
  server_next open_yet = elim (one_byte s.to_server false) [
    | inr (x, rest, reads) ↦ (_, echo_step (x ∷ []) rest open_yet reads)
    | inl e ↦ elim (Bool-cases s.client.echo_flag) [
      | inl flag ↦ (_, close_step open_yet (at_end e (f.shut_after ∙ flag)))
      | inr flag ↦ user_next flag
    ]
  ]

  next_step : (t : Connection) × Step s t
  next_step = elim (one_byte s.to_client s.closed) [
    | inr (x, rest, reads) ↦ (_, socket_step (x ∷ []) rest running reads)
    | inl e ↦ elim (Bool-cases s.closed) [
      | inl closed ↦ (_, socket_step [] [] running (at_end e closed))
      | inr open_yet ↦ server_next open_yet
    ]
  ]

-- The client and the server, with streams that take whatever is written to them, never wait for each
-- other: while the client has not returned, one of them has a step.
pub never_stuck :
    (whole : Bytes) {s : Connection}
    → Reach (start whole) s
    → s.client.running ≡ true
    → (t : Connection) × Step s t
never_stuck whole {s} r running = next_step s (reach-Flows (start-Flows whole) r) running
