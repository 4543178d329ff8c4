-- ===== src/Echo/Tests.antt =====
-- Short runs of the programs of Assignment 1/Code, and the theorems there.
use cse.Base.{
  ◌+◌, ◌*◌, ◌≤◌, ◌≡◌, refl, Bytes, List, [], ◌∷◌, ◌++◌, none, some, true, codes, map, replicate,
  concat, ok, arith,
}
use cse.Echo.{got, end_of_file, str_echo, on_user, server_gone, echo_cli}
use cse.Echo.Stream.{
  Connection, start, some_bytes, at_end, round, serve, Step, Reach, begin, and_then, user_step,
  echo_step, socket_step, close_step,
}
use cse.Echo.Whole.{nothing_lost, returned_whole}
use cse.Echo.Ends.{steps, run_bounded, never_stuck}
use cse.Echo.Clock.{time_serv, time_cli, terminated, times_displayed, time_line}
use cse.Echo.Menu.{Parent, parent_loop, pipe_starved}

abbrev word : Bytes
word = codes "hi"

-- The user types a word, and it goes to the server and back.
abbrev typed : Connection
typed = round (record (start word) { input = [] }) none (some word)

abbrev echoed : Connection
echoed = serve typed [] (got word)

abbrev displayed : Connection
displayed = round (record echoed { to_client = [] }) (some word) none

-- The user ends the input, the server closes, and the client returns.
abbrev ended : Connection
ended = round (record displayed { input = [] }) none (some [])

abbrev closed : Connection
closed = serve ended [] end_of_file

abbrev returned : Connection
returned = round (record closed { to_client = [] }) (some []) none

to_typed : Reach (start word) typed
to_typed =
    and_then begin (user_step word [] refl refl (some_bytes 104 (105 ∷ []) [] refl (omega arith)))

to_echoed : Reach (start word) echoed
unfolding echo_cli on_user
to_echoed =
    and_then to_typed (echo_step word [] refl (some_bytes 104 (105 ∷ []) [] refl (omega arith)))

to_returned : Reach (start word) returned
unfolding echo_cli on_user str_echo server_gone
to_returned =
    and_then
      (and_then
        (and_then
          (and_then to_echoed
            (socket_step word [] refl (some_bytes 104 (105 ∷ []) [] refl (omega arith))))
          (user_step [] [] refl refl (at_end refl refl)))
        (close_step refl (at_end refl refl)))
      (socket_step [] [] refl (at_end refl refl))

nothing_lost_example : typed.output ++ (typed.to_client ++ (typed.to_server ++ typed.input)) ≡ word
nothing_lost_example = nothing_lost word to_typed

returned_whole_example :
    (returned.output ≡ word)
    × ((before : List Bytes) × (returned.statuses ≡ before ++ (codes "Server terminated" ∷ [])))
returned_whole_example =
    returned_whole word to_returned (unfold echo_cli on_user str_echo server_gone in refl)

run_bounded_example : steps to_returned ≤ 3 * 2 + 3
run_bounded_example = run_bounded word to_returned

never_stuck_example : (t : Connection) × Step typed t
never_stuck_example = never_stuck word to_typed (unfold echo_cli on_user in refl)

abbrev noon : Bytes
noon = codes "Fri Oct  3 12:00:00 2014"

-- The line comes in two reads.
times_displayed_example :
    time_cli (map got (noon ∷ (13 ∷ 10 ∷ []) ∷ []) ++ (end_of_file ∷ []))
    ≡ ok (concat (time_serv ((0, noon) ∷ (1, noon) ∷ [])).0, terminated)
times_displayed_example =
    times_displayed ((0, noon) ∷ (1, noon) ∷ []) (noon ∷ (13 ∷ 10 ∷ []) ∷ []) (ground arith)
      (omega arith, (omega arith, tt)) (unfold time_serv time_line in refl)

abbrev parent : Parent
parent = record { buf = replicate 1024 0; statuses = []; looping = true }

pipe_starved_example :
    parent_loop parent (map (λ pipe. (some [], pipe)) (some (got (codes "x")) ∷ none ∷ []))
    ≡ ok parent
pipe_starved_example = pipe_starved parent (some (got (codes "x")) ∷ none ∷ []) refl
