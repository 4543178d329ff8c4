-- ===== src/Echo/Whole.antt =====
-- No byte is lost between the user and the display: the invariant of a connection.
use mathlib.Core.List.{append_assoc, append-nil}
use cse.Base.{
  ℕ, ◌≡◌, refl, sym, ap, subst, ◌∙◌, Bytes, List, [], ◌∷◌, ◌++◌, none, some, Bool, true, false,
  codes,
}
use cse.Echo.{on_user, echo_cli, server_gone, str_echo, got, end_of_file}
use cse.Echo.Stream.{
  Connection, start, Reads, some_bytes, at_end, round, serve, Step, socket_step, user_step,
  both_step, echo_step, close_step, Reach, begin, and_then,
}

-- The statuses that the client gives at its end.
abbrev pub good_end : Bytes
good_end = codes "Server terminated"

pub record Flows (whole : Bytes) (s : Connection) : Type 0 where
  pub bytes : s.output ++ (s.to_client ++ (s.to_server ++ s.input)) ≡ whole
  pub all_typed : s.client.echo_flag ≡ true → s.input ≡ []
  pub shut_after : s.shut ≡ s.client.echo_flag
  pub closed_after : s.closed ≡ true → (s.shut ≡ true) × (s.to_server ≡ [])
  pub ended :
      s.client.running ≡ false
      → (s.closed ≡ true)
        × (s.to_client ≡ [])
        × ((before : List Bytes) × (s.statuses ≡ before ++ (good_end ∷ [])))

-- Bytes move from a stream to the one before it.
regroup : (a b c z : Bytes) → (a ++ b) ++ (c ++ z) ≡ a ++ ((b ++ c) ++ z)
regroup a b c z = append_assoc a b (c ++ z) ∙ ap (λ r. a ++ r) (sym (append_assoc b c z))

pub both-eq :
    (s : Connection) (x : ℕ) (xs rest typed more : Bytes)
    → round (record s { to_client = rest; input = more }) (some (x ∷ xs)) (some typed)
      ≡ round
          (record (round (record s { to_client = rest }) (some (x ∷ xs)) none) { input = more })
          none
          (some typed)
unfolding echo_cli on_user
both-eq s x xs rest [] more = refl
both-eq s x xs rest (y ∷ ys) more = refl

at_end_of :
    {stream : Bytes} {ended : Bool} → Reads stream ended [] [] → (stream ≡ []) × (ended ≡ true)
at_end_of (at_end none_left ended) = (none_left, ended)

module _ {whole : Bytes} where
  socket-Flows :
      (s : Connection) (bytes rest : Bytes)
      → Flows whole s
      → s.client.running ≡ true
      → Reads s.to_client s.closed bytes rest
      → Flows whole (round (record s { to_client = rest }) (some bytes) none)
  unfolding echo_cli on_user server_gone
  socket-Flows s _ _ f running (some_bytes x xs rest e le) = record {
    bytes =
        regroup s.output (x ∷ xs) rest (s.to_server ++ s.input)
        ∙ (ap (λ c. s.output ++ (c ++ (s.to_server ++ s.input))) (sym e) ∙ f.bytes);
    all_typed = f.all_typed;
    shut_after = f.shut_after;
    closed_after = f.closed_after;
    ended = λ stopped. absurd (cc);
  }
  socket-Flows s _ _ f running (at_end none_left closed) =
      let (shut, _) = f.closed_after closed in
      let flag : s.client.echo_flag ≡ true = sym f.shut_after ∙ shut in
      simp flag (record {
        bytes = ap (λ c. s.output ++ (c ++ (s.to_server ++ s.input))) (sym none_left) ∙ f.bytes;
        all_typed = λ _. f.all_typed flag;
        shut_after = f.shut_after ∙ flag;
        closed_after = f.closed_after;
        ended = λ _. (closed, refl, (s.statuses, refl));
      })

  user-Flows :
      (s : Connection) (bytes rest : Bytes)
      → Flows whole s
      → s.client.running ≡ true
      → s.client.echo_flag ≡ false
      → Reads s.input true bytes rest
      → Flows whole (round (record s { input = rest }) none (some bytes))
  unfolding echo_cli on_user
  user-Flows s _ _ f running flag (some_bytes x xs rest e le) = record {
    bytes =
        ap (λ c. s.output ++ (s.to_client ++ c)) (append_assoc s.to_server (x ∷ xs) rest)
        ∙ (ap (λ c. s.output ++ (s.to_client ++ (s.to_server ++ c))) (sym e) ∙ f.bytes);
    all_typed = λ set. absurd (cc);
    shut_after = f.shut_after;
    closed_after =
        λ closed. absurd (let (shut, _) = f.closed_after closed in let h = f.shut_after in cc);
    ended = λ stopped. absurd (cc);
  }
  user-Flows s _ _ f running flag (at_end none_left _) = record {
    bytes = ap (λ c. s.output ++ (s.to_client ++ (s.to_server ++ c))) (sym none_left) ∙ f.bytes;
    all_typed = λ _. refl;
    shut_after = refl;
    closed_after =
        λ closed. absurd (let (shut, _) = f.closed_after closed in let h = f.shut_after in cc);
    ended = λ stopped. absurd (cc);
  }

  echo-Flows :
      (s : Connection) (bytes rest : Bytes)
      → Flows whole s
      → s.closed ≡ false
      → Reads s.to_server false bytes rest
      → Flows whole (serve s rest (got bytes))
  unfolding str_echo
  echo-Flows s _ _ f open_yet (some_bytes x xs rest e le) = record {
    bytes =
        ap (λ c. s.output ++ c)
          (regroup s.to_client ((x ∷ xs) ++ []) rest s.input
            ∙ ap (λ c. s.to_client ++ (c ++ s.input))
                (ap (λ c. c ++ rest) (append-nil (x ∷ xs)) ∙ sym e))
        ∙ f.bytes;
    all_typed = f.all_typed;
    shut_after = f.shut_after;
    closed_after = λ closed. absurd (cc);
    ended = λ stopped. let closed = (f.ended stopped).0 in absurd (cc);
  }
  echo-Flows s _ _ f open_yet (at_end none_left ended) = absurd (cc)

  close-Flows :
      (s : Connection)
      → Flows whole s
      → s.closed ≡ false
      → (s.to_server ≡ []) × (s.shut ≡ true)
      → Flows whole (serve s [] end_of_file)
  unfolding str_echo
  close-Flows s f open_yet (none_left, shut) = record {
    bytes =
        ap (λ c. s.output ++ (c ++ s.input)) (append-nil s.to_client)
        ∙ (ap (λ c. s.output ++ (s.to_client ++ (c ++ s.input))) (sym none_left) ∙ f.bytes);
    all_typed = f.all_typed;
    shut_after = f.shut_after;
    closed_after = λ _. (shut, refl);
    ended = λ stopped. let closed = (f.ended stopped).0 in absurd (cc);
  }

  both-Flows :
      (s : Connection) (x : ℕ) (xs rest typed more : Bytes)
      → Flows whole s
      → s.client.running ≡ true
      → s.client.echo_flag ≡ false
      → Reads s.to_client s.closed (x ∷ xs) rest
      → Reads s.input true typed more
      → Flows whole
          (round (record s { to_client = rest; input = more }) (some (x ∷ xs)) (some typed))
  unfolding echo_cli on_user
  both-Flows s x xs rest typed more f running flag reads typing =
      let after : Connection = round (record s { to_client = rest }) (some (x ∷ xs)) none in
      let g = socket-Flows s (x ∷ xs) rest f running reads in
      subst (Flows whole) (sym (both-eq s x xs rest typed more))
        (user-Flows after typed more g running flag typing)

  Step-Flows : {s t : Connection} → Step s t → Flows whole s → Flows whole t
  Step-Flows {s} (socket_step bytes rest running reads) f =
      socket-Flows s bytes rest f running reads
  Step-Flows {s} (user_step bytes rest running flag reads) f =
      user-Flows s bytes rest f running flag reads
  Step-Flows {s} (both_step x xs rest typed more running flag reads typing) f =
      both-Flows s x xs rest typed more f running flag reads typing
  Step-Flows {s} (echo_step bytes rest open_yet reads) f = echo-Flows s bytes rest f open_yet reads
  Step-Flows {s} (close_step open_yet reads) f = close-Flows s f open_yet (at_end_of reads)

pub start-Flows : (whole : Bytes) → Flows whole (start whole)
start-Flows whole = record {
  bytes = refl;
  all_typed = λ set. absurd (cc);
  shut_after = refl;
  closed_after = λ closed. absurd (cc);
  ended = λ stopped. absurd (cc);
}

pub reach-Flows : {whole : Bytes} {s t : Connection} → Flows whole s → Reach s t → Flows whole t
reach-Flows f begin = f
reach-Flows f (and_then r step) = Step-Flows step (reach-Flows f r)

-- At every moment of a connection, whatever the sizes of the reads and the order of the rounds: what
-- is displayed, what is on its way back, what is on its way to the server and what is yet to be
-- typed are together, in this order, the input of the user.
pub nothing_lost :
    (whole : Bytes) {s : Connection}
    → Reach (start whole) s
    → s.output ++ (s.to_client ++ (s.to_server ++ s.input)) ≡ whole
nothing_lost whole r = (reach-Flows (start-Flows whole) r).bytes

-- When the client has returned, the user has typed all, all of it was displayed, and the last status
-- is that the server terminated, and not that it did so prematurely.
pub returned_whole :
    (whole : Bytes) {s : Connection}
    → Reach (start whole) s
    → s.client.running ≡ false
    → (s.output ≡ whole)
      × ((before : List Bytes) × (s.statuses ≡ before ++ (codes "Server terminated" ∷ [])))
returned_whole whole {s} r stopped =
    let f = reach-Flows (start-Flows whole) r in
    let (closed, back, last) = f.ended stopped in
    let (shut, out) = f.closed_after closed in
    let typed = f.all_typed (sym f.shut_after ∙ shut) in
    (
      sym (append-nil s.output)
          ∙ (ap (λ c. s.output ++ c)
                (sym (
                  ap (λ c. c ++ (s.to_server ++ s.input)) back
                  ∙ (ap (λ c. c ++ s.input) out ∙ typed)))
              ∙ f.bytes),
      last,
    )
