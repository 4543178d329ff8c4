-- ===== src/Echo/Clock.antt =====
-- The time service of Assignment 1/Code: `time_serv` of tcpechotimesrv.c and the loop of time_cli.c.
use cse.Base.{
  ℕ, ◌<◌, ◌≡◌, refl, sym, ap, subst, ◌∙◌, inl, inr, Bytes, List, [], ◌∷◌, ◌++◌, Bool, true, false,
  ltb, ◌==◌, if◌then◌else◌, length, take, concat, map, All, before_nul, before_nul-text, IsText,
  All-append, All-take, Bool-cases, lt→ltb, ok, fault, ◌>>=◌, Outcome, arith,
}
use cse.Echo.{maxline, ReadResult, got, interrupted, end_of_file, failed}

-- `"%.24s\r\n"` of the text of `ctime`.
unfoldable pub time_line : Bytes → Bytes
time_line ticks = take 24 ticks ++ (13 ∷ 10 ∷ [])

-- What `time_serv` writes, given what each `Readable_timeo` returns and the text of the time then;
-- and whether it has closed the socket.
unfoldable pub time_serv : List (ℕ × Bytes) → List Bytes × Bool
unfolding time_line
time_serv [] = ([], false)
time_serv ((ready, ticks) ∷ events) =
    let rest = time_serv events in
    if ready == 0 then (time_line ticks ∷ rest.0, rest.1) else ([], true)

pub data TimeEnd : Type 0 where
  waiting crashed terminated : TimeEnd

-- The loop of time_cli.c, given what it reads: what it displays, and how it ends. The byte behind
-- those read is set to 0, which is outside the array when the read has filled it.
unfoldable pub time_cli : List ReadResult → Outcome (Bytes × TimeEnd)
time_cli [] = ok ([], waiting)
time_cli (got bytes ∷ reads) =
    let rest = time_cli reads in
    if ltb (length bytes) maxline then (rest >>= λ r. ok (before_nul bytes ++ r.0, r.1)) else fault
time_cli (interrupted ∷ reads) = ok ([], crashed)
time_cli (failed ∷ reads) = ok ([], crashed)
time_cli (end_of_file ∷ reads) = ok ([], terminated)

front-IsText : (xs ys : Bytes) → IsText (xs ++ ys) → IsText xs
front-IsText [] ys h = tt
front-IsText (x ∷ xs) ys h = (h.0, front-IsText xs ys h.1)

back-IsText : (xs ys : Bytes) → IsText (xs ++ ys) → IsText ys
back-IsText [] ys h = h
back-IsText (x ∷ xs) ys h = back-IsText xs ys h.1

displayed :
    (reads : List Bytes) (after : List ReadResult) {end : TimeEnd}
    → All (λ bytes. length bytes < maxline) reads
    → IsText (concat reads)
    → time_cli after ≡ ok ([], end)
    → time_cli (map got reads ++ after) ≡ ok (concat reads, end)
unfolding time_cli
displayed [] after short text e = e
displayed (bytes ∷ reads) after short text e = rw (
  lt→ltb (length bytes) maxline short.0,
  displayed reads after short.1 (back-IsText bytes (concat reads) text) e,
  before_nul-text bytes (front-IsText bytes (concat reads) text),
)

served-IsText :
    (events : List (ℕ × Bytes))
    → All (λ e. IsText e.1) events
    → IsText (concat (time_serv events).0)
unfolding time_serv time_line
served-IsText [] h = tt
served-IsText ((ready, ticks) ∷ events) h = elim (Bool-cases (ready == 0)) [
  | inl e ↦ rw e (
      All-append (λ x. 0 < x) (take 24 ticks ++ (13 ∷ 10 ∷ [])) (concat (time_serv events).0)
        (All-append (λ x. 0 < x) (take 24 ticks) (13 ∷ 10 ∷ []) (All-take (λ x. 0 < x) 24 ticks h.0)
          (omega arith, (omega arith, tt)))
        (served-IsText events h.1))
  | inr e ↦ rw e tt
]

-- The client displays every line of time that the server writes, in order, however the stream cuts
-- them into reads, if no read fills the array of the client and the texts of `ctime` have no byte 0;
-- and ends when the server has closed the connection.
pub times_displayed :
    (events : List (ℕ × Bytes)) (reads : List Bytes)
    → All (λ e. IsText e.1) events
    → All (λ bytes. length bytes < maxline) reads
    → concat reads ≡ concat (time_serv events).0
    → time_cli (map got reads ++ (end_of_file ∷ [])) ≡ ok (concat (time_serv events).0, terminated)
times_displayed events reads text short same =
    let plain = subst IsText (sym same) (served-IsText events text) in
    displayed reads (end_of_file ∷ []) {end = terminated} short plain (unfold time_cli in refl)
    ∙ ap (λ (shown : Bytes). ok (shown, terminated)) same
