-- ===== src/Echo/Menu.antt =====
-- tcpechotimecli.c of Assignment 1/Code: the choice of a service, and the loop that shows the statuses
-- of the child process.
use mathlib.Core.List.{append_assoc, append-nil}
use cse.Base.{
  ℕ, zero, suc, ◌≤◌, ◌<◌, ◌≡◌, ◌≢◌, refl, sym, ap, ◌∙◌, inl, inr, Bytes, List, [], ◌∷◌, ◌++◌,
  Option, none, some, Bool, true, false, ltb, leb, ◌==◌, if◌then◌else◌, codes, length, map, take,
  drop, All-take, Bool-cases, same, same→eq, IsText, ltb→lt, ok, fault, ◌>>=◌, Outcome, arith,
}
use cse.Echo.{ReadResult, got, interrupted, end_of_file, failed}

-- `scanf("%s", choice)`: the word and its end go into the four bytes of the array.
unfoldable pub read_choice : Bytes → Outcome Bytes
read_choice word = if ltb (length word) 4 then ok word else fault

pub data Choice : Type 0 where
  echo time quit wrong : Choice

unfoldable pub choice_of : Bytes → Choice
choice_of word =
    if same word (codes "echo")
    then echo
    else if same word (codes "time")
    then time
    else if same word (codes "quit")
    then quit
    else wrong

-- A wrong choice is followed by another one.
abbrev or_again : Choice → Outcome (Option Choice) → Outcome (Option Choice)
or_again wrong rest = rest
or_again c rest = ok (some c)

-- Words until one is a choice; `none` while there is none.
unfoldable pub choose : List Bytes → Outcome (Option Choice)
choose [] = ok none
choose (word ∷ words) =
    let rest = choose words in read_choice word >>= λ w. or_again (choice_of w) rest

-- `SIZE`
abbrev pub size : ℕ
size = 1024

-- `read` into the array `buf`.
abbrev pub read_into : Bytes → Bytes → Outcome Bytes
read_into buf bytes =
    if leb (length bytes) size then ok (bytes ++ drop (length bytes) buf) else fault

-- `printf("%s", buf)`: the bytes before the first 0.
unfoldable pub shown : Bytes → Outcome Bytes
shown [] = fault
shown (x ∷ xs) = let rest = shown xs in if x == 0 then ok [] else (rest >>= λ r. ok (x ∷ r))

-- What a round of the loop shows as the status of the child, and whether the loop goes on.
pub record Parent : Type 0 where
  pub buf : Bytes
  pub statuses : List Bytes
  pub looping : Bool

unfoldable pub on_pipe : Parent → ReadResult → Outcome Parent
on_pipe p (got bytes) = read_into p.buf bytes >>= λ buf.
    shown buf >>= λ status. ok (record p { buf = buf; statuses = p.statuses ++ (status ∷ []) })
on_pipe p end_of_file = ok (record p { looping = false })
on_pipe p interrupted = ok p
on_pipe p failed = ok (record p { looping = false })

-- A round: what the user has typed (nothing at the end of the input), and what is in the pipe. The
-- call for the user names `MAXLINE` bytes.
unfoldable pub parent_round :
    Parent → (user : Option Bytes) → (pipe : Option ReadResult) → Outcome Parent
parent_round p (some typed) pipe = read_into p.buf typed >>= λ buf. ok (record p { buf = buf })
parent_round p none (some r) = on_pipe p r
parent_round p none none = ok p

-- The loop over rounds, while the child has not closed the pipe.
unfoldable pub parent_loop : Parent → List (Option Bytes × Option ReadResult) → Outcome Parent
parent_loop p [] = ok p
parent_loop p ((user, pipe) ∷ rounds) =
    parent_round p user pipe >>= λ q. if q.looping then parent_loop q rounds else ok q

-- `Write(pipe_port, text, n)`: the text, its end, and `past`, whatever stands there in memory.
unfoldable pub status_bytes : (text past : Bytes) → (n : ℕ) → Bytes
status_bytes text past n = take n (text ++ (0 ∷ past))

choice-wrong : (word : Bytes) → length word < 4 → choice_of word ≡ wrong
unfolding choice_of
choice-wrong word short =
    rw (differs (codes "echo") refl, differs (codes "time") refl, differs (codes "quit") refl)
  where
    differs : (name : Bytes) → length name ≡ 4 → same word name ≡ false
    differs name four = elim (Bool-cases (same word name)) [
      | inl e ↦ absurd (omega (arith, ap (length {A = ℕ}) (same→eq word name e)))
      | inr e ↦ e
    ]

-- The array for the choice is too small for each of the three names with its end: whatever words the
-- user types, the loop never comes to a choice without having written past the array before.
no_choice_fits : (words : List Bytes) (c : Choice) → choose words ≢ ok (some c)
unfolding choose read_choice
no_choice_fits [] c e = absurd (cc)
no_choice_fits (word ∷ words) c e = elim (Bool-cases (ltb (length word) 4)) [
  | inl short ↦
      let wrong_one = choice-wrong word (ltb→lt _ _ short) in
      no_choice_fits words c (sym (simp (short, wrong_one) refl) ∙ e)
  | inr long ↦ let over = rw long at e in absurd (cc)
]

-- What is shown of a text that stands before something else.
shown_text :
    (text ys : Bytes) {r : Bytes}
    → IsText text
    → shown ys ≡ ok r
    → shown (text ++ ys) ≡ ok (text ++ r)
unfolding shown
shown_text [] ys t e = e
shown_text (x ∷ xs) ys t e = ground (arith, shown_text xs ys t.1 e)

status-whole :
    (text past : Bytes) (n : ℕ)
    → length text < n
    → (rest : Bytes) × (status_bytes text past n ≡ text ++ (0 ∷ rest))
unfolding status_bytes
status-whole [] past (suc n) lt = (take n past, refl)
status-whole (x ∷ xs) past (suc n) lt =
    let (rest, e) = status-whole xs past n (omega arith) in (rest, ap (λ ys. x ∷ ys) e)
status-whole text past zero lt = absurd (omega arith)

status-cut : (text past : Bytes) (n : ℕ) → n ≤ length text → status_bytes text past n ≡ take n text
unfolding status_bytes
status-cut text past zero le = refl
status-cut [] past (suc n) le = absurd (omega arith)
status-cut (x ∷ xs) past (suc n) le = ap (λ ys. x ∷ ys) (status-cut xs past n (omega arith))

on_pipe-shown :
    (p : Parent) (bytes status : Bytes)
    → length bytes ≤ size
    → shown (bytes ++ drop (length bytes) p.buf) ≡ ok status
    → (q : Parent) × (on_pipe p (got bytes) ≡ ok q) × (q.statuses ≡ p.statuses ++ (status ∷ []))
unfolding on_pipe
on_pipe-shown p bytes status few e =
    let fits : leb (length bytes) size ≡ true = ground arith in
    (
      record p { buf = bytes ++ drop (length bytes) p.buf; statuses = p.statuses ++ (status ∷ []) },
      simp (fits, e) refl,
      refl,
    )

length-take : (n : ℕ) (text : Bytes) → n ≤ length text → length (take n text) ≡ n
length-take zero text le = refl
length-take (suc n) [] le = absurd (omega arith)
length-take (suc n) (x ∷ xs) le = ap suc (length-take n xs (omega arith))

-- A status that went into the pipe with its end is shown as it is, but nothing of what came in the
-- same read behind it. One that was cut before its end is shown with what the array held from there
-- on, up to a byte 0.
on_pipe_lem :
    (p : Parent) (text past more : Bytes) (n : ℕ) {old : Bytes}
    → IsText text
    → length (status_bytes text past n ++ more) ≤ size
    → (length text < n
        → (q : Parent) × (on_pipe p (got (status_bytes text past n ++ more)) ≡ ok q)
          × (q.statuses ≡ p.statuses ++ (text ∷ [])))
      × (n ≤ length text
          → more ≡ []
          → shown (drop n p.buf) ≡ ok old
          → (q : Parent) × (on_pipe p (got (status_bytes text past n ++ more)) ≡ ok q)
            × (q.statuses ≡ p.statuses ++ ((take n text ++ old) ∷ [])))
on_pipe_lem p text past more n {old} plain few = (
  λ lt. on_pipe-shown p (status_bytes text past n ++ more) text few (ended lt),
  λ le none_more e.
      on_pipe-shown p (status_bytes text past n ++ more) (take n text ++ old) few
        (cut le none_more e),
)
  where
    ended :
        length text < n
        → (let bytes = status_bytes text past n ++ more in
            shown (bytes ++ drop (length bytes) p.buf) ≡ ok text)
    ended lt =
        let bytes = status_bytes text past n ++ more in
        let (rest, e) = status-whole text past n lt in
        let after : Bytes = drop (length bytes) p.buf in
        ap shown (
          ap (λ b. (b ++ more) ++ after) e
          ∙ (append_assoc (text ++ (0 ∷ rest)) more after
              ∙ append_assoc text (0 ∷ rest) (more ++ after)))
        ∙ (shown_text text (0 ∷ (rest ++ (more ++ after))) {r = []} plain (unfold shown in refl)
            ∙ ap (λ t. ok t) (append-nil text))

    cut :
        n ≤ length text
        → more ≡ []
        → shown (drop n p.buf) ≡ ok old
        → (let bytes = status_bytes text past n ++ more in
            shown (bytes ++ drop (length bytes) p.buf) ≡ ok (take n text ++ old))
    cut le none_more e =
        let whole : status_bytes text past n ++ more ≡ take n text =
          ap (λ m. status_bytes text past n ++ m) none_more
          ∙ (append-nil (status_bytes text past n) ∙ status-cut text past n le) in
        ap (λ b. shown (b ++ drop (length b) p.buf)) whole
        ∙ (ap (λ k. shown (take n text ++ drop k p.buf)) (length-take n text le)
            ∙ shown_text (take n text) (drop n p.buf) (All-take (λ x. 0 < x) n text plain) e)

going_on : (b : Bool) (m n : Outcome Parent) → b ≡ true → (if b then m else n) ≡ m
going_on b m n e = rw e refl

-- Once the input of the parent process is at its end, the loop shows no status any more and never
-- ends, whatever the child sends: each round reads the end of the input again.
pub pipe_starved :
    (p : Parent) (pipes : List (Option ReadResult))
    → p.looping ≡ true
    → parent_loop p (map (λ pipe. (some [], pipe)) pipes) ≡ ok p
unfolding parent_loop parent_round
pipe_starved p [] on = refl
pipe_starved p (pipe ∷ pipes) on = going_on p.looping _ (ok p) on ∙ pipe_starved p pipes on
