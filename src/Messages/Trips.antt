-- ===== src/Messages/Trips.antt =====
-- What ODR.c reads of what a process has written with `msg_send`.
use cse.Base.{
  ℕ, ◌<◌, ◌^◌, ◌≡◌, refl, ap, ◌∙◌, Bytes, [], ◌∷◌, ◌++◌, none, some, false, All, blank, decimal,
  ◌==◌,
}
use mathlib.Core.List.{append_assoc}
use cse.Messages.{
  is_space, is_digit, skip, word, scan_int, number, Request, msg_send, scan_request, scan_word,
  put_addr, put_port, put_message, put_flag,
}
use cse.Messages.Digits.{NoDigitFirst, scan_int-decimal}

abbrev pub NoSpace : ℕ → Type 0
NoSpace k = is_space k ≡ false

-- A string that `%s` reads as a whole.
abbrev pub IsWord : Bytes → Type 0
IsWord [] = ⊥
IsWord (c ∷ cs) = NoSpace c × All NoSpace cs

skip-blank : (cs : Bytes) → skip (blank ++ cs) ≡ skip cs
unfolding skip is_space
skip-blank cs = refl

word-append : (xs cs : Bytes) → All NoSpace xs → word (xs ++ (blank ++ cs)) ≡ (xs, blank ++ cs)
unfolding word
word-append [] cs a = unfold is_space in refl
word-append (x ∷ xs) cs a = rw (a.0, word-append xs cs a.1) refl

pub scan_word-word :
    (xs cs : Bytes) → IsWord xs → scan_word (skip (xs ++ (blank ++ cs))) ≡ some (xs, blank ++ cs)
unfolding skip
scan_word-word [] cs w = absurd w
scan_word-word (x ∷ xs) cs w = rw w.0 (ap some (word-append (x ∷ xs) cs w))

msg_send-append :
    (r : Request) (tail : Bytes)
    → msg_send r ++ tail
      ≡ r.dst_addr
        ++ (blank
            ++ (decimal r.dst_port
                ++ (blank ++ (r.message ++ (blank ++ (decimal r.flag ++ tail))))))
unfolding msg_send
msg_send-append r tail = simp append_assoc refl

pub blank_int :
    (n : ℕ) (cs : Bytes)
    → n < 2 ^ 32
    → NoDigitFirst cs
    → scan_int (skip (blank ++ (decimal n ++ cs))) ≡ some (n, cs)
blank_int n cs h k =
    let (kept, found) = scan_int-decimal n cs h k in
    ap scan_int (skip-blank (decimal n ++ cs) ∙ kept) ∙ found

pub blank_word :
    (w cs : Bytes)
    → IsWord w
    → scan_word (skip (blank ++ (w ++ (blank ++ cs)))) ≡ some (w, blank ++ cs)
blank_word w cs is_word =
    ap scan_word (skip-blank (w ++ (blank ++ cs))) ∙ scan_word-word w cs is_word

-- A character that begins no number and is no white space.
abbrev pub IsPlain : ℕ → Type 0
IsPlain c = NoSpace c × (is_digit c ≡ false) × ((c == 45) ≡ false) × ((c == 43) ≡ false)

-- A request whose address and message are words is read as it was written, also if the buffer goes on with what an earlier datagram left there, unless that
-- begins with a digit: the text has no terminator.
pub scan_request-msg_send :
    (old r : Request) (tail : Bytes)
    → IsWord r.dst_addr
    → IsWord r.message
    → r.dst_port < 2 ^ 32
    → r.flag < 2 ^ 32
    → NoDigitFirst tail
    → scan_request old (msg_send r ++ tail) ≡ r
unfolding scan_request
scan_request-msg_send old r tail is_addr is_word port flag rest =
    let r1 : Request = record old { dst_addr = r.dst_addr } in
    let r2 : Request = record r1 { dst_port = r.dst_port } in
    let r3 : Request = record r2 { message = r.message } in
    let end : Bytes = decimal r.flag ++ tail in
    let text : Bytes = r.message ++ (blank ++ end) in
    ap (scan_request old) (msg_send-append r tail)
    ∙ (ap (put_addr old) (scan_word-word r.dst_addr (decimal r.dst_port ++ (blank ++ text)) is_addr)
        ∙ (ap (put_port r1) (blank_int r.dst_port (blank ++ text) port (unfold is_digit in refl))
            ∙ (ap (put_message r2) (blank_word r.message end is_word)
                ∙ ap (put_flag r3) (blank_int r.flag tail flag rest))))

not_number : (c : ℕ) (cs : Bytes) → IsPlain c → scan_int (skip (blank ++ (c ∷ cs))) ≡ none
not_number c cs (space, digit, minus, plus) =
    let kept : skip (c ∷ cs) ≡ c ∷ cs = unfold skip in rw space refl in
    let unread : scan_int (c ∷ cs) ≡ none =
      unfold scan_int number in rw (minus, plus, digit) refl in
    ap scan_int (skip-blank (c ∷ cs) ∙ kept) ∙ unread

cut_text :
    (r : Request) (w cs tail : Bytes) (c : ℕ)
    → r.message ≡ w ++ (blank ++ (c ∷ cs))
    → msg_send r ++ tail
      ≡ r.dst_addr
        ++ (blank
            ++ (decimal r.dst_port
                ++ (blank ++ (w ++ (blank ++ (c ∷ (cs ++ (blank ++ (decimal r.flag ++ tail)))))))))
cut_text r w cs tail c text =
    msg_send-append r tail
    ∙ ap (λ m. r.dst_addr ++ (blank ++ (decimal r.dst_port ++ (blank ++ m))))
        (ap (λ m. m ++ (blank ++ (decimal r.flag ++ tail))) text
          ∙ append_assoc w (blank ++ (c ∷ cs)) (blank ++ (decimal r.flag ++ tail)))

-- A message that goes on after a blank with another word, which is no number, is cut at the blank,
-- and the flag is not read: it stays what the request before had. The answer of the server, a date,
-- is such a message.
pub message_cut :
    (old r : Request) (w cs tail : Bytes) (c : ℕ)
    → IsWord r.dst_addr
    → IsWord w
    → r.message ≡ w ++ (blank ++ (c ∷ cs))
    → IsPlain c
    → r.dst_port < 2 ^ 32
    → scan_request old (msg_send r ++ tail) ≡ record r { message = w; flag = old.flag }
unfolding scan_request
message_cut old r w cs tail c is_addr is_word text plain port =
    let r1 : Request = record old { dst_addr = r.dst_addr } in
    let r2 : Request = record r1 { dst_port = r.dst_port } in
    let r3 : Request = record r2 { message = w } in
    let end : Bytes = cs ++ (blank ++ (decimal r.flag ++ tail)) in
    let body : Bytes = w ++ (blank ++ (c ∷ end)) in
    ap (scan_request old) (cut_text r w cs tail c text)
    ∙ (ap (put_addr old) (scan_word-word r.dst_addr (decimal r.dst_port ++ (blank ++ body)) is_addr)
        ∙ (ap (put_port r1) (blank_int r.dst_port (blank ++ body) port (unfold is_digit in refl))
            ∙ (ap (put_message r2) (blank_word w (c ∷ end) is_word)
                ∙ ap (put_flag r3) (not_number c end plain))))
