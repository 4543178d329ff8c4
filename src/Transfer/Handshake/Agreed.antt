-- ===== src/Transfer/Handshake/Agreed.antt =====
-- What client.c and server.c of Assignment 2/Code agree on.
use cse.Base.{
  ℕ, zero, suc, ◌+◌, ◌%◌, ◌^◌, ◌<◌, ◌≡◌, refl, ap, ◌∙◌, Bytes, List, [], ◌∷◌, ◌++◌, map, replicate,
  length, none, some, Bool, true, false, if◌then◌else◌, htons, ntohs, All, arith,
}
use cse.Transfer.Handshake.{
  ask, connect_port, window_message, Notice, by_listening, by_child, alarm_rings, window_comes,
  connected, await_client, handshake,
}

-- A notice of a port.
abbrev pub port_of : Notice → ℕ
port_of (by_listening port) = port
port_of (by_child port) = port

-- The client connects to the port of a notice.
abbrev pub Leads : ℕ → Notice → Type 0
Leads sin_port notice = connect_port (port_of notice) ≡ sin_port

swap_back : (n : ℕ) → n < 2 ^ 16 → htons (htons n) ≡ n
unfolding htons
swap_back n h = omega arith

cut_window : (w : ℕ) → ntohs (htons w) ≡ w % 2 ^ 16
unfolding ntohs htons
cut_window w = omega arith

alarms-Leads :
    (sin_port w n : ℕ)
    → connect_port (htons sin_port) ≡ sin_port
    → All
        (Leads sin_port)
        (await_client (htons sin_port) (replicate n (alarm_rings false) ++ (window_comes w ∷ []))).0
unfolding await_client
alarms-Leads sin_port w zero e = tt
alarms-Leads sin_port w (suc n) e = (e, (e, alarms-Leads sin_port w n e))

alarms-connected :
    (port w n : ℕ)
    → (await_client port (replicate n (alarm_rings false) ++ (window_comes w ∷ []))).1
      ≡ connected (ntohs w)
unfolding await_client
alarms-connected port w zero = refl
alarms-connected port w (suc n) = alarms-connected port w n

-- After any number of alarms that do not make the server give up, it hears the window: every notice
-- that it has sent leads the client to the port of the child's socket, and the window of the server
-- is that of the client's configuration, modulo 2 ^ 16.
pub handshake_agrees :
    (sin_port recv_window n : ℕ)
    → sin_port < 2 ^ 16
    → (let done =
          handshake sin_port
            (replicate n (alarm_rings false) ++ (window_comes (window_message recv_window) ∷ [])) in
        All (Leads sin_port) done.0 × (done.1 ≡ connected (recv_window % 2 ^ 16)))
unfolding handshake connect_port window_message
handshake_agrees sin_port recv_window n small =
    let e = swap_back sin_port small in
    (
      (e, alarms-Leads sin_port (htons recv_window) n e),
      alarms-connected (htons sin_port) (htons recv_window) n
          ∙ ap connected (cut_window recv_window),
    )

-- How many requests went out.
abbrev pub gone : List Bool → ℕ
gone [] = 0
gone (goes ∷ rest) = (if goes then 1 else 0) + gone rest

ask_again :
    (filename : Bytes) (tv port : ℕ) (goes : List Bool)
    → (let r = ask filename tv (map (λ g. (g, none)) goes ++ ((true, some port) ∷ [])) in
        (r.sent ≡ replicate (gone goes + 1) filename)
        × (r.waits ≡ tv ∷ replicate (length goes) 0)
        × (r.told ≡ some port))
unfolding ask
ask_again filename tv port [] = (refl, refl, refl)
ask_again filename tv port (true ∷ goes) =
    let (sent, waits, told) = ask_again filename 0 port goes in
    let count : suc (gone goes + 1) ≡ 1 + gone goes + 1 = omega arith in
    (
      ap (λ xs. filename ∷ xs) sent ∙ ap (λ n. replicate n filename) count,
      ap (λ ws. tv ∷ ws) waits,
      told,
    )
ask_again filename tv port (false ∷ goes) =
    let (sent, waits, told) = ask_again filename 0 port goes in
    let count : gone goes + 1 ≡ 0 + gone goes + 1 = omega arith in
    (sent ∙ ap (λ n. replicate n filename) count, ap (λ ws. tv ∷ ws) waits, told)

-- The client is not told a port for some rounds, and then it is, after a request that goes out. It
-- has sent the file name once for each round in which the loss simulation let it go, and takes the
-- port. But only the first wait has its three seconds: those after a timeout have none, since
-- `select` has used the time up and the loop does not set it again.
ask_lem :
    (filename : Bytes) (port : ℕ) (goes : List Bool)
    → (let r = ask filename 3 (map (λ g. (g, none)) goes ++ ((true, some port) ∷ [])) in
        (r.sent ≡ replicate (gone goes + 1) filename)
        × (r.waits ≡ 3 ∷ replicate (length goes) 0)
        × (r.told ≡ some port))
ask_lem filename port goes = ask_again filename 3 port goes
