-- ===== src/Tour/Ending.antt =====
-- The pings of a node of tour.c, the end of the tour at its last node, and the end of the process.
use cse.Base.{
  ℕ, zero, suc, ◌+◌, ◌<◌, ◌≡◌, ◌≢◌, refl, sym, ap, subst, List, [], ◌∷◌, ◌++◌, map, arith,
}
use cse.Tour.{
  Ping, Tour, Call, sig_alrm, on_multicast, first_count, count_up, echo_of, end_text, member_text,
  multicast, alarm, exit,
}

-- The state after `n` alarms.
abbrev pub ticks : ℕ → Tour → Tour
ticks zero t = t
ticks (suc n) t = ticks n (sig_alrm t).0

-- What an alarm does that pings: a line for each node, and the next alarm.
abbrev pub IsPinging : Tour → Type 0
IsPinging t = (sig_alrm t).1 ≡ map echo_of t.pings ++ (alarm 1 ∷ [])

first-count_up :
    (p : Ping) (ps : List Ping) → first_count (map count_up (p ∷ ps)) ≡ first_count (p ∷ ps) + 1
unfolding first_count
first-count_up p ps = refl

-- An alarm before the process has heard of the end, at another count than 5.
ping_step :
    (t : Tour) (p : Ping) (ps : List Ping)
    → t.option ≡ 0
    → t.pings ≡ p ∷ ps
    → p.cnt ≢ 5
    → sig_alrm t
      ≡ (record t { pings = map count_up t.pings }, map echo_of t.pings ++ (alarm 1 ∷ []))
unfolding sig_alrm first_count
ping_step t p ps o e ne = rw e (ground arith)

end_step :
    (t : Tour) (p : Ping) (ps : List Ping)
    → t.option ≡ 0
    → t.last_node ≡ 1
    → t.pings ≡ p ∷ ps
    → p.cnt ≡ 5
    → sig_alrm t ≡ (t, multicast (end_text t.node) ∷ [])
unfolding sig_alrm first_count
end_step t p ps o l e five = rw e (ground arith)

now_or_later :
    (n : ℕ) (t : Tour) {u : Tour}
    → ((k : ℕ) → k < n → IsPinging (ticks k u))
    → u ≡ (sig_alrm t).0
    → IsPinging t
    → (k : ℕ) → k < suc n
    → IsPinging (ticks k t)
now_or_later n t later moved now zero lt = now
now_or_later n t later moved now (suc k) lt =
    subst (λ (v : Tour). IsPinging (ticks k v)) moved (later k (omega arith))

-- The last node, before it has heard of the end, with `n` pings still to come for the node that it
-- pings first: each of the next `n` alarms pings and sets another alarm, and the one after them
-- multicasts the end of the tour.
pub tour_ends :
    (n : ℕ) (t : Tour) (p : Ping) (ps : List Ping)
    → t.option ≡ 0
    → t.last_node ≡ 1
    → t.pings ≡ p ∷ ps
    → p.cnt + n ≡ 5
    → ((k : ℕ) → k < n → IsPinging (ticks k t))
      × (sig_alrm (ticks n t) ≡ (ticks n t, multicast (end_text t.node) ∷ []))
tour_ends zero t p ps o l e five =
    (λ k lt. absurd (omega arith), end_step t p ps o l e (omega arith))
tour_ends (suc n) t p ps o l e five =
    let step = ping_step t p ps o e (λ q. absurd (omega (arith, five, q))) in
    let moved = sym (ap (λ (r : Tour × List Call). r.0) step) in
    let (pinging, ended) =
      tour_ends n (record t { pings = map count_up t.pings }) (count_up p) (map count_up ps) o l
        (ap (map count_up) e) (omega (arith, five)) in
    (
      λ k lt. now_or_later n t pinging moved (ap (λ (r : Tour × List Call). r.1) step) k lt,
      subst (λ (v : Tour). sig_alrm (ticks n v) ≡ (ticks n v, multicast (end_text t.node) ∷ []))
          moved ended,
    )

-- A node at which the count of the pings of its first node has passed 5 never multicasts the end of
-- the tour, the last node included: every alarm pings and sets another one.
never_ends :
    (n : ℕ) (t : Tour) (p : Ping) (ps : List Ping)
    → t.option ≡ 0
    → t.pings ≡ p ∷ ps
    → 5 < p.cnt
    → IsPinging (ticks n t)
never_ends zero t p ps o e past =
    ap (λ (r : Tour × List Call). r.1) (ping_step t p ps o e (λ q. absurd (omega (arith, past, q))))
never_ends (suc n) t p ps o e past =
    let step = ping_step t p ps o e (λ q. absurd (omega (arith, past, q))) in
    subst (λ (v : Tour). IsPinging (ticks n v)) (sym (ap (λ (r : Tour × List Call). r.0) step))
      (never_ends n (record t { pings = map count_up t.pings }) (count_up p) (map count_up ps) o
        (ap (map count_up) e) (omega (arith, past)))

-- A multicast packet at a node that has heard of no end yet: the node says that it is a member, and
-- its next alarm ends the process; a second multicast packet does nothing.
group_leaves :
    (t : Tour)
    → t.option ≡ 0
    → ((on_multicast t).1 ≡ multicast (member_text t.node) ∷ alarm 5 ∷ [])
      × (sig_alrm (on_multicast t).0 ≡ ((on_multicast t).0, exit ∷ []))
      × (on_multicast (on_multicast t).0 ≡ ((on_multicast t).0, []))
unfolding on_multicast sig_alrm
group_leaves t o = (ground arith, ground arith, ground arith)
