-- ===== src/Transfer/Sender/Congestion.antt =====
-- How the congestion window of server.c grows under acknowledgements.
use cse.Base.{ℕ, zero, suc, ◌+◌, ◌≤◌, ◌<◌, ◌≡◌, refl, ap, ◌∙◌, arith}
use cse.Transfer.Sender.{Sender, grow}

-- `n` acknowledgements.
abbrev pub grow_times : ℕ → Sender → Sender
grow_times zero s = s
grow_times (suc n) s = grow_times n (grow s)

slow_step : (s : Sender) → s.cwnd < s.ssh → grow s ≡ record s { cwnd = s.cwnd + 1 }
unfolding grow
slow_step s h = ground arith

slow_start :
    (n : ℕ) (s : Sender) → s.cwnd + n ≤ s.ssh → grow_times n s ≡ record s { cwnd = s.cwnd + n }
slow_start zero s h = ground arith
slow_start (suc n) s h =
    rw (slow_step s (omega arith), slow_start n (record s { cwnd = s.cwnd + 1 }) (omega arith))
      (ground arith)

avoid_step :
    (s : Sender)
    → s.ssh ≤ s.cwnd
    → s.congestion_avoid_count + 1 < s.cwnd
    → grow s ≡ record s { congestion_avoid_count = s.congestion_avoid_count + 1 }
unfolding grow
avoid_step s h k = ground arith

avoid_last :
    (s : Sender)
    → s.ssh ≤ s.cwnd
    → s.congestion_avoid_count + 1 ≡ s.cwnd
    → grow s ≡ record s { cwnd = s.cwnd + 1; congestion_avoid_count = 0 }
unfolding grow
avoid_last s h k = ground arith

avoidance :
    (n : ℕ) (s : Sender)
    → s.ssh ≤ s.cwnd
    → s.congestion_avoid_count + suc n ≡ s.cwnd
    → grow_times (suc n) s ≡ record s { cwnd = s.cwnd + 1; congestion_avoid_count = 0 }
avoidance zero s h k = avoid_last s h (omega arith)
avoidance (suc n) s h k = rw (avoid_step s h (omega arith)) (
    avoidance n (record s { congestion_avoid_count = s.congestion_avoid_count + 1 }) h
      (omega arith))

stuck_step :
    (s : Sender)
    → s.ssh ≤ s.cwnd
    → s.cwnd ≤ s.congestion_avoid_count
    → grow s ≡ record s { congestion_avoid_count = s.congestion_avoid_count + 1 }
unfolding grow
stuck_step s h k = ground arith

-- How the congestion window grows. In slow start every acknowledgement adds 1 to it. From `ssh` on,
-- it grows by 1 when as many acknowledgements have come as it is large, if the count of them is
-- below it to begin with.
grow_lem :
    (s : Sender) (n : ℕ)
    → (s.cwnd + n ≤ s.ssh → grow_times n s ≡ record s { cwnd = s.cwnd + n })
      × (s.ssh ≤ s.cwnd
          → s.congestion_avoid_count + suc n ≡ s.cwnd
          → grow_times (suc n) s ≡ record s { cwnd = s.cwnd + 1; congestion_avoid_count = 0 })
grow_lem s n = (slow_start n s, avoidance n s)

-- Where the count has come to the size of the congestion window or past it, which no timeout and no
-- fast retransmit sets back, no number of acknowledgements makes the window grow again.
growth_stops :
    (n : ℕ) (s : Sender)
    → s.ssh ≤ s.cwnd
    → s.cwnd ≤ s.congestion_avoid_count
    → (grow_times n s).cwnd ≡ s.cwnd
growth_stops zero s h k = refl
growth_stops (suc n) s h k =
    ap (λ (t : Sender). (grow_times n t).cwnd) (stuck_step s h k)
    ∙ growth_stops n (record s { congestion_avoid_count = s.congestion_avoid_count + 1 }) h
        (omega arith)
