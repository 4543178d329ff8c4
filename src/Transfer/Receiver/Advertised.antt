-- ===== src/Transfer/Receiver/Advertised.antt =====
-- The window that client.c advertises, as server.c reads it.
use cse.Base.{ℕ, ◌+◌, ◌%◌, ◌^◌, ◌≤◌, ◌<◌, ◌≡◌, htons, ntohs, arith}
use cse.Transfer.Receiver.{advertised}

-- The client subtracts the length of its list from its window after both are in network order. For a
-- length below 256, the server reads the difference when the length is at most the low byte of the
-- window, and otherwise 256 more.
pub advertised_lem :
    (window len : ℕ)
    → window < 2 ^ 16
    → len < 256
    → (len ≤ window % 256 → ntohs (advertised (htons window) len) + len ≡ window)
      × (window % 256 < len → ntohs (advertised (htons window) len) + len ≡ window + 256)
unfolding advertised htons ntohs
advertised_lem window len small short = (λ h. omega arith, λ h. omega arith)
