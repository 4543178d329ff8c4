-- ===== src/Transfer/Handshake/Tests.antt =====
-- A handshake with two timeouts on each side.
use cse.Base.{◌%◌, ◌^◌, ◌≡◌, [], ◌∷◌, ◌++◌, replicate, All, false, arith}
use cse.Transfer.Handshake.{window_message, alarm_rings, window_comes, connected, handshake}
use cse.Transfer.Handshake.Agreed.{Leads, handshake_agrees}

handshake_agrees_example :
    (let done =
        handshake 40000
          (replicate 2 (alarm_rings false) ++ (window_comes (window_message 20) ∷ [])) in
      All (Leads 40000) done.0 × (done.1 ≡ connected (20 % 2 ^ 16)))
handshake_agrees_example = handshake_agrees 40000 20 2 (omega arith)
