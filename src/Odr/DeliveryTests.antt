-- ===== src/Odr/DeliveryTests.antt =====
-- Runs of the delivery of ODR.c on concrete inputs, and the theorems at such inputs.
use cse.Base.{◌+◌, ◌<◌, ◌^◌, ◌≡◌, [], ◌∷◌, All, arith, ok, take}
use cse.Odr.Types.{PortEntry, send_local}
use cse.Odr.Local.{first_rreq}
use cse.Odr.Request.{own_reply, known_reply}
use cse.Odr.Reply.{reply_text, tell_client}
use cse.Odr.Data.{start}
use cse.Odr.Delivery.{reply_goes_astray}
use cse.Odr.Tests.{fresh, asks, fresh-IsValid}

small_ports : All (λ (e : PortEntry). e.port < 2 ^ 16) (take (fresh.port_cnt + 1) fresh.port_table)
unfolding start
small_ports = omega arith

reply_goes_astray_example :
    let own = own_reply (first_rreq fresh asks 6000) in
    let known = known_reply (first_rreq fresh asks 6000) 2 in
    (tell_client fresh own ≡ ok (fresh, send_local fresh.local_path (reply_text own) ∷ []))
    × (tell_client fresh known ≡ ok (fresh, send_local fresh.local_path (reply_text known) ∷ []))
reply_goes_astray_example =
    reply_goes_astray fresh fresh asks 6000 2 fresh-IsValid (omega arith) (omega arith) small_ports
