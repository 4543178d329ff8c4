-- ===== src/Odr/Reply.antt =====
-- What ODR.c does with an RREP that it receives.
use cse.Base.{
  ℕ, ◌+◌, ◌-◌, Bytes, List, [], ◌∷◌, ◌++◌, codes, blank, decimal, if◌then◌else◌, same, u32, htonl,
  ntohl, Outcome, ok, ◌>>=◌, ◌‼◌,
}
use cse.Odr.Types.{Rrep, rrep, Action, send_frame, send_local, proto_bits, Odr}
use cse.Odr.Routes.{find_route, learn_forward, if_mac}
use cse.Odr.Ports.{find_port}

-- `sprintf(data, "%s %s %d", "HI", RRP->src_addr, 5000)`
unfoldable pub reply_text : Rrep → Bytes
reply_text r = codes "HI" ++ (blank ++ (r.src_addr ++ (blank ++ decimal 5000)))

-- This node asked: the local client that has the port is told.
unfoldable pub tell_client : Odr → Rrep → Outcome (Odr × List Action)
tell_client s r =
    find_port (ntohl r.dst_port) s.port_table (s.port_cnt + 1) s.local_path >>= λ path.
    ok (record s { local_path = path }, send_local path (reply_text r) ∷ [])

-- The RREP goes on along the reverse path, one hop more.
unfoldable pub relay_rrep : Odr → Rrep → Outcome (Odr × List Action)
relay_rrep s r = s.routing_table ‼ find_route r.dst_addr s.routing_table >>= λ e.
    if_mac s.if_macs e.outgoing_if >>= λ own. ok (
      s,
      send_frame (e.outgoing_if - 3) e.outgoing_if e.next_hop (record {
        dst_mac = e.next_hop;
        src_mac = own;
        proto = proto_bits;
        body = rrep (record r { hop_cnt = htonl (u32 (ntohl r.hop_cnt + 1)) });
      })
          ∷ [],
    )

-- An RREP from `mac` on interface number `index`.
unfoldable pub on_rrep : Odr → ℕ → Bytes → Rrep → Outcome (Odr × List Action)
on_rrep s0 index mac r =
    let s = record s0 { routing_table = learn_forward s0.routing_table r index mac } in
    if same r.dst_addr s.node_addr then tell_client s r else relay_rrep s r
