-- ===== src/Odr/Network/Discovery/Leads.antt =====
-- Routes of one node after the other that lead to an address.
use cse.Base.{
  ℕ, ◌<◌, ◌≡◌, ◌≢◌, refl, sym, subst, Bytes, List, [], ◌∷◌, false, true, ◌==◌, length, arith,
}
use cse.Odr.Types.{Odr}
use cse.Odr.Network.{Topology, Joined, put_node}
use cse.Odr.Network.Discovery.{Apart, HasServer, RoutesTo}

pub put_other : (v w : ℕ) (s : Odr) (odr : ℕ → Odr) → w ≢ v → put_node v s odr w ≡ odr w
put_other v w s odr ne = let p : (w == v) ≡ false = ground arith in rw p refl

pub put_same : (v : ℕ) (s : Odr) (odr : ℕ → Odr) → put_node v s odr v ≡ s
put_same v s odr = let p : (v == v) ≡ true = ground arith in rw p refl

-- The node has this address and its local server.
pub record Home (t : Topology) (dst : Bytes) (v : ℕ) (s : Odr) : Type 0 where
  pub own : s.node_addr ≡ t.addr v
  pub here : t.addr v ≡ dst
  pub server : HasServer s

-- From interface `i` of node `u` on, each node has a route over its next interface, and the last is
-- the one with the address.
pub data Leads (t : Topology) (dst : Bytes) (odr : ℕ → Odr) : (u i : ℕ) → List ℕ → Type 0 where
  leads_home :
      {u i : ℕ} (v k : ℕ) → Joined t u i v k → Home t dst v (odr v) → Leads t dst odr u i (v ∷ [])
  leads_on :
      {u i : ℕ} (v k i' : ℕ) {nodes : List ℕ}
      → Joined t u i v k
      → RoutesTo t dst v i' (odr v)
      → t.addr v ≢ dst
      → i' < length (t.macs v)
      → Apart v nodes
      → Leads t dst odr v i' nodes
      → Leads t dst odr u i (v ∷ nodes)

-- A change of another node leaves the routes.
pub Leads-other :
    {t : Topology} {dst : Bytes} {odr : ℕ → Odr} {u i : ℕ} {nodes : List ℕ} (w : ℕ) (s : Odr)
    → Apart w nodes
    → Leads t dst odr u i nodes
    → Leads t dst (put_node w s odr) u i nodes
Leads-other {t} {dst} {odr} w s apart (leads_home v k joined home) =
    leads_home v k joined
      (subst (Home t dst v) (sym (put_other w v s odr (λ e. apart.0 (sym e)))) home)
Leads-other {t} {dst} {odr} w s apart (leads_on v k i' joined routes away lt far rest) =
    leads_on v k i' joined
      (subst (RoutesTo t dst v i') (sym (put_other w v s odr (λ e. apart.0 (sym e)))) routes) away
      lt far (Leads-other w s apart.1 rest)
