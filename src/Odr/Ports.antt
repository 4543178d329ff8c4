-- ===== src/Odr/Ports.antt =====
-- The port table of ODR.c.
use cse.Base.{
  ℕ, zero, suc, Bytes, List, [], ◌∷◌, ◌==◌, if◌then◌else◌, same, Outcome, ok, fault, ◌>>=◌,
}
use cse.Odr.Types.{PortEntry}

-- The loop `for(index=0; index<=port_cnt; index++)` that looks for a path, with the rounds left.
unfoldable pub find_path : Bytes → List PortEntry → ℕ → Outcome ℕ
find_path path t zero = ok 0
find_path path [] (suc n) = fault
find_path path (e ∷ es) (suc n) =
    let rest = find_path path es n in
    if same e.sun_path path then ok 0 else (rest >>= λ index. ok (suc index))

-- The loop that looks for the local process of a port: the new value of `localaddr.sun_path`, which
-- stays as it is if no entry has the port.
unfoldable pub find_port : ℕ → List PortEntry → ℕ → Bytes → Outcome Bytes
find_port port t zero path = ok path
find_port port [] (suc n) path = fault
find_port port (e ∷ es) (suc n) path =
    let rest = find_port port es n path in if e.port == port then ok e.sun_path else rest
