-- ===== src/Odr/Network/Discovery/Air.antt =====
-- Frames that a node has sent, and the round of a node that hears one.
use mathlib.Core.List.{append-nil}
use cse.Base.{
  ℕ, zero, suc, ◌+◌, ◌<◌, ◌≡◌, ◌≢◌, refl, sym, ap₂, subst, ◌∙◌, Bytes, List, [], ◌∷◌, ◌++◌, some,
  none, Option, false, ◌==◌, get_elem?, length, ok, Bool-cases, arith, inl, inr,
}
use cse.Odr.Types.{Rreq, rreq, Body, Frame, Action, Odr}
use cse.Odr.Local.{flood_all}
use cse.Odr.Request.{flood}
use cse.Odr.Data.{on_body, on_frames, round}
use cse.Odr.Network.{
  Topology, Joined, Transmission, Network, frames_of, Hears, Readable, after_round, Step,
  round_step,
}

-- A node sent a frame with this body on this socket.
pub record Aired (sent : List Transmission) (u i : ℕ) (b : Body) : Type 0 where
  pub at : ℕ
  pub what : Transmission
  pub there : get_elem? sent at ≡ some what
  pub node : what.node ≡ u
  pub socket : what.socket ≡ i
  pub body : what.frame.body ≡ b

later :
    {sent : List Transmission} {u i : ℕ} {b : Body} (x : Transmission)
    → Aired sent u i b
    → Aired (x ∷ sent) u i b
later x a = record {
  at = suc a.at;
  what = a.what;
  there = a.there;
  node = a.node;
  socket = a.socket;
  body = a.body;
}

pub now :
    {x : Transmission} {sent : List Transmission} {u i : ℕ} {b : Body}
    → x.node ≡ u
    → x.socket ≡ i
    → x.frame.body ≡ b
    → Aired (x ∷ sent) u i b
now {x} n s b = record { at = 0; what = x; there = refl; node = n; socket = s; body = b }

pub moved :
    {sent : List Transmission} {u i j : ℕ} {b : Body} → i ≡ j → Aired sent u i b → Aired sent u j b
moved e a = record {
  at = a.at;
  what = a.what;
  there = a.there;
  node = a.node;
  socket = a.socket ∙ e;
  body = a.body;
}

pub flood-Aired :
    (macs : List Bytes) (count skip u i : ℕ) (q : Rreq) (old : List Transmission)
    → i < length macs
    → skip ≢ count + i
    → Aired (frames_of u (flood macs count skip q) ++ old) u (count + i) (rreq q)
unfolding flood
flood-Aired [] count skip u i q old lt ne = absurd (omega arith)
flood-Aired (mac ∷ macs) count skip u zero q old lt ne =
    let p : (count == skip) ≡ false = ground arith in
    let e : count ≡ count + 0 = omega arith in rw p (now refl e refl)
flood-Aired (mac ∷ macs) count skip u (suc i) q old lt ne =
    let e : count + 1 + i ≡ count + suc i = omega arith in
    let rest =
      moved e (flood-Aired macs (count + 1) skip u i q old (omega arith) (λ h. ne (h ∙ e))) in
    elim (Bool-cases (count == skip)) [ inl p ↦ rw p rest | inr p ↦ rw p (later _ rest) ]

pub flood_all-Aired :
    (macs : List Bytes) (count u i : ℕ) (q : Rreq) (old : List Transmission)
    → i < length macs
    → Aired (frames_of u (flood_all macs count q) ++ old) u (count + i) (rreq q)
unfolding flood_all
flood_all-Aired [] count u i q old lt = absurd (omega arith)
flood_all-Aired (mac ∷ macs) count u zero q old lt =
    let e : count ≡ count + 0 = omega arith in now refl e refl
flood_all-Aired (mac ∷ macs) count u (suc i) q old lt =
    let e : count + 1 + i ≡ count + suc i = omega arith in
    later _ (moved e (flood_all-Aired macs (count + 1) u i q old (omega arith)))

-- One frame, on interface `k`.
pub at_interface : ℕ → Frame → List (Option Frame)
at_interface zero f = some f ∷ []
at_interface (suc k) f = none ∷ at_interface k f

on_frames-at :
    (s : Odr) (i k : ℕ) (f : Frame) {s' : Odr} {acts : List Action}
    → on_body s (i + k) f.src_mac f.body ≡ ok (s', acts)
    → on_frames s i (at_interface k f) ≡ ok (s', acts)
unfolding on_frames at_interface
on_frames-at s i zero f {s'} {acts} h =
    let e : i + 0 ≡ i = omega arith in
    let here : on_body s i f.src_mac f.body ≡ ok (s', acts) =
      subst (λ n. on_body s n f.src_mac f.body ≡ ok (s', acts)) e h in
    rw (here, append-nil acts) refl
on_frames-at s i (suc k) f {s'} {acts} h =
    let e : i + suc k ≡ i + 1 + k = omega arith in
    on_frames-at s (i + 1) k f (subst (λ n. on_body s n f.src_mac f.body ≡ ok (s', acts)) e h)

pub at_interface-Readable :
    (t : Topology) (sent : List Transmission) (u i k : ℕ) (f : Frame)
    → Hears t sent u (i + k) f
    → Readable t sent u i (at_interface k f)
unfolding at_interface
at_interface-Readable t sent u i zero f h =
    let e : i + 0 ≡ i = omega arith in (subst (λ n. Hears t sent u n f) e h, tt)
at_interface-Readable t sent u i (suc k) f h =
    let e : i + suc k ≡ i + 1 + k = omega arith in
    at_interface-Readable t sent u (i + 1) k f (subst (λ n. Hears t sent u n f) e h)

-- A node hears what another aired on its segment, and does a round with it.
pub hears_step :
    {t : Topology} {net : Network} {v k u i : ℕ} {b : Body}
    → Joined t v k u i
    → (a : Aired net.sent u i b) → (r : Odr × List Action)
    → on_body (net.odr v) k a.what.frame.src_mac b ≡ ok r
    → Step t net (after_round net v none r)
unfolding round
hears_step {t} {net} {v} {k} joined a r ran =
    let f : Frame = a.what.frame in
    let joined_there : Joined t v k a.what.node a.what.socket = record {
      shared = joined.shared;
      one = joined.one;
      other = ap₂ t.segment a.node a.socket ∙ joined.other;
    } in
    let z : k ≡ 0 + k = omega arith in
    let heard : Hears t net.sent v (0 + k) f = (
      a.at,
      a.what,
      a.there,
      refl,
      subst (λ n. Joined t v n a.what.node a.what.socket) z joined_there,
    ) in
    let ran_there : on_body (net.odr v) (0 + k) f.src_mac f.body ≡ ok r =
      ap₂ (λ n c. on_body (net.odr v) n f.src_mac c) (sym z) a.body ∙ ran in
    round_step v none (at_interface k f) r (at_interface-Readable t net.sent v 0 k f heard)
      (on_frames-at (net.odr v) 0 k f ran_there)
