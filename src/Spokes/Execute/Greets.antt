-- ===== src/Spokes/Execute/Greets.antt =====
-- What execute sends before it reads the commands (internal/spokes/spokes.go).
use spokes_receive_pack.Base.{
  ◌+◌, ◌≤◌, ◌||◌, not, Bool, true, false, List, [], ◌++◌, ◌≡◌, refl, Bytes, codes, arith, length,
  All, none, append-nil, ℕ,
}
use spokes_receive_pack.Base.Exec.{ok, Error}
use spokes_receive_pack.ObjectFormat.{null_oid}
use spokes_receive_pack.Pktline.{Pktline}
use spokes_receive_pack.Sockstat.{get_bool}
use spokes_receive_pack.Spokes.Discovery.Advertises.{
  visible_reply, unhidden_reply, parent_reply, advertisement, discover-holding,
}
use spokes_receive_pack.Spokes.Discovery.Announced.{Advertisable}
use spokes_receive_pack.Spokes.Execute.{Session, on_advert, discovery_phase}
use spokes_receive_pack.Spokes.Execute.Packs.{connection}

-- The discovery succeeds and writes this, on any connection.
abbrev pub Greets : Session → Bytes → Type 0
Greets r greeting =
    (pl : Pktline) (bytes o : Bytes) (e f : Error) (q : Bool) (n : ℕ)
    → discovery_phase r (connection pl bytes e o f q n)
      ≡ (ok tt, connection pl bytes e (o ++ greeting) f q n)

-- A push over a stateless connection begins with the commands.
pub stateless-Greets :
    (r : Session) → r.stateless_rpc ≡ true → r.advertise_refs ≡ false → Greets r []
unfolding discovery_phase
stateless-Greets r s a pl bytes o e f q n = simp (s, a) (rw append-nil refl)

-- If the references are to be announced, the isolated reference discovery is chosen, and git answers
-- with lines that fit, then their announcement is sent first.
pub isolated-Greets :
    (r : Session) (visible unhidden parent : List Bytes)
    → r.stateless_rpc ≡ false
    → get_bool r.announcement.env (codes "spokes_receive_pack_isolated_reference_discovery") ≡ true
    → visible_reply r.announcement ≡ (visible, none)
    → unhidden_reply r.announcement ≡ (unhidden, none)
    → parent_reply r.announcement ≡ (parent, none)
    → All (Advertisable r.announcement.capabilities) visible
    → All (Advertisable r.announcement.capabilities) unhidden
    → All (Advertisable r.announcement.capabilities) parent
    → length (null_oid r.announcement.object_format) + length r.announcement.capabilities ≤ 65499
    → Greets r (advertisement r.announcement (visible ++ (unhidden ++ parent)) ++ codes "0000")
unfolding on_advert discovery_phase
isolated-Greets r xs ys zs s i p q k hx hy hz b pl bytes o e f d n =
    let chosen : (r.advertise_refs || not r.stateless_rpc) ≡ true = ground (arith, s) in
    rw (discovery_phase, chosen, i)
      (unfold on_advert in rw (discover-holding r.announcement o f xs ys zs p q k hx hy hz b) refl)
