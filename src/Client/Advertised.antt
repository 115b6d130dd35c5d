-- ===== src/Client/Advertised.antt =====
-- What the isolated reference discovery writes (internal/spokes/spokes.go), read by readAdv
-- (internal/integration/parse.go).
use mathlib.Core.Path.{subst}
use spokes_receive_pack.Base.{
  ◌+◌, ◌≤◌, false, List, [], ◌∷◌, ◌++◌, none, ◌≡◌, ap, ◌∙◌, Bytes, codes, length, All-append,
  append_assoc, All, map,
}
use spokes_receive_pack.Base.Exec.{Result, ok, Error}
use spokes_receive_pack.Pktline.Reads.{from}
use spokes_receive_pack.Spokes.Discovery.{Announcement, Advert, discover}
use spokes_receive_pack.Spokes.Discovery.Announced.{announced, Advertisable, state}
use spokes_receive_pack.Spokes.Discovery.Advertises.{
  visible_reply, unhidden_reply, parent_reply, advertisement, discover-holding,
}
use spokes_receive_pack.Client.{read_adv}
use spokes_receive_pack.ObjectFormat.{null_oid}
use spokes_receive_pack.Client.Refs.{Ref, line, IsNamed, Distinct, named, read_adv-announced}

-- If git answers, without an error, with the lines of references of different names, at least one,
-- that fit beside the capabilities, where an id has 40 bytes without a space, a name no newline
-- and a line no zero byte, and the null id fits too, then the isolated reference discovery writes
-- an output from which the client of the integration tests, with any bytes behind it, reads
-- exactly these references, in order, and the capabilities, and leaves the bytes behind.
pub discover-read_adv :
    (a : Announcement) (visible unhidden parent : List Bytes) (r : Ref) (rs : List Ref)
    (rest : Bytes) (e x : Error)
    → visible_reply a ≡ (visible, none)
    → unhidden_reply a ≡ (unhidden, none)
    → parent_reply a ≡ (parent, none)
    → visible ++ (unhidden ++ parent) ≡ map line (r ∷ rs)
    → All (Advertisable a.capabilities) visible
    → All (Advertisable a.capabilities) unhidden
    → All (Advertisable a.capabilities) parent
    → length (null_oid a.object_format) + length a.capabilities ≤ 65499
    → All IsNamed (r ∷ rs)
    → Distinct (r ∷ rs)
    → ((discover a (state [] e false)).0 ≡ ok tt)
      × (read_adv (from ((discover a (state [] e false)).1.writer.out ++ rest) x)
          ≡ (ok (named (r ∷ rs), a.capabilities ++ b'\n' ∷ []), from rest x))
discover-read_adv a xs ys zs r rs rest e x p q t l hx hy hz b h d =
    let done = discover-holding a [] e xs ys zs p q t hx hy hz b in
    let fits : All (Advertisable a.capabilities) (map line (r ∷ rs)) =
      subst (All (Advertisable a.capabilities)) l
        (All-append _ xs (ys ++ zs) hx (All-append _ ys zs hy hz)) in
    let sent_all = announced false a.capabilities (map line (r ∷ rs)) in
    (
      ap (λ (o : Result (Unit {0}) × Advert). o.0) done,
      ap (λ (o : Result (Unit {0}) × Advert). read_adv (from (o.1.writer.out ++ rest) x)) done
          ∙ ap
              (λ (ls : List Bytes).
                read_adv (from ((advertisement a ls ++ codes "0000") ++ rest) x))
              l
          ∙ ap (λ (o : Bytes). read_adv (from o x)) (append_assoc sent_all (codes "0000") rest)
          ∙ read_adv-announced r rs a.capabilities rest x h d fits,
    )
