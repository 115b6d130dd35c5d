-- ===== src/Spokes/Discovery/Advertises.antt =====
-- What the reference discovery sends: each reference in its packet, the capabilities once.
use spokes_receive_pack.Base.{
  ℕ, ◌+◌, ◌≤◌, Bool, false, List, [], ◌∷◌, ◌++◌, ◌≡◌, refl, ap, ◌∙◌, arith, Bytes, codes, length,
  All, map, append_assoc, append-nil, length-append, Option, none, ◌==◌, if◌then◌else◌, Bool-cases,
  inl, inr,
}
use spokes_receive_pack.Base.Exec.{Result, ok, err, spent, Error}
use spokes_receive_pack.Go.Writer.{write-holding}
use spokes_receive_pack.ObjectFormat.{null_oid}
use spokes_receive_pack.Pktline.Reads.{frame}
use spokes_receive_pack.Sockstat.{get_uint32}
use spokes_receive_pack.Spokes.Discovery.Announced.{
  state, announced, sent, Advertisable, announced-append, sent-append, run_pipe-holding,
}
use spokes_receive_pack.Spokes.Packet.Written.{write_packet-fits}
use spokes_receive_pack.Spokes.HiddenRefs.{get_hidden_refs, split_rules}
use spokes_receive_pack.Spokes.Discovery.{
  Advert, Announcement, run_pipe, advertise_unhidden, advertise_network, advertise_parent,
  lonely_capabilities, discover, ref_format, parent_patterns,
}

-- What git answers for the references that no rule hides.
abbrev pub visible_reply : Announcement → List Bytes × Option Error
visible_reply a = a.git.for_each_ref (
    codes "for-each-ref"
    ∷ ref_format
    ∷ map (λ (r : Bytes). codes "--exclude=" ++ r) (split_rules (get_hidden_refs a.config) [] []).0)

-- What git answers for the patterns that are unhidden, if there are any.
abbrev pub reply_for : Announcement → List Bytes → List Bytes × Option Error
reply_for a [] = ([], none)
reply_for a (u ∷ us) = a.git.for_each_ref (codes "for-each-ref" ∷ ref_format ∷ u ∷ us)

abbrev pub unhidden_reply : Announcement → List Bytes × Option Error
unhidden_reply a = reply_for a (split_rules (get_hidden_refs a.config) [] []).1

-- What git answers for the parent's references in the network repository.
abbrev pub network_reply : Announcement → ℕ → Result Bytes → List Bytes × Option Error
network_reply a id (ok network) = a.git.for_each_ref (
    (codes "--git-dir=" ++ network)
    ∷ codes "for-each-ref"
    ∷ codes "--format=%(objectname) .have"
    ∷ parent_patterns id (a.env (codes "GIT_NW_ADVERTISE_TAGS"))
    ∷ [])
network_reply a id _ = ([], none)

abbrev pub parent_id : Announcement → ℕ
parent_id a = get_uint32 a.env (codes "parent_repo_id")

abbrev pub parent_reply : Announcement → List Bytes × Option Error
parent_reply a =
    if parent_id a == 0 then ([], none) else network_reply a (parent_id a) a.network_repo_path

-- All that is sent for a list of references: the capabilities alone if there is none.
abbrev pub advertisement : Announcement → List Bytes → Bytes
advertisement a [] =
    frame (null_oid a.object_format ++ (codes " capabilities^{}" ++ (0 ∷ a.capabilities)))
advertisement a (l ∷ ls) = announced false a.capabilities (l ∷ ls)

module _ (a : Announcement) (o : Bytes) (e : Error) where
  pipe :
      (r : List Bytes × Option Error) (ls : List Bytes) (wrote : Bool) (t : Bytes)
      → r ≡ (ls, none)
      → All (Advertisable a.capabilities) ls
      → run_pipe a.capabilities r (state t e wrote)
        ≡ (ok tt, state (t ++ announced wrote a.capabilities ls) e (sent wrote ls))
  pipe r ls wrote t q h = rw q (run_pipe-holding ls wrote a.capabilities t e h)

  unhidden_pipe :
      (us ls : List Bytes) (wrote : Bool) (t : Bytes)
      → reply_for a us ≡ (ls, none)
      → All (Advertisable a.capabilities) ls
      → advertise_unhidden a us (state t e wrote)
        ≡ (ok tt, state (t ++ announced wrote a.capabilities ls) e (sent wrote ls))
  unfolding advertise_unhidden
  unhidden_pipe [] [] wrote t q h = rw append-nil refl
  unhidden_pipe [] (l ∷ ls) wrote t q h =
      absurd (cc (ap (λ (p : List Bytes × Option Error). p.0) q))
  unhidden_pipe (u ∷ us) ls wrote t q h = rw (pipe (reply_for a (u ∷ us)) ls wrote t q h) refl

  network_pipe :
      (id : ℕ) (n : Result Bytes) (ls : List Bytes) (wrote : Bool) (t : Bytes)
      → network_reply a id n ≡ (ls, none)
      → All (Advertisable a.capabilities) ls
      → advertise_network a id n (state t e wrote)
        ≡ (ok tt, state (t ++ announced wrote a.capabilities ls) e (sent wrote ls))
  unfolding advertise_network
  network_pipe id (ok n) ls wrote t q h = rw (pipe (network_reply a id (ok n)) ls wrote t q h) refl
  network_pipe id (err x) [] wrote t q h = rw append-nil refl
  network_pipe id (err x) (l ∷ ls) wrote t q h =
      absurd (cc (ap (λ (p : List Bytes × Option Error). p.0) q))
  network_pipe id spent [] wrote t q h = rw append-nil refl
  network_pipe id spent (l ∷ ls) wrote t q h =
      absurd (cc (ap (λ (p : List Bytes × Option Error). p.0) q))

  parent_pipe :
      (ls : List Bytes) (wrote : Bool) (t : Bytes)
      → parent_reply a ≡ (ls, none)
      → All (Advertisable a.capabilities) ls
      → advertise_parent a (state t e wrote)
        ≡ (ok tt, state (t ++ announced wrote a.capabilities ls) e (sent wrote ls))
  unfolding advertise_parent
  parent_pipe ls wrote t q h = elim (Bool-cases (parent_id a == 0)) [
    | inl y ↦ rw y (no_lines ls (rw y at q))
    | inr n ↦ rw n (network_pipe (parent_id a) a.network_repo_path ls wrote t (rw n at q) h)
  ]
    where
      no_lines :
          (ls : List Bytes)
          → ◌≡◌ {A = List Bytes × Option Error} ([], none) (ls, none)
          → ◌≡◌ {A = Result (Unit {0}) × Advert}
              (ok tt, state t e wrote)
              (ok tt, state (t ++ announced wrote a.capabilities ls) e (sent wrote ls))
      no_lines [] q = rw append-nil refl
      no_lines (l ∷ ls) q = absurd (cc (ap (λ (p : List Bytes × Option Error). p.0) q))

  pub lonely_step :
      (ls : List Bytes) (t : Bytes)
      → length (null_oid a.object_format) + length a.capabilities ≤ 65499
      → lonely_capabilities a (state (t ++ announced false a.capabilities ls) e (sent false ls))
        ≡ (ok tt, state (t ++ advertisement a ls) e (sent false ls))
  unfolding lonely_capabilities
  lonely_step [] t h =
      let line = null_oid a.object_format ++ (codes " capabilities^{}" ++ (0 ∷ a.capabilities)) in
      let n =
        length-append (null_oid a.object_format)
          (codes " capabilities^{}" ++ (0 ∷ a.capabilities)) in
      rw
        (
          append-nil,
          write_packet-fits line t e (λ x. absurd (omega (arith, n, ap length x)))
              (omega (arith, n)),
        )
        refl
  lonely_step (l ∷ ls) t h = refl

  -- What three pipes sent one after the other, as one list.
  three_pipes :
      (xs ys zs : List Bytes)
      → ((o ++ announced false a.capabilities xs) ++ announced (sent false xs) a.capabilities ys)
          ++ announced (sent (sent false xs) ys) a.capabilities zs
        ≡ o ++ announced false a.capabilities (xs ++ (ys ++ zs))
  three_pipes xs ys zs =
      let c = a.capabilities in
      append_assoc (o ++ announced false c xs) (announced (sent false xs) c ys)
        (announced (sent (sent false xs) ys) c zs)
      ∙ ap (λ s. (o ++ announced false c xs) ++ s) (announced-append ys zs (sent false xs) c)
      ∙ append_assoc o (announced false c xs) (announced (sent false xs) c (ys ++ zs))
      ∙ ap (λ s. o ++ s) (announced-append xs (ys ++ zs) false c)

  three_sent :
      (xs ys zs : List Bytes) → sent (sent (sent false xs) ys) zs ≡ sent false (xs ++ (ys ++ zs))
  three_sent xs ys zs = sent-append ys zs (sent false xs) ∙ sent-append xs (ys ++ zs) false

  -- If git answers the queries for the visible, the unhidden and the parent's references without
  -- an error and with lines of at least 41 bytes that fit into packets beside the capabilities,
  -- and the null id fits beside the capabilities, then the isolated reference discovery writes a
  -- packet for each of these lines in this order, the capabilities with the first of them, or
  -- alone with the null id if there is none, and a flush packet.
  pub discover-holding :
      (visible unhidden parent : List Bytes)
      → visible_reply a ≡ (visible, none)
      → unhidden_reply a ≡ (unhidden, none)
      → parent_reply a ≡ (parent, none)
      → All (Advertisable a.capabilities) visible
      → All (Advertisable a.capabilities) unhidden
      → All (Advertisable a.capabilities) parent
      → length (null_oid a.object_format) + length a.capabilities ≤ 65499
      → discover a (state o e false) ≡ (
        ok tt,
        state
            (o ++ (advertisement a (visible ++ (unhidden ++ parent)) ++ codes "0000"))
            e
            (sent false (visible ++ (unhidden ++ parent))),
      )
  unfolding discover
  discover-holding xs ys zs p q r hx hy hz b =
      let c = a.capabilities in
      let us = (split_rules (get_hidden_refs a.config) [] []).1 in
      let o1 = o ++ announced false c xs in
      let o2 = o1 ++ announced (sent false xs) c ys in
      let all = xs ++ (ys ++ zs) in
      rw
        (
          pipe (visible_reply a) xs false o p hx,
          unhidden_pipe us ys (sent false xs) o1 q hy,
          parent_pipe zs (sent (sent false xs) ys) o2 r hz,
          three_pipes xs ys zs,
          three_sent xs ys zs,
          lonely_step all o b,
          write-holding (codes "0000") (o ++ advertisement a all) e,
        )
        (ap (λ (t : Bytes). (ok tt, state t e (sent false all)))
          (append_assoc o (advertisement a all) (codes "0000")))
