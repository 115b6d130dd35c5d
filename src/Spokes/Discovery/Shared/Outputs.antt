-- ===== src/Spokes/Discovery/Shared/Outputs.antt =====
-- What a client gets of the shared reference discovery, in every order of turns
-- (performReferenceDiscovery of internal/spokes/spokes.go).
use spokes_receive_pack.Base.{
  ℕ, Bool, true, false, List, [], ◌∷◌, ◌++◌, Option, none, ◌≡◌, refl, ap, ◌∙◌, Bytes, codes, All,
  map, append_assoc, Bool-cases, inl, inr,
}
use spokes_receive_pack.Base.Exec.{Error, ok}
use spokes_receive_pack.Go.Writer.{write}
use spokes_receive_pack.Spokes.Report.Decodes.{joined}
use spokes_receive_pack.Spokes.Discovery.{
  Advert, Announcement, on_writer, lonely_capabilities, lonely_unless,
}
use spokes_receive_pack.Spokes.Discovery.Announced.{Advertisable, state}
use spokes_receive_pack.Spokes.Discovery.Shared.{
  Task, idle, marking, sending, finishing, failed, Collector, run, all_over, begin, fault, faults,
  finished, run_result, run_all, queries, discover_shared,
}
use spokes_receive_pack.Spokes.Discovery.Shared.Chunks.{Quiet}
use spokes_receive_pack.Spokes.Discovery.Shared.Ends.{
  HasTurns, IsFair, IsFair-Enough, run-Enough, all_over-Enough,
}
use spokes_receive_pack.Spokes.Discovery.Shared.Interleaves.{run-Interleaved}
use spokes_receive_pack.Spokes.Discovery.Shared.Shuffled.{
  Shuffles, EachChunks, EachRest, AllGood, AllQuiet,
}

-- The answer of git, with no error behind it.
abbrev pub answered : List Bytes → List Bytes × Option Error
answered ls = (ls, none)

abbrev started : List (List Bytes) → List Collector
started lss = map begin (map answered lss)

started-Good :
    (caps : Bytes) (lss : List (List Bytes))
    → All (All (Advertisable caps)) lss
    → AllGood caps (started lss) false
started-Good caps [] h = tt
started-Good caps (ls ∷ lss) (g, h) = (g, started-Good caps lss h)

rest-EachChunks :
    (caps : Bytes) (lss css : List (List Bytes))
    → EachRest caps (started lss) css
    → EachChunks caps lss css
rest-EachChunks caps [] [] r = tt
rest-EachChunks caps [] (cs ∷ css) r = r
rest-EachChunks caps (ls ∷ lss) [] r = r
rest-EachChunks caps (ls ∷ lss) (cs ∷ css) (r, rs) = (r, rest-EachChunks caps lss css rs)

Quiet-empty : (ls : List Bytes) → Quiet idle ls → ls ≡ []
Quiet-empty [] q = refl
Quiet-empty (l ∷ ls) q = absurd q

started-Quiet : (lss : List (List Bytes)) → AllQuiet (started lss) → All (λ ls. ls ≡ []) lss
started-Quiet [] q = tt
started-Quiet (ls ∷ lss) (q, qs) = (Quiet-empty ls q, started-Quiet lss qs)

Quiet-fault : (t : Task) (ls : List Bytes) → Quiet t ls → fault t ≡ none
unfolding fault
Quiet-fault idle ls q = refl
Quiet-fault (marking l) ls q = refl
Quiet-fault (sending text p) ls q = refl
Quiet-fault (finishing text p) ls q = refl
Quiet-fault (failed e) ls q = absurd q

abbrev pub AllNone : List (Option Error) → Type 0
AllNone es = All (λ e. e ≡ none) es

faults-AllNone :
    (lss : List (List Bytes)) (ds : List Collector)
    → AllQuiet ds
    → AllNone (faults (map answered lss) ds)
unfolding faults
faults-AllNone [] ds q = tt
faults-AllNone (ls ∷ lss) [] q = tt
faults-AllNone (ls ∷ lss) (c ∷ ds) (q, qs) =
    (refl, (Quiet-fault c.task c.lines q, faults-AllNone lss ds qs))

finished-ok :
    (choose : List (Option Error) → Option Error) (rs : List (List Bytes × Option Error))
    (s : List Collector × Advert)
    → all_over s.0 ≡ true
    → choose (faults rs s.0) ≡ none
    → finished choose rs s ≡ (ok tt, s.1)
unfolding finished run_result
finished-ok choose rs (cs, a) h q = rw (h, q) refl

module _ (a : Announcement) (choose : List (Option Error) → Option Error) (turns : List ℕ)
    (lss : List (List Bytes)) (answers : map a.git.for_each_ref (queries a) ≡ map answered lss)
    (good : All (All (Advertisable a.capabilities)) lss) (some_line : All (λ ls. ls ≡ []) lss → ⊥)
    (no_error : (es : List (Option Error)) → AllNone es → choose es ≡ none)
    (fair : HasTurns a turns) where
  run_all-Shuffles :
      (o : Bytes) (e : Error)
      → (css : List (List Bytes)) × (out : List Bytes) × (run_all choose turns a (state o e false)
          ≡ (ok tt, state (o ++ joined out) e true))
        × EachChunks a.capabilities lss css
        × Shuffles css out
  unfolding run_all
  run_all-Shuffles o e =
      let caps = a.capabilities in
      let s = run caps turns (started lss, state o e false) in
      let turns_left : IsFair turns 0 (map answered lss) = rw answers at fair in
      let over = all_over-Enough 0 s.0 (
        run-Enough caps turns (started lss) (state o e false)
          (IsFair-Enough turns 0 (map answered lss) turns_left)) in
      let (css, out, v, r, shuffled, q, m, k, z) =
        run-Interleaved caps e turns (started lss) o false (started-Good caps lss good) over in
      let marked : v ≡ true = elim (Bool-cases v) [
        | inl y ↦ y
        | inr n ↦ absurd (some_line (started-Quiet lss (k n)))
      ] in
      (
        css,
        out,
        rw answers (
            finished-ok choose (map answered lss) s over (no_error _ (faults-AllNone lss s.0 z))
            ∙ ap (λ (x : Advert). (ok tt, x)) q
            ∙ ap (λ (x : Bool). (ok tt, state (o ++ joined out) e x)) marked),
        rest-EachChunks caps lss css r,
        shuffled,
      )

  -- If git answers each query of the shared reference discovery, without an error and in all with
  -- at least one line, with lines of at least 41 bytes that fit beside the capabilities, the pipe
  -- has no error where its stages have none, and each function has at least four turns for each of
  -- its lines, then in whatever order these turns come the discovery succeeds, and its output is
  -- an interleaving, with a flush behind it, of the chunks of the functions, which for each line
  -- in order are the length of a packet and its data, the line with the capabilities or without
  -- them.
  pub discover_shared-Shuffles :
      (o : Bytes) (e : Error)
      → (css : List (List Bytes)) × (out : List Bytes) × (discover_shared choose turns a
            (state o e false)
          ≡ (ok tt, state (o ++ (joined out ++ codes "0000")) e true))
        × EachChunks a.capabilities lss css
        × Shuffles css out
  unfolding discover_shared on_writer write lonely_capabilities lonely_unless
  discover_shared-Shuffles o e =
      let (css, out, q, c, s) = run_all-Shuffles o e in
      (
        css,
        out,
        rw q (
            ap (λ (x : Bytes). (ok tt, state x e true))
              (append_assoc o (joined out) (codes "0000"))),
        c,
        s,
      )
