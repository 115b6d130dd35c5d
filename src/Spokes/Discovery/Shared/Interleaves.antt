-- ===== src/Spokes/Discovery/Shared/Interleaves.antt =====
-- The shared reference discovery in every order of turns (performReferenceDiscovery of
-- internal/spokes/spokes.go).
use mathlib.Core.Path.{subst}
use spokes_receive_pack.Base.{
  ℕ, ◌&&◌, Bool, true, false, List, [], ◌∷◌, ◌++◌, Option, none, some, ◌≡◌, refl, sym, ap, ◌∙◌,
  arith, Bytes, All, append_assoc, append-nil, Bool-cases, inl, inr,
}
use spokes_receive_pack.Base.Exec.{Error}
use spokes_receive_pack.Spokes.Report.Decodes.{joined}
use spokes_receive_pack.Spokes.Discovery.{Advert}
use spokes_receive_pack.Spokes.Discovery.Announced.{state}
use spokes_receive_pack.Spokes.Discovery.Shared.{
  Task, idle, marking, sending, finishing, failed, Collector, turn, run, is_over, all_over,
}
use spokes_receive_pack.Spokes.Discovery.Shared.Alone.{IsGood}
use spokes_receive_pack.Spokes.Discovery.Shared.Chunks.{no_chunks, Rest, Quiet, added, with_chunk}
use spokes_receive_pack.Spokes.Discovery.Shared.Shuffled.{
  Shuffles, all_taken, EachRest, AllGood, AllQuiet, Before-Shuffles, Turned, turn-Turned,
}

over-Quiet :
    (caps : Bytes) (t : Task) (ls : List Bytes) (w : Bool)
    → IsGood caps t ls w
    → is_over t ls ≡ true
    → Rest caps t ls [] × Quiet t ls
unfolding is_over
over-Quiet caps idle [] w g h = (no_chunks, tt)
over-Quiet caps idle (l ∷ ls) w g h = absurd (cc h)
over-Quiet caps (marking l) ls w g h = absurd (cc h)
over-Quiet caps (sending text p) ls w g h = absurd (cc h)
over-Quiet caps (finishing text p) ls w g h = absurd (cc h)
over-Quiet caps (failed e) ls w g h = absurd g

and-both : (a b : Bool) → (a && b) ≡ true → (a ≡ true) × (b ≡ true)
and-both a b h = (ground arith, ground arith)

-- At the end nothing is left.
all_over-Rest :
    (caps : Bytes) (ds : List Collector) (w : Bool)
    → AllGood caps ds w
    → all_over ds ≡ true
    → (css : List (List Bytes)) × EachRest caps ds css × All (λ cs. cs ≡ []) css × AllQuiet ds
unfolding all_over
all_over-Rest caps [] w h k = ([], tt, tt, tt)
all_over-Rest caps (c ∷ ds) w (g, h) k =
    let (a, b) = and-both (is_over c.task c.lines) (all_over ds) k in
    let (r, q) = over-Quiet caps c.task c.lines w g a in
    let (css, rs, es, qs) = all_over-Rest caps ds w h b in ([] ∷ css, (r, rs), (refl, es), (q, qs))

joined-with_chunk :
    (o : Bytes) (chunk : Option Bytes) (out : List Bytes)
    → added o chunk ++ joined out ≡ o ++ joined (with_chunk chunk out)
joined-with_chunk o none out = refl
joined-with_chunk o (some x) out = append_assoc o x (joined out)

not_before : (w v : Bool) → (w ≡ true → v ≡ true) → v ≡ false → w ≡ false
not_before w v k h = elim (Bool-cases w) [ inl y ↦ absurd (cc (k y, h)) | inr n ↦ n ]

module _ (caps : Bytes) (e : Error) where
  -- Behind the first, the output is an interleaving of what the functions had left, and nothing is
  -- left now.
  abbrev pub Interleaved : List Collector → Bytes → Bool → List Collector × Advert → Type 0
  Interleaved ds o w s =
      (css : List (List Bytes)) × (out : List Bytes) × (wrote : Bool) × EachRest caps ds css
      × Shuffles css out
      × (s.1 ≡ state (o ++ joined out) e wrote)
      × (w ≡ true → wrote ≡ true)
      × (wrote ≡ false → AllQuiet ds)
      × AllQuiet s.0

  Turned-Interleaved :
      (ds ds' : List Collector) (o : Bytes) (w : Bool) (a : Advert) (s : List Collector × Advert)
      (t : Turned caps ds o e w ds' a)
      → Interleaved ds' (added o t.chunk) t.wrote s
      → Interleaved ds o w s
  Turned-Interleaved ds ds' o w a s t (css', out, v, r, shuffled, q, m, k, z) =
      let (css, r', b) = t.back css' r in
      (
        css,
        with_chunk t.chunk out,
        v,
        r',
        Before-Shuffles t.chunk css css' out b shuffled,
        q ∙ ap (λ (x : Bytes). state x e v) (joined-with_chunk o t.chunk out),
        (λ h. m (t.keeps h)),
        (λ h. t.quiet (not_before t.wrote v m h) (k h)),
        z,
      )

  -- The turns behind the first, for what it left.
  abbrev pub Continues : List ℕ → Type 0
  Continues turns =
      (ds : List Collector) (o : Bytes) (w : Bool)
      → AllGood caps ds w
      → all_over (run caps turns (ds, state o e w)).0 ≡ true
      → Interleaved ds o w (run caps turns (ds, state o e w))

  first_turn-Interleaved :
      (is : List ℕ) (ds : List Collector) (o : Bytes) (w : Bool)
      → Continues is
      → (ds' : List Collector) (a : Advert) → Turned caps ds o e w ds' a
      → all_over (run caps is (ds', a)).0 ≡ true
      → Interleaved ds o w (run caps is (ds', a))
  first_turn-Interleaved is ds o w next ds' a t k =
      Turned-Interleaved ds ds' o w a (run caps is (ds', a)) t (
        subst (λ (x : Advert). Interleaved ds' (added o t.chunk) t.wrote (run caps is (ds', x)))
          (sym t.is_state)
          (next ds' (added o t.chunk) t.wrote t.good
            (ap (λ (x : Advert). all_over (run caps is (ds', x)).0) (sym t.is_state) ∙ k)))

  pub run-Interleaved : (turns : List ℕ) → Continues turns
  unfolding run
  run-Interleaved [] ds o w h k =
      let (css, r, n, q) = all_over-Rest caps ds w h k in
      (
        css,
        [],
        w,
        r,
        all_taken n,
        ap (λ (x : Bytes). state x e w) (sym (append-nil o)),
        (λ m. m),
        (λ f. q),
        q,
      )
  run-Interleaved (i ∷ is) ds o w h k =
      let (ds', a) = turn caps i ds (state o e w) in
      first_turn-Interleaved is ds o w (run-Interleaved is) ds' a (turn-Turned caps e i ds o w h) k
