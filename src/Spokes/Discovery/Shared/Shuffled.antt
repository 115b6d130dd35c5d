-- ===== src/Spokes/Discovery/Shared/Shuffled.antt =====
-- What the functions of the pipe of performReferenceDiscovery write together, in whatever order they
-- have their turns (internal/spokes/spokes.go).
use mathlib.Core.Path.{subst}
use spokes_receive_pack.Base.{
  ℕ, zero, suc, Bool, true, false, List, [], ◌∷◌, Option, none, some, ◌≡◌, refl, sym, ap, Bytes,
  All,
}
use spokes_receive_pack.Base.Exec.{Error}
use spokes_receive_pack.Spokes.Discovery.{Advert}
use spokes_receive_pack.Spokes.Discovery.Announced.{state}
use spokes_receive_pack.Spokes.Discovery.Shared.{
  Task, idle, marking, sending, finishing, failed, Collector, move, turn,
}
use spokes_receive_pack.Spokes.Discovery.Shared.Alone.{IsGood}
use spokes_receive_pack.Spokes.Discovery.Shared.Chunks.{
  AreChunks, Rest, Quiet, added, with_chunk, move-Moved,
}

-- The first chunk of one of the functions is taken.
pub data Takes : Bytes → List (List Bytes) → List (List Bytes) → Type 0 where
  here :
      {x : Bytes} {cs : List Bytes} {css : List (List Bytes)} → Takes x ((x ∷ cs) ∷ css) (cs ∷ css)
  there :
      {x : Bytes} {cs : List Bytes} {css css' : List (List Bytes)}
      → Takes x css css'
      → Takes x (cs ∷ css) (cs ∷ css')

-- The chunks of the functions in one order, in which those of each function keep theirs.
pub data Shuffles : List (List Bytes) → List Bytes → Type 0 where
  all_taken : {css : List (List Bytes)} → All (λ cs. cs ≡ []) css → Shuffles css []
  one_taken :
      {x : Bytes} {out : List Bytes} {css css' : List (List Bytes)}
      → Takes x css css'
      → Shuffles css' out
      → Shuffles css (x ∷ out)

-- The chunks of each function are those of its lines.
abbrev pub EachChunks : Bytes → List (List Bytes) → List (List Bytes) → Type 0
EachChunks caps [] [] = Unit
EachChunks caps [] (cs ∷ css) = ⊥
EachChunks caps (ls ∷ lss) [] = ⊥
EachChunks caps (ls ∷ lss) (cs ∷ css) = AreChunks caps ls cs × EachChunks caps lss css

abbrev pub EachRest : Bytes → List Collector → List (List Bytes) → Type 0
EachRest caps [] [] = Unit
EachRest caps [] (cs ∷ css) = ⊥
EachRest caps (c ∷ ds) [] = ⊥
EachRest caps (c ∷ ds) (cs ∷ css) = Rest caps c.task c.lines cs × EachRest caps ds css

abbrev pub AllGood : Bytes → List Collector → Bool → Type 0
AllGood caps ds w = All (λ (c : Collector). IsGood caps c.task c.lines w) ds

abbrev pub AllQuiet : List Collector → Type 0
AllQuiet ds = All (λ (c : Collector). Quiet c.task c.lines) ds

-- Before a turn there is one chunk more, or as many.
abbrev Before : Option Bytes → List (List Bytes) → List (List Bytes) → Type 0
Before none css css' = css ≡ css'
Before (some x) css css' = Takes x css css'

Before-there :
    (o : Option Bytes) (cs : List Bytes) (css css' : List (List Bytes))
    → Before o css css'
    → Before o (cs ∷ css) (cs ∷ css')
Before-there none cs css css' h = ap (λ (x : List (List Bytes)). cs ∷ x) h
Before-there (some x) cs css css' h = there h

Before-here :
    (o : Option Bytes) (cs : List Bytes) (css : List (List Bytes))
    → Before o (with_chunk o cs ∷ css) (cs ∷ css)
Before-here none cs css = refl
Before-here (some x) cs css = here

pub Before-Shuffles :
    (o : Option Bytes) (css css' : List (List Bytes)) (out : List Bytes)
    → Before o css css'
    → Shuffles css' out
    → Shuffles css (with_chunk o out)
Before-Shuffles none css css' out h s = subst (λ (x : List (List Bytes)). Shuffles x out) (sym h) s
Before-Shuffles (some x) css css' out h s = one_taken h s

IsGood-later :
    (caps : Bytes) (t : Task) (ls : List Bytes) (w v : Bool)
    → (w ≡ true → v ≡ true)
    → IsGood caps t ls w
    → IsGood caps t ls v
IsGood-later caps idle ls w v k g = g
IsGood-later caps (marking l) ls w v k g = g
IsGood-later caps (sending text p) ls w v k (a, b, m, g) = (a, b, k m, g)
IsGood-later caps (finishing text p) ls w v k (m, g) = (k m, g)
IsGood-later caps (failed e) ls w v k g = g

AllGood-later :
    (caps : Bytes) (ds : List Collector) (w v : Bool)
    → (w ≡ true → v ≡ true)
    → AllGood caps ds w
    → AllGood caps ds v
AllGood-later caps [] w v k h = tt
AllGood-later caps (c ∷ ds) w v k (g, h) =
    (IsGood-later caps c.task c.lines w v k g, AllGood-later caps ds w v k h)

-- A turn, like a move of one function.
pub record Turned (caps : Bytes) (ds : List Collector) (o : Bytes) (e : Error) (w : Bool)
    (ds' : List Collector) (a : Advert) : Type 0 where
  pub chunk : Option Bytes
  pub wrote : Bool
  pub is_state : a ≡ state (added o chunk) e wrote
  pub good : AllGood caps ds' wrote
  pub keeps : w ≡ true → wrote ≡ true
  pub back :
      (css' : List (List Bytes))
      → EachRest caps ds' css'
      → (css : List (List Bytes)) × EachRest caps ds css × Before chunk css css'
  pub quiet : wrote ≡ false → AllQuiet ds' → AllQuiet ds

module _ (caps : Bytes) (e : Error) where
  pub turn-Turned :
      (i : ℕ) (ds : List Collector) (o : Bytes) (w : Bool)
      → AllGood caps ds w
      → Turned caps ds o e w (turn caps i ds (state o e w)).0 (turn caps i ds (state o e w)).1
  unfolding turn
  turn-Turned i [] o w h = record {
    chunk = none;
    wrote = w;
    is_state = refl;
    good = tt;
    keeps = λ k. k;
    back = λ css r. (css, r, refl);
    quiet = λ k q. q;
  }
  turn-Turned zero (c ∷ ds) o w (g, h) =
      let m = move-Moved caps c.task c.lines o e w g in
      record {
        chunk = m.chunk;
        wrote = m.wrote;
        is_state = m.is_state;
        good = (m.good, AllGood-later caps ds w m.wrote m.keeps h);
        keeps = m.keeps;
        back = back_here c (move caps c.task c.lines (state o e w)).0 ds m.chunk m.back;
        quiet = λ k (q, qs). (m.quiet k q, qs);
      }
    where
      back_here :
          (c c' : Collector) (ds : List Collector) (chunk : Option Bytes)
          → ((cs : List Bytes)
              → Rest caps c'.task c'.lines cs
              → Rest caps c.task c.lines (with_chunk chunk cs))
          → (css' : List (List Bytes)) → EachRest caps (c' ∷ ds) css'
          → (css : List (List Bytes)) × EachRest caps (c ∷ ds) css × Before chunk css css'
      back_here c c' ds chunk k [] r = absurd r
      back_here c c' ds chunk k (cs ∷ css) (r, rs) =
          (with_chunk chunk cs ∷ css, (k cs r, rs), Before-here chunk cs css)
  turn-Turned (suc i) (c ∷ ds) o w (g, h) =
      let t = turn-Turned i ds o w h in
      record {
        chunk = t.chunk;
        wrote = t.wrote;
        is_state = t.is_state;
        good = (IsGood-later caps c.task c.lines w t.wrote t.keeps g, t.good);
        keeps = t.keeps;
        back = back_there c ds (turn caps i ds (state o e w)).0 t.chunk t.back;
        quiet = λ k (q, qs). (q, t.quiet k qs);
      }
    where
      back_there :
          (c : Collector) (ds ds' : List Collector) (chunk : Option Bytes)
          → ((css' : List (List Bytes))
              → EachRest caps ds' css'
              → (css : List (List Bytes)) × EachRest caps ds css × Before chunk css css')
          → (css' : List (List Bytes)) → EachRest caps (c ∷ ds') css'
          → (css : List (List Bytes)) × EachRest caps (c ∷ ds) css × Before chunk css css'
      back_there c ds ds' chunk k [] r = absurd r
      back_there c ds ds' chunk k (cs ∷ css') (r, rs) =
          let (css, r', b) = k css' rs in (cs ∷ css, (r, r'), Before-there chunk cs css css' b)
