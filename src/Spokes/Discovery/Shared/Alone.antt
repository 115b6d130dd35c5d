-- ===== src/Spokes/Discovery/Shared/Alone.antt =====
-- performReferenceDiscovery where git is asked for the visible references only.
use mathlib.Core.Path.{subst}
use spokes_receive_pack.Base.{
  ◌*◌, ◌-◌, ℕ, zero, suc, ◌+◌, ◌≤◌, Bool, true, false, List, [], ◌∷◌, ◌++◌, Option, none, ◌≡◌, refl,
  sym, ap, ◌∙◌, arith, Bytes, length, length-append, All, append_assoc, append-nil, le→ltb,
}
use spokes_receive_pack.Base.Exec.{ok, Error}
use spokes_receive_pack.Go.Writer.{write}
use spokes_receive_pack.Go.Strconv.{format_hex}
use spokes_receive_pack.Pktline.Reads.{frame}
use spokes_receive_pack.Spokes.Packet.{max_packet_data_length}
use spokes_receive_pack.Spokes.Discovery.{Advert}
use spokes_receive_pack.Spokes.Discovery.Announced.{
  line_frames, announced, announced-again, sent, Advertisable, state,
}
use spokes_receive_pack.Spokes.Discovery.Shared.{
  send_size, fault, run_result, wrote_out, Task, idle, marking, sending, finishing, failed,
  Collector, take_line, move, turn, run, is_over, all_over, faults, finished,
}

-- What a function still sends, if nothing fails.
abbrev pub to_send : Bytes → Task → List Bytes → Bool → Bytes
to_send caps idle ls wrote = announced wrote caps ls
to_send caps (marking l) ls wrote = frame (l ++ (0 ∷ (caps ++ b'\n' ∷ []))) ++ line_frames ls
to_send caps (sending text p) ls wrote = frame p ++ line_frames ls
to_send caps (finishing text p) ls wrote = p ++ line_frames ls
to_send caps (failed e) ls wrote = []

abbrev pub to_mark : Task → List Bytes → Bool → Bool
to_mark idle ls wrote = sent wrote ls
to_mark _ ls wrote = true

-- No line and no packet at hand is one at which the function fails.
abbrev pub IsGood : Bytes → Task → List Bytes → Bool → Type 0
IsGood caps idle ls wrote = All (Advertisable caps) ls
IsGood caps (marking l) ls wrote = (length l + length caps ≤ 65514) × All (Advertisable caps) ls
IsGood caps (sending text p) ls wrote =
    (1 ≤ length p) × (length p ≤ 65516) × (wrote ≡ true) × All (Advertisable caps) ls
IsGood caps (finishing text p) ls wrote = (wrote ≡ true) × All (Advertisable caps) ls
IsGood caps (failed e) ls wrote = ⊥

-- How many turns it needs at most.
abbrev pub weight : Task → List Bytes → ℕ
weight idle ls = 4 * length ls
weight (marking l) ls = 3 + 4 * length ls
weight (sending text p) ls = 2 + 4 * length ls
weight (finishing text p) ls = 1 + 4 * length ls
weight (failed e) ls = 0

-- How often the first function has its turn.
abbrev pub firsts : List ℕ → ℕ
firsts [] = 0
firsts (zero ∷ is) = suc (firsts is)
firsts (suc i ∷ is) = firsts is

sent-true : (ls : List Bytes) → sent true ls ≡ true
sent-true [] = refl
sent-true (l ∷ ls) = refl

module _ (caps : Bytes) (e : Error) (target : Bytes) (flag : Bool) where
  -- The function alone brings the output to `target` and wroteCapabilities to `flag`.
  pub record Heads (n : ℕ) (c : Collector) (a : Advert) : Type 0 where
    pub out : Bytes
    pub wrote : Bool
    pub is_state : a ≡ state out e wrote
    pub good : IsGood caps c.task c.lines wrote
    pub output : out ++ to_send caps c.task c.lines wrote ≡ target
    pub mark : to_mark c.task c.lines wrote ≡ flag
    pub left : weight c.task c.lines ≤ n

  move-Heads :
      (n : ℕ) (t : Task) (ls : List Bytes) (o : Bytes) (w : Bool)
      → IsGood caps t ls w
      → o ++ to_send caps t ls w ≡ target
      → to_mark t ls w ≡ flag
      → weight t ls ≤ n
      → Heads (n - 1) (move caps t ls (state o e w)).0 (move caps t ls (state o e w)).1
  unfolding move send_size wrote_out write
  move-Heads n idle [] o w g p q v = record {
    out = o;
    wrote = w;
    is_state = refl;
    good = g;
    output = p;
    mark = q;
    left = omega (arith, v);
  }
  move-Heads n idle (l ∷ ls) o true ((lo, hi), g) p q v =
      let k = length-append l (b'\n' ∷ []) in
      rw (take_line, le→ltb (length l) 41 lo)
        (record {
          out = o;
          wrote = true;
          is_state = refl;
          good = (omega (arith, k), omega (arith, k, hi), refl, g);
          output = p;
          mark = q;
          left = omega (arith, v);
        })
  move-Heads n idle (l ∷ ls) o false ((lo, hi), g) p q v =
      rw (take_line, le→ltb (length l) 41 lo)
        (record {
          out = o;
          wrote = false;
          is_state = refl;
          good = (hi, g);
          output = p;
          mark = q;
          left = omega (arith, v);
        })
  move-Heads n (marking l) ls o w (hi, g) p q v =
      let k = length-append l (0 ∷ (caps ++ b'\n' ∷ [])) in
      let m = length-append caps (b'\n' ∷ []) in
      record {
        out = o;
        wrote = true;
        is_state = refl;
        good = (omega (arith, k), omega (arith, k, m), refl, g);
        output = p;
        mark = q;
        left = omega (arith, v);
      }
  move-Heads n (sending text []) ls o w (lo, hi, m, g) p q v = absurd (omega (arith, lo))
  move-Heads n (sending text (b ∷ d)) ls o false (lo, hi, m, g) p q v = absurd (cc m)
  move-Heads n (sending text (b ∷ d)) ls o true (lo, hi, m, g) p q v =
      let size = format_hex (4 + length (b ∷ d)) in
      rw (send_size, le→ltb max_packet_data_length (length (b ∷ d)) hi)
        (record {
          out = o ++ size;
          wrote = true;
          is_state = refl;
          good = (refl, g);
          output =
              append_assoc o size ((b ∷ d) ++ line_frames ls)
              ∙ ap (λ (t : Bytes). o ++ t) (sym (append_assoc size (b ∷ d) (line_frames ls)))
              ∙ p;
          mark = q;
          left = omega (arith, v);
        })
  move-Heads n (finishing text d) ls o false (m, g) p q v = absurd (cc m)
  move-Heads n (finishing text d) ls o true (m, g) p q v = record {
    out = o ++ d;
    wrote = true;
    is_state = refl;
    good = g;
    output =
        append_assoc o d (announced true caps ls)
        ∙ ap (λ (t : Bytes). o ++ (d ++ t)) (announced-again caps ls)
        ∙ p;
    mark = sent-true ls ∙ q;
    left = omega (arith, v);
  }
  move-Heads n (failed x) ls o w g p q v = absurd g

  at_end :
      (t : Task) (ls : List Bytes) (w : Bool)
      → IsGood caps t ls w
      → weight t ls ≤ 0
      → (is_over t ls ≡ true) × (fault t ≡ none) × (to_send caps t ls w ≡ []) × (to_mark t ls w ≡ w)
  unfolding is_over fault
  at_end idle [] w g v = (refl, refl, refl, refl)
  at_end idle (l ∷ ls) w g v = absurd (omega (arith, v))
  at_end (marking l) ls w g v = absurd (omega (arith, v))
  at_end (sending text p) ls w g v = absurd (omega (arith, v))
  at_end (finishing text p) ls w g v = absurd (omega (arith, v))
  at_end (failed x) ls w g v = absurd g

  turn-Heads :
      (n : ℕ) (c : Collector) (a : Advert)
      → Heads n c a
      → Heads (n - 1) (move caps c.task c.lines a).0 (move caps c.task c.lines a).1
  turn-Heads n c a h =
      subst
        (λ (x : Advert).
          Heads (n - 1) (move caps c.task c.lines x).0 (move caps c.task c.lines x).1)
        (sym h.is_state) (move-Heads n c.task c.lines h.out h.wrote h.good h.output h.mark h.left)

  -- The function is the only one of a pipe that stands so.
  abbrev pub Single : ℕ → List Collector × Advert → Type 0
  Single n ([], a) = ⊥
  Single n (c ∷ [], a) = Heads n c a
  Single n (c ∷ d ∷ cs, a) = ⊥

  pub run-Single :
      (turns : List ℕ) (n : ℕ) (c : Collector) (a : Advert)
      → Heads n c a
      → Single (n - firsts turns) (run caps turns (c ∷ [], a))
  unfolding run turn
  run-Single [] n c a h = let e : n - 0 ≡ n = omega arith in rw e h
  run-Single (zero ∷ is) n c a h =
      let (c', a') = move caps c.task c.lines a in
      let e : n - suc (firsts is) ≡ n - 1 - firsts is = omega arith in
      rw e (run-Single is (n - 1) c' a' (turn-Heads n c a h))
  run-Single (suc i ∷ is) n c a h = run-Single is n c a h

  pub finished-Single :
      (choose : List (Option Error) → Option Error) (ls : List Bytes) (s : List Collector × Advert)
      → choose (none ∷ none ∷ []) ≡ none
      → Single 0 s
      → finished choose ((ls, none) ∷ []) s ≡ (ok tt, state target e flag)
  unfolding finished run_result all_over faults
  finished-Single choose ls ([], a) q h = absurd h
  finished-Single choose ls (c ∷ d ∷ cs, a) q h = absurd h
  finished-Single choose ls (c ∷ [], a) q h =
      let (over, no_fault, nothing, same) = at_end c.task c.lines h.wrote h.good h.left in
      let all_sent : h.out ≡ target =
        sym (append-nil h.out) ∙ ap (λ (t : Bytes). h.out ++ t) (sym nothing) ∙ h.output in
      rw (over, no_fault, q, h.is_state, all_sent, sym same ∙ h.mark) refl
