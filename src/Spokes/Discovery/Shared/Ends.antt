-- ===== src/Spokes/Discovery/Shared/Ends.antt =====
-- performReferenceDiscovery of internal/spokes/spokes.go ends once each function of its pipe has had
-- enough turns.
use spokes_receive_pack.Base.{
  ℕ, zero, suc, ◌+◌, ◌-◌, ◌*◌, ◌≤◌, ◌==◌, Bool, true, false, if◌then◌else◌, List, [], ◌∷◌, Option,
  none, some, ◌≡◌, ◌≢◌, refl, arith, Bytes, codes, length, ltb, map, Bool-cases, inl, inr,
}
use spokes_receive_pack.Base.Exec.{Result, ok, err, spent, Error, wrapping}
use spokes_receive_pack.Base.Ends.{Ends, pure-Ends, raise-Ends, >>-Ends, wrapping-Ends}
use spokes_receive_pack.Go.Strconv.{format_hex}
use spokes_receive_pack.Go.Writer.{Writer, write}
use spokes_receive_pack.Spokes.Packet.{max_packet_data_length}
use spokes_receive_pack.Spokes.Discovery.{Advert, Announcement, lonely_capabilities}
use spokes_receive_pack.Spokes.Discovery.Ends.{lonely_capabilities-Ends, flush-Ends}
use spokes_receive_pack.Spokes.Discovery.Shared.{
  Task, idle, marking, sending, finishing, failed, Collector, take_line, wrote_out, send_size, move,
  turn, run, is_over, all_over, begin, faults, run_result, finished, run_all, queries,
  discover_shared,
}
use spokes_receive_pack.Spokes.Discovery.Shared.Alone.{weight}

-- How often the function with this number has its turn.
abbrev pub turns_of : ℕ → List ℕ → ℕ
turns_of i [] = 0
turns_of i (j ∷ js) = (if i == j then 1 else 0) + turns_of i js

-- Each function, the first with this number, has four turns for each of its lines.
abbrev pub IsFair : List ℕ → ℕ → List (List Bytes × Option Error) → Type 0
IsFair turns i [] = Unit
IsFair turns i (reply ∷ replies) =
    (4 * length reply.0 ≤ turns_of i turns) × IsFair turns (suc i) replies

-- The turns are enough for what the functions still do.
abbrev pub Enough : List ℕ → ℕ → List Collector → Type 0
Enough turns i [] = Unit
Enough turns i (c ∷ cs) = (weight c.task c.lines ≤ turns_of i turns) × Enough turns (suc i) cs

weight-take_line :
    (l : Bytes) (ls : List Bytes) (wrote : Bool) → weight (take_line l wrote) ls ≤ 3 + 4 * length ls
unfolding take_line
weight-take_line l ls true = elim (Bool-cases (ltb (length l) 41)) [
  | inl y ↦ rw (take_line, y) (omega arith)
  | inr n ↦ rw (take_line, n) (omega arith)
]
weight-take_line l ls false = elim (Bool-cases (ltb (length l) 41)) [
  | inl y ↦ rw (take_line, y) (omega arith)
  | inr n ↦ rw (take_line, n) (omega arith)
]

weight-wrote_out :
    (text what : Bytes) (next : Task) (ls : List Bytes) (a : Advert) (r : Result (Unit {0}))
    (w : Writer)
    → weight
        (wrote_out text what next ls a (r, w)).0.task
        (wrote_out text what next ls a (r, w)).0.lines
      ≤ weight next ls
unfolding wrote_out
weight-wrote_out text what next ls a (ok u) w = omega arith
weight-wrote_out text what next ls a (err e) w = omega arith
weight-wrote_out text what next ls a spent w = omega arith

weight-send_size :
    (text p : Bytes) (ls : List Bytes) (a : Advert)
    → weight (send_size text p ls a).0.task (send_size text p ls a).0.lines ≤ 1 + 4 * length ls
unfolding send_size
weight-send_size text p ls a = elim (Bool-cases (ltb max_packet_data_length (length p))) [
  | inl y ↦ rw (send_size, y) (omega arith)
  | inr n ↦
      rw (send_size, n)
        (let (r, w) = write (format_hex (4 + length p)) a.writer in
          weight-wrote_out text (codes "writing packet length") (finishing text p) ls a r w)
]

-- A turn brings a function nearer to its end.
weight-move :
    (caps : Bytes) (t : Task) (ls : List Bytes) (a : Advert)
    → weight (move caps t ls a).0.task (move caps t ls a).0.lines ≤ weight t ls - 1
unfolding move
weight-move caps idle [] a = omega arith
weight-move caps idle (l ∷ ls) a = omega (arith, weight-take_line l ls a.wrote_capabilities)
weight-move caps (marking l) ls a = omega arith
weight-move caps (sending text []) ls a = omega arith
weight-move caps (sending text (b ∷ p)) ls a = omega (arith, weight-send_size text (b ∷ p) ls a)
weight-move caps (finishing text p) ls a =
    let (r, w) = write p a.writer in
    omega (arith, weight-wrote_out text (codes "writing packet") idle ls a r w)
weight-move caps (failed e) ls a = omega arith

Enough-other :
    (j i : ℕ) (js : List ℕ) (cs : List Collector)
    → suc j ≤ i
    → Enough (j ∷ js) i cs
    → Enough js i cs
Enough-other j i js [] k h = tt
Enough-other j i js (c ∷ cs) k (h, hs) =
    let other : (i == j) ≡ false = ground arith in
    (omega (arith, rw other at h), Enough-other j (suc i) js cs (omega arith) hs)

turn-Enough :
    (caps : Bytes) (j i k : ℕ) (js : List ℕ) (cs : List Collector) (a : Advert)
    → k ≡ i + j
    → Enough (k ∷ js) i cs
    → Enough js i (turn caps j cs a).0
unfolding turn
turn-Enough caps j i k js [] a e h = tt
turn-Enough caps zero i k js (c ∷ cs) a e (h, hs) =
    let same : (i == k) ≡ true = ground arith in
    (
      omega (arith, weight-move caps c.task c.lines a, rw same at h),
      Enough-other k (suc i) js cs (omega arith) hs,
    )
turn-Enough caps (suc j) i k js (c ∷ cs) a e (h, hs) =
    let other : (i == k) ≡ false = ground arith in
    (omega (arith, rw other at h), turn-Enough caps j (suc i) k js cs a (omega arith) hs)

pub run-Enough :
    (caps : Bytes) (js : List ℕ) (cs : List Collector) (a : Advert)
    → Enough js 0 cs
    → Enough [] 0 (run caps js (cs, a)).0
unfolding run
run-Enough caps [] cs a h = h
run-Enough caps (j ∷ js) cs a h =
    let (cs', a') = turn caps j cs a in
    run-Enough caps js cs' a' (turn-Enough caps j 0 j js cs a (omega arith) h)

is_over-weight : (t : Task) (ls : List Bytes) → weight t ls ≤ 0 → is_over t ls ≡ true
unfolding is_over
is_over-weight idle [] h = refl
is_over-weight idle (l ∷ ls) h = absurd (omega (arith, h))
is_over-weight (marking l) ls h = absurd (omega (arith, h))
is_over-weight (sending text p) ls h = absurd (omega (arith, h))
is_over-weight (finishing text p) ls h = absurd (omega (arith, h))
is_over-weight (failed e) ls h = refl

pub all_over-Enough : (i : ℕ) (cs : List Collector) → Enough [] i cs → all_over cs ≡ true
unfolding all_over
all_over-Enough i [] h = refl
all_over-Enough i (c ∷ cs) (h, hs) =
    rw (is_over-weight c.task c.lines h) (all_over-Enough (suc i) cs hs)

pub IsFair-Enough :
    (turns : List ℕ) (i : ℕ) (rs : List (List Bytes × Option Error))
    → IsFair turns i rs
    → Enough turns i (map begin rs)
IsFair-Enough turns i [] h = tt
IsFair-Enough turns i (r ∷ rs) (h, hs) = (h, IsFair-Enough turns (suc i) rs hs)

run_result-Ends : (e : Option Error) → Ends (run_result e)
unfolding run_result
run_result-Ends none = pure-Ends tt
run_result-Ends (some e) = raise-Ends e

finished-ne-spent :
    (choose : List (Option Error) → Option Error) (rs : List (List Bytes × Option Error))
    (s : List Collector × Advert)
    → all_over s.0 ≡ true
    → (finished choose rs s).0 ≢ spent
unfolding finished
finished-ne-spent choose rs (cs, a) h k = run_result-Ends (choose (faults rs cs)) a (rw h at k)

-- Each function of the pipe has four turns for each line that git sends it.
abbrev pub HasTurns : Announcement → List ℕ → Type 0
HasTurns a turns = IsFair turns 0 (map a.git.for_each_ref (queries a))

run_all-Ends :
    (a : Announcement) (choose : List (Option Error) → Option Error) (turns : List ℕ)
    → HasTurns a turns
    → Ends (run_all choose turns a)
unfolding run_all
run_all-Ends a choose turns h s =
    let rs = map a.git.for_each_ref (queries a) in
    finished-ne-spent choose rs (run a.capabilities turns (map begin rs, s)) (
      all_over-Enough 0 (run a.capabilities turns (map begin rs, s)).0
        (run-Enough a.capabilities turns (map begin rs) s (IsFair-Enough turns 0 rs h)))

pub discover_shared-Ends :
    (a : Announcement) (choose : List (Option Error) → Option Error) (turns : List ℕ)
    → HasTurns a turns
    → Ends (discover_shared choose turns a)
unfolding discover_shared
discover_shared-Ends a choose turns h =
    >>-Ends (wrapping (codes "collecting references") (run_all choose turns a)) _
      (wrapping-Ends (codes "collecting references") (run_all choose turns a)
        (run_all-Ends a choose turns h))
      (>>-Ends (lonely_capabilities a) _ (lonely_capabilities-Ends a) flush-Ends)
