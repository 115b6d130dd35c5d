-- ===== src/Governor/Schedule/Waits.antt =====
-- How long Start waits for the governor, and how it ends (internal/governor/conn.go).
use spokes_receive_pack.Base.{
  ℕ, zero, suc, ◌+◌, ◌<◌, Bool, true, false, List, [], ◌∷◌, ◌++◌, ◌≡◌, refl, ap, ◌∙◌, arith, Bytes,
  length, ℤ, append_assoc, append-nil, ◌-◌, none,
}
use spokes_receive_pack.Base.Exec.{ok, Error}
use spokes_receive_pack.Go.Writer.{holding, write}
use spokes_receive_pack.Governor.Messages.{update, update_message}
use spokes_receive_pack.Governor.Schedule.{
  Round, answer, timed_out, closed, broken, Outcome, scheduled, wait_error, fail_error, net_error,
  other_error, read_answer, Line, Started, connected, unsupervised, refused, start_round,
  settle_round, scheduled_by, read_round, start_loop, should_fail_closed, Daemon, connect,
  update_data, start_schedule, start, schedule_message, stop, again,
}

-- From the i-th round on the governor asks to wait, for these durations.
abbrev pub Asks : (ℕ → Round) → ℕ → List ℤ → Type 0
Asks rounds i [] = Unit
Asks rounds i (d ∷ ds) =
    ((line : Bytes) × (reason : Bytes) × (rounds i ≡ answer line)
      × (read_answer line ≡ wait_error d reason))
    × Asks rounds (suc i) ds

-- The round has an outcome that is known once the message of schedule is sent.
abbrev pub Ends : Round → Outcome → Type 0
Ends (answer line) o = read_answer line ≡ o
Ends timed_out o = o ≡ net_error true
Ends closed o = o ≡ other_error Error.eof
Ends broken o = o ≡ net_error false
Ends _ o = ⊥

-- The durations in the order in which they were slept, behind those before.
abbrev pub slept_after : List ℤ → List ℤ → List ℤ
slept_after [] s = s
slept_after (d ∷ ds) s = slept_after ds (d ∷ s)

-- What is sent in some rounds.
abbrev pub asked : ℕ → Bytes
asked zero = []
asked (suc n) = schedule_message ++ asked n

-- An open connection that takes everything.
abbrev pub talking : Bytes → Error → List ℤ → Line
talking o e s = record { writer = holding o e; is_open = true; slept = s }

start_round-answer :
    (fc : Bool) (line o : Bytes) (e : Error) (s : List ℤ)
    → start_round fc (answer line) (talking o e s)
      ≡ settle_round fc (read_answer line) (talking (o ++ schedule_message) e s)
unfolding start_round write scheduled_by read_round
start_round-answer fc line o e s = refl

start_round-Ends :
    (fc : Bool) (r : Round) (out : Outcome) (o : Bytes) (e : Error) (s : List ℤ)
    → Ends r out
    → start_round fc r (talking o e s) ≡ settle_round fc out (talking (o ++ schedule_message) e s)
unfolding start_round write scheduled_by read_round
start_round-Ends fc (answer line) out o e s h = rw h refl
start_round-Ends fc timed_out out o e s h = rw h refl
start_round-Ends fc closed out o e s h = rw h refl
start_round-Ends fc broken out o e s h = rw h refl
start_round-Ends fc Round.no_deadline out o e s h = absurd h

start_round-wait :
    (fc : Bool) (line reason o : Bytes) (d : ℤ) (e : Error) (s : List ℤ)
    → read_answer line ≡ wait_error d reason
    → start_round fc (answer line) (talking o e s)
      ≡ again (talking (o ++ schedule_message) e (d ∷ s))
unfolding settle_round
start_round-wait fc line reason o d e s w = start_round-answer fc line o e s ∙ rw w refl

module _ (fuel : ℕ) (fc : Bool) (rounds : ℕ → Round) (i : ℕ) (l l' : Line) where
  start_loop-again :
      start_round fc (rounds i) l ≡ again l'
      → start_loop (suc fuel) fc rounds i l ≡ start_loop fuel fc rounds (suc i) l'
  unfolding start_loop
  start_loop-again h = rw (start_loop, h) refl

  start_loop-stop :
      (result : Started)
      → start_round fc (rounds i) l ≡ stop result l'
      → start_loop (suc fuel) fc rounds i l ≡ (ok result, l')
  unfolding start_loop
  start_loop-stop result h = rw (start_loop, h) refl

start_loop-waits :
    (ds : List ℤ) (fuel : ℕ) (fc : Bool) (rounds : ℕ → Round) (i : ℕ) (o : Bytes) (e : Error)
    (s : List ℤ)
    → Asks rounds i ds
    → start_loop (length ds + fuel) fc rounds i (talking o e s)
      ≡ start_loop fuel fc rounds
          (length ds + i)
          (talking (o ++ asked (length ds)) e (slept_after ds s))
start_loop-waits [] fuel fc rounds i o e s h =
    let none_asked : 0 + fuel ≡ fuel = omega arith in
    let here : 0 + i ≡ i = omega arith in rw (none_asked, here, append-nil) refl
start_loop-waits (d ∷ ds) fuel fc rounds i o e s ((line, reason, r, w), h) =
    let fuelled : suc (length ds) + fuel ≡ suc (length ds + fuel) = omega arith in
    let moved : suc (length ds) + i ≡ length ds + suc i = omega arith in
    let step =
      start_loop-again (length ds + fuel) fc rounds i (talking o e s)
        (talking (o ++ schedule_message) e (d ∷ s))
        (ap (λ (x : Round). start_round fc x (talking o e s)) r
          ∙ start_round-wait fc line reason o d e s w) in
    rw (fuelled, moved)
      (step
        ∙ start_loop-waits ds fuel fc rounds (suc i) (o ++ schedule_message) e (d ∷ s) h
        ∙ ap
            (λ (t : Bytes).
              start_loop fuel fc rounds (length ds + suc i) (talking t e (slept_after ds (d ∷ s))))
            (append_assoc o schedule_message (asked (length ds))))

-- All that is sent in a loop with this many waits.
abbrev pub sent_in : ℕ → Bytes → Bytes
sent_in n o = (o ++ asked n) ++ schedule_message

-- The loop of Start where the governor asks to wait and then gives an outcome.
start_loop-Ends :
    (ds : List ℤ) (fuel : ℕ) (fc : Bool) (rounds : ℕ → Round) (out : Outcome) (result : Started)
    (l : Line) (o : Bytes) (e : Error)
    → Asks rounds 0 ds
    → Ends (rounds (length ds)) out
    → length ds < fuel
    → settle_round fc out (talking (sent_in (length ds) o) e (slept_after ds [])) ≡ stop result l
    → start_loop fuel fc rounds 0 (talking o e []) ≡ (ok result, l)
start_loop-Ends ds fuel fc rounds out result l o e h k f q =
    let n : fuel ≡ length ds + suc (fuel - length ds - 1) = omega arith in
    let here : length ds + 0 ≡ length ds = omega arith in
    let s = slept_after ds [] in
    rw (n, start_loop-waits ds (suc (fuel - length ds - 1)) fc rounds 0 o e [] h, here)
      (start_loop-stop (fuel - length ds - 1) fc rounds (length ds)
        (talking (o ++ asked (length ds)) e s) l result
        (start_round-Ends fc (rounds (length ds)) out (o ++ asked (length ds)) e s k ∙ q))

-- A connection that is closed once this was sent.
abbrev pub hung_up : Bytes → Error → List ℤ → Line
hung_up o e s = record { writer = holding o e; is_open = false; slept = s }

-- Does Start go on without the governor?
abbrev pub verdict : Bool → Outcome → Started
verdict fail_closed (fail_error reason) = refused (fail_error reason)
verdict true (net_error true) = refused (net_error true)
verdict _ _ = unsupervised

-- Neither a go-ahead nor a wait.
abbrev pub IsFailure : Outcome → Type 0
IsFailure scheduled = ⊥
IsFailure (wait_error d reason) = ⊥
IsFailure _ = Unit

-- What Start has written before the loop.
abbrev pub introduced : Daemon → Bytes → Bytes → Bytes
introduced d git_dir o = o ++ update_message d.quote (update_data d git_dir)

module _ (d : Daemon) (git_dir o : Bytes) (e : Error) (fuel : ℕ) (ds : List ℤ)
    (connects : connect d ≡ none) (asks : Asks d.rounds 0 ds) (fuelled : length ds < fuel) where
  start_lem :
      (out : Outcome) (result : Started) (l : Line)
      → Ends (d.rounds (length ds)) out
      → settle_round
          (should_fail_closed d.env)
          out
          (talking (sent_in (length ds) (introduced d git_dir o)) e (slept_after ds []))
        ≡ stop result l
      → start fuel d git_dir (talking o e []) ≡ (ok result, l)
  unfolding start update write start_schedule
  start_lem out result l k q =
      rw (start, connects)
        (start_loop-Ends ds fuel (should_fail_closed d.env) d.rounds out result l
          (introduced d git_dir o) e asks k fuelled q)

  -- If the governor can be reached over a connection that takes everything, answers the first
  -- rounds with a wait each and the next with a go-ahead, and more rounds are allowed than that,
  -- then Start connects, having sent the update, then one schedule message in each round, and
  -- having slept for each duration in its order.
  pub start-connects :
      Ends (d.rounds (length ds)) scheduled
      → start fuel d git_dir (talking o e []) ≡ (
        ok connected,
        talking (sent_in (length ds) (introduced d git_dir o)) e (slept_after ds []),
      )
  start-connects k = start_lem scheduled connected _ k (unfold settle_round in refl)
