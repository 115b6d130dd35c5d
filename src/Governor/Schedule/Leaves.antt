-- ===== src/Governor/Schedule/Leaves.antt =====
-- How Start leaves the socket (internal/governor/conn.go).
use spokes_receive_pack.Base.{ℕ, zero, suc, Bool, true, false, Option, none, some, ◌≡◌, refl, Bytes}
use spokes_receive_pack.Base.Exec.{Result, ok, err, spent, Error}
use spokes_receive_pack.Governor.Messages.{update}
use spokes_receive_pack.Governor.Schedule.{
  Round, answer, timed_out, closed, broken, no_deadline, Outcome, scheduled, wait_error, fail_error,
  net_error, other_error, Line, Started, connected, unsupervised, refused, Next, stop, again,
  settle_round, start_round, start_loop, should_fail_closed, Daemon, connect, update_data,
  start_schedule, start,
}

-- Where Start gives no connection, its socket is closed.
abbrev pub LeavesClosed : Result Started → Line → Type 0
LeavesClosed (ok connected) l = Unit
LeavesClosed (ok unsupervised) l = l.is_open ≡ false
LeavesClosed (ok (refused o)) l = l.is_open ≡ false
LeavesClosed (err e) l = ⊥
LeavesClosed spent l = Unit

abbrev StopsClosed : Next → Type 0
StopsClosed (stop s l) = LeavesClosed (ok s) l
StopsClosed (again l) = Unit

settle_round-StopsClosed :
    (fc : Bool) (out : Outcome) (l : Line) → StopsClosed (settle_round fc out l)
unfolding settle_round
settle_round-StopsClosed fc scheduled l = tt
settle_round-StopsClosed fc (wait_error d reason) l = tt
settle_round-StopsClosed fc (fail_error reason) l = refl
settle_round-StopsClosed true (net_error true) l = refl
settle_round-StopsClosed false (net_error true) l = refl
settle_round-StopsClosed true (net_error false) l = refl
settle_round-StopsClosed false (net_error false) l = refl
settle_round-StopsClosed fc (other_error e) l = refl

start_round-StopsClosed : (fc : Bool) (r : Round) (l : Line) → StopsClosed (start_round fc r l)
unfolding start_round
start_round-StopsClosed fc no_deadline l = tt
start_round-StopsClosed fc (answer line) l = settle_round-StopsClosed fc _ _
start_round-StopsClosed fc timed_out l = settle_round-StopsClosed fc _ _
start_round-StopsClosed fc closed l = settle_round-StopsClosed fc _ _
start_round-StopsClosed fc broken l = settle_round-StopsClosed fc _ _

start_loop-LeavesClosed :
    (fuel : ℕ) (fc : Bool) (rounds : ℕ → Round) (i : ℕ) (l : Line)
    → LeavesClosed (start_loop fuel fc rounds i l).0 (start_loop fuel fc rounds i l).1
unfolding start_loop
start_loop-LeavesClosed zero fc rounds i l = tt
start_loop-LeavesClosed (suc fuel) fc rounds i l =
    by_round (start_round fc (rounds i) l) refl (start_round-StopsClosed fc (rounds i) l)
      (λ l'. start_loop-LeavesClosed fuel fc rounds (suc i) l')
  where
    by_round :
        (n : Next)
        → start_round fc (rounds i) l ≡ n
        → StopsClosed n
        → ((l' : Line)
            → LeavesClosed
                (start_loop fuel fc rounds (suc i) l').0
                (start_loop fuel fc rounds (suc i) l').1)
        → LeavesClosed
            (start_loop (suc fuel) fc rounds i l).0
            (start_loop (suc fuel) fc rounds i l).1
    by_round (stop s l') e h next = rw (start_loop, e) h
    by_round (again l') e h next = rw (start_loop, e) (next l')

start_schedule-LeavesClosed :
    (fuel : ℕ) (d : Daemon) (l : Line) (r : Result (Unit {0}))
    → LeavesClosed (start_schedule fuel d l r).0 (start_schedule fuel d l r).1
unfolding start_schedule
start_schedule-LeavesClosed fuel d l (ok u) =
    start_loop-LeavesClosed fuel (should_fail_closed d.env) d.rounds 0 l
start_schedule-LeavesClosed fuel d l (err e) = refl
start_schedule-LeavesClosed fuel d l spent = refl

-- If no socket is open before Start, then none is open behind it, but that of a connection.
pub start-LeavesClosed :
    (fuel : ℕ) (d : Daemon) (git_dir : Bytes) (l : Line)
    → l.is_open ≡ false
    → LeavesClosed (start fuel d git_dir l).0 (start fuel d git_dir l).1
unfolding start
start-LeavesClosed fuel d git_dir l k = by_dial (connect d) refl
  where
    by_dial :
        (o : Option Error)
        → connect d ≡ o
        → LeavesClosed (start fuel d git_dir l).0 (start fuel d git_dir l).1
    by_dial none e =
        let (sent, w) = update d.quote (update_data d git_dir) l.writer in
        rw (start, e)
          (start_schedule-LeavesClosed fuel d (record l { writer = w; is_open = true }) sent)
    by_dial (some x) e = rw (start, e) k
