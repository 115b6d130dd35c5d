-- ===== src/Governor/Schedule.antt =====
-- schedule of internal/governor/governor.go, and Start of internal/governor/conn.go.
pub mod Waits
pub mod Replies
pub mod Leaves
use spokes_receive_pack.Base.{
  ℕ, zero, suc, ◌*◌, ◌+◌, Bool, true, false, not, ◌&&◌, List, [], ◌∷◌, ◌++◌, Option, none, some,
  Bytes, codes, drop, equal, if◌then◌else◌, ℤ, pos, mul_int,
}
use spokes_receive_pack.Base.Exec.{Result, ok, err, spent, Error, Exec}
use spokes_receive_pack.Go.Strings.{split_n, join}
use spokes_receive_pack.Go.Strconv.{atoi}
use spokes_receive_pack.Go.Writer.{Writer, write}
use spokes_receive_pack.Governor.Messages.{UpdateData, update, no_update, read_sockstat}
use spokes_receive_pack.Sockstat.{Environment}

-- What the governor does in one round of the loop of Start.
pub data Round : Type 0 where
  -- SetReadDeadline fails
  no_deadline : Round
  -- a line, less its newline, comes before the deadline
  answer : Bytes → Round
  -- the deadline passes, the connection is closed, or it breaks otherwise
  timed_out closed broken : Round

-- The error that schedule returns, if there is one.
pub data Outcome : Type 0 where
  scheduled : Outcome
  -- WaitError, the duration in nanoseconds
  wait_error : ℤ → Bytes → Outcome
  -- FailError
  fail_error : Bytes → Outcome
  -- a net.Error, and whether it is a timeout
  net_error : Bool → Outcome
  other_error : Error → Outcome

abbrev second : ℕ
second = 1000000000

abbrev default_reason : Bytes
default_reason = codes "UNKNOWN"

-- The duration of a wait: one second if it cannot be parsed, or if there is none.
unfoldable pub wait_duration : List Bytes → ℤ
wait_duration (word ∷ d ∷ rest) = elim (atoi d) [
  | ok n ↦ mul_int n second
  | err e ↦ pos second
  | spent ↦ pos second
]
wait_duration _ = pos second

-- The words from the n-th on, if there are any.
unfoldable pub reason_from : ℕ → List Bytes → Bytes
reason_from n words = elim (drop n words) [ [] ↦ default_reason | w ∷ ws ↦ join b' ' (w ∷ ws) ]

-- The switch over the first word.
unfoldable pub read_words : Bytes → List Bytes → Outcome
read_words line [] = other_error (Error.quoted (codes "unexpected response from governor: ") line)
read_words line (w ∷ ws) =
    if equal w (codes "continue")
    then scheduled
    else if equal w (codes "wait")
    then wait_error (wait_duration (w ∷ ws)) (reason_from 2 (w ∷ ws))
    else if equal w (codes "fail")
    then fail_error (reason_from 1 (w ∷ ws))
    else other_error (Error.quoted (codes "unexpected response from governor: ") line)

-- schedule, behind the read of a line
unfoldable pub read_answer : Bytes → Outcome
unfolding read_words wait_duration reason_from
read_answer line = read_words line (split_n line b' ' 3)

-- The connection, and how long was slept so far, in nanoseconds, the last time first.
pub record Line : Type 0 where
  pub writer : Writer
  pub is_open : Bool
  pub slept : List ℤ

abbrev pub schedule_message : Bytes
schedule_message = codes "{\"command\":\"schedule\"}"

-- schedule, where the read ends as the round says
unfoldable pub read_round : Round → Outcome
read_round no_deadline = scheduled
read_round (answer line) = read_answer line
read_round timed_out = net_error true
read_round closed = other_error Error.eof
read_round broken = net_error false

-- The result of Start: a connection; nil and no error; or nil and an error.
pub data Started : Type 0 where
  connected unsupervised : Started
  refused : Outcome → Started

-- What Start does with the outcome: it ends, or it goes on.
pub data Next : Type 0 where
  stop : Started → Line → Next
  again : Line → Next

abbrev pub close : Line → Line
close l = record l { is_open = false }

-- The switch of Start over the error.
unfoldable pub settle_round : Bool → Outcome → Line → Next
settle_round fail_closed scheduled l = stop connected l
settle_round fail_closed (wait_error d reason) l = again (record l { slept = d ∷ l.slept })
settle_round fail_closed (fail_error reason) l = stop (refused (fail_error reason)) (close l)
settle_round fail_closed (net_error timeout) l =
    stop (if timeout && fail_closed then refused (net_error timeout) else unsupervised) (close l)
settle_round fail_closed (other_error e) l = stop unsupervised (close l)

-- The outcome of schedule where its message was written, or was not.
unfoldable pub scheduled_by : Round → Result (Unit {0}) → Outcome
scheduled_by r (ok u) = read_round r
scheduled_by r _ = net_error false

-- One round of the loop of Start.
unfoldable pub start_round : Bool → Round → Line → Next
start_round fail_closed no_deadline l = stop connected l
start_round fail_closed r l =
    let (written, w) = write schedule_message l.writer in
    settle_round fail_closed (scheduled_by r written) (record l { writer = w })

-- The loop of Start from a round on; the governor decides how long it goes on, so it takes fuel.
unfoldable pub start_loop : ℕ → Bool → (ℕ → Round) → ℕ → Line → Result Started × Line
start_loop zero fail_closed rounds i l = (spent, l)
start_loop (suc fuel) fail_closed rounds i l = elim (start_round fail_closed (rounds i) l) [
  | stop s l' ↦ (ok s, l')
  | again l' ↦ start_loop fuel fail_closed rounds (suc i) l'
]

-- shouldFailClosed
unfoldable pub should_fail_closed : Environment → Bool
should_fail_closed env = equal (env (codes "FAIL_CLOSED")) (codes "1")

-- scheduleTimeout, in nanoseconds: the deadline that decides between the rounds
unfoldable pub schedule_timeout : Environment → ℤ
schedule_timeout env =
    let v = env (codes "SCHEDULE_CMD_TIMEOUT") in
    if equal v []
    then pos second
    else elim (atoi v) [ ok d ↦ mul_int d 1000000 | err e ↦ pos second | spent ↦ pos second ]

-- The process, and the governor that it talks to.
pub record Daemon : Type 0 where
  pub env : Environment
  -- os.Environ
  pub environ : List Bytes
  -- os.Getpid
  pub pid : ℕ
  -- the text of a string in JSON
  pub quote : Bytes → Bytes
  -- DialContext of a socket, with the limit on its time
  pub dial : Bytes → Option Error
  pub rounds : ℕ → Round

-- The socket of the governor.
unfoldable pub socket_path : Environment → Bytes
socket_path env =
    let path = env (codes "GIT_SOCKSTAT_PATH") in
    if equal path [] then codes "/var/run/gitmon/gitstats.sock" else path

-- connect
unfoldable pub connect : Daemon → Option Error
connect d = d.dial (socket_path d.env)

-- The data of the update message.
unfoldable pub update_data : Daemon → Bytes → UpdateData
update_data d git_dir = record (read_sockstat d.env d.environ no_update) {
  pid = d.pid;
  program = codes "spokes-receive-pack";
  git_dir = git_dir;
}

-- Start, behind the update message
unfoldable pub start_schedule : ℕ → Daemon → Line → Result (Unit {0}) → Result Started × Line
start_schedule fuel d l (ok u) = start_loop fuel (should_fail_closed d.env) d.rounds 0 l
start_schedule fuel d l _ = (ok unsupervised, close l)

-- Start; connect opens the connection, whose writer takes what it says
unfoldable pub start : ℕ → Daemon → Bytes → Line → Result Started × Line
start fuel d git_dir l = elim (connect d) [
  | none ↦
      let (sent, w) = update d.quote (update_data d git_dir) l.writer in
      start_schedule fuel d (record l { writer = w; is_open = true }) sent
  | some e ↦ (ok unsupervised, l)
]
