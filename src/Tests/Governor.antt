-- ===== src/Tests/Governor.antt =====
-- Runs of the client of the governor.
use spokes_receive_pack.Base.{
  ◌*◌, equal, ℕ, zero, suc, true, false, [], ◌∷◌, ◌++◌, Option, none, some, ◌≡◌, refl, arith, Bytes,
  codes, pos,
}
use spokes_receive_pack.Base.Exec.{ok, eof}
use spokes_receive_pack.Go.Strings.{split_n}
use spokes_receive_pack.Go.Strconv.{decimal}
use spokes_receive_pack.Governor.Messages.{no_update, no_finish, read_sockstat}
use spokes_receive_pack.Governor.Messages.Variables.{entry, read_sockstat-group_leader}
use spokes_receive_pack.Governor.Schedule.{
  connect, Round, answer, scheduled, wait_error, connected, Daemon, read_answer, read_words, start,
}
use spokes_receive_pack.Governor.Schedule.Waits.{Asks, talking, sent_in, introduced, start-connects}
use spokes_receive_pack.Governor.Schedule.Replies.{read_answer-wait}
use spokes_receive_pack.Governor.Conn.{Conn, ProcStats, finish}
use spokes_receive_pack.Governor.Procstats.{Proc, get_peak_rss, get_proc_stats}
use spokes_receive_pack.Governor.Procstats.Measured.{IsExtreme, get_proc_stats-IsExtreme}

abbrev plain : Bytes → Bytes
plain s = b'"' ∷ (s ++ b'"' ∷ [])

-- A governor that asks to wait once.
abbrev rounds : Round → ℕ → Round
rounds r zero = answer (codes "wait 2 busy")
rounds r (suc n) = r

abbrev daemon : Round → Daemon
daemon r = record {
  env = λ name. [];
  environ = [];
  pid = 7;
  quote = plain;
  dial = λ path. none;
  rounds = rounds r;
}

reached : (r : Round) → connect (daemon r) ≡ none
unfolding connect
reached r = refl

read_answer-wait_example :
    read_answer (codes "wait " ++ (decimal 2 ++ b' ' ∷ codes "busy"))
    ≡ wait_error (pos (2 * 1000000000)) (codes "busy")
read_answer-wait_example = read_answer-wait 2 (codes "busy") (omega arith)

waits : (r : Round) → Asks (rounds r) 0 (pos 2000000000 ∷ [])
unfolding decimal
waits r =
    ((codes "wait 2 busy", codes "busy", refl, read_answer-wait 2 (codes "busy") (omega arith)), tt)

goes_on : read_answer (codes "continue") ≡ scheduled
unfolding read_answer read_words split_n equal
goes_on = refl

start-connects_example :
    start 5 (daemon (answer (codes "continue"))) (codes "/repo") (talking [] eof []) ≡ (
      ok connected,
      talking
          (sent_in 1 (introduced (daemon (answer (codes "continue"))) (codes "/repo") []))
          eof
          (pos 2000000000 ∷ []),
    )
start-connects_example =
    start-connects (daemon (answer (codes "continue"))) (codes "/repo") [] eof 5
      (pos 2000000000 ∷ []) (reached _) (waits (answer (codes "continue"))) (omega arith) goes_on

abbrev stats : ProcStats
stats = record { cpu = 12; rss = 4096; disk_read_bytes = 0; disk_write_bytes = 0 }

abbrev over : Option Conn
over =
    finish plain stats
      (some (record { has_sock = true; line = talking [] eof []; finish = no_finish }))

read_sockstat-group_leader_example :
    (read_sockstat
      (λ name. [])
      (codes "HOME=/" ∷ entry (codes "group_leader") (codes "bool:true") ∷ [])
      no_update).group_leader
    ≡ false
read_sockstat-group_leader_example =
    read_sockstat-group_leader (λ name. [])
      (codes "HOME=/" ∷ entry (codes "group_leader") (codes "bool:true") ∷ []) no_update refl
      ((λ v e. refl), ((λ v e. refl), tt))

abbrev process : Proc
process = record {
  rusage = none;
  page_size = 4096;
  stat = none;
  io = some (codes "read_bytes: 4096" ++ b'\n' ∷ codes "write_bytes: 512");
  status = some (codes "Name: x" ++ b'\n' ∷ codes "VmHWM: 12 kB");
}

get_proc_stats-IsExtreme_example :
    (get_peak_rss process.status ≡ 0)
    × IsExtreme (get_proc_stats process).disk_read_bytes
    × IsExtreme (get_proc_stats process).disk_write_bytes
get_proc_stats-IsExtreme_example = get_proc_stats-IsExtreme process
