-- ===== src/Tests/Entry.antt =====
-- A run of the program in which only the references are asked for, and what starts it in tests.
use spokes_receive_pack.Base.{
  true, false, [], ◌∷◌, none, some, ◌≡◌, ◌≢◌, refl, sym, ◌∙◌, Bytes, codes, equal, if◌then◌else◌,
}
use spokes_receive_pack.Base.Exec.{ok, spent, wrap, eof, unexpected_eof}
use spokes_receive_pack.Governor.Schedule.{connect, Daemon, Line, timed_out, start, start_schedule}
use spokes_receive_pack.Governor.Schedule.Waits.{talking}
use spokes_receive_pack.Sockstat.{Environment, get_bool, bool_value}
use spokes_receive_pack.Spokes.Entry.{Machine, session_of}
use spokes_receive_pack.Spokes.Entry.Exits.{Discovers}
use spokes_receive_pack.Client.Chdir.{chdir_all, clean_up, clean_up-chdir_all}
use spokes_receive_pack.Main.{
  Ended, main, Process, execute_receive_pack, run_main, leave_wrapper, wrapper_main,
  networked_wrapper_main,
}
use spokes_receive_pack.Main.Exits.{IsHonest, main-IsHonest}
use spokes_receive_pack.Tests.World.{programs, first_error, no_config, main_line}
use spokes_receive_pack.Tests.World

abbrev env : Environment
env name =
    if equal name (codes "GIT_SOCKSTAT_VAR_quarantine_id")
    then codes "q"
    else if equal name (codes "GIT_SOCKSTAT_VAR_spokes_receive_pack_isolated_reference_discovery")
    then codes "bool:true"
    else []

abbrev daemon : Daemon
daemon = record {
  env = env;
  environ = [];
  pid = 7;
  quote = λ s. s;
  dial = λ path. some unexpected_eof;
  rounds = λ i. timed_out;
}

-- Before the governor is dialled.
abbrev hung_up : Line
hung_up = record (talking [] eof []) { is_open = false }

abbrev machine : Machine
machine = record {
  stateless_rpc = true;
  http_backend_info_refs = true;
  arguments = codes "/repo" ∷ [];
  chdir_error = none;
  getwd = ok (codes "/repo");
  daemon = daemon;
  line = hung_up;
  rounds = 1;
  config_output = ok [];
  format_output = ok (codes "sha1");
  version = codes "1";
  programs = programs;
  files = record { read_file = λ p. ok []; getwd = ok []; is_dir = λ p. ok false };
  pipe_error = first_error;
  turns = [];
  proc = record { rusage = none; page_size = 4096; stat = none; io = none; status = none };
}

starts : (path : Bytes) → (start 1 daemon path hung_up).0 ≢ spent
unfolding start start_schedule connect
starts path h = cc h

isolated : get_bool env (codes "spokes_receive_pack_isolated_reference_discovery") ≡ true
unfolding get_bool bool_value equal
isolated = refl

printed_config : machine.config_output ≢ spent
printed_config h = cc h

printed_format : machine.format_output ≢ spent
printed_format h = cc h

in_directory : machine.getwd ≢ spent
in_directory h = cc h

discovers :
    (path : Bytes)
    → Discovers machine World.start refl refl
        (λ p. refl)
        printed_config
        printed_format
        in_directory
        path
unfolding session_of
discovers path config format p q h = absurd (cc (sym isolated ∙ h))

main-IsHonest_example : (y : Ended) × (main machine World.start ≡ ok y) × IsHonest y
main-IsHonest_example =
    main-IsHonest machine World.start refl refl (λ p. refl) printed_config printed_format
      in_directory (λ path h. (starts path, discovers path))

-- A process that starts, and one that does not, as the wrappers report them.
abbrev self : Process Bytes
self = record {
  name = codes "wrapper";
  args = [];
  env = none;
  stdin = [];
  stdout = [];
  stderr = [];
}

wrapper_ends : (wrapper_main (λ p. none) (λ e. codes "failed") self []).0 ≡ 0
unfolding wrapper_main run_main leave_wrapper
wrapper_ends = refl

networked_wrapper_ends :
    (networked_wrapper_main (λ p. some eof) (λ e. codes "failed") self []).0 ≡ 1
unfolding networked_wrapper_main run_main leave_wrapper
networked_wrapper_ends = refl

executor_fails :
    execute_receive_pack {Stream = Bytes}
      (λ p. some eof)
      (record { stdin = []; stdout = []; stderr = []; args = [] })
    ≡ some (wrap (codes "unexpected error executing the git-receive-pack Git command") eof)
unfolding execute_receive_pack
executor_fails = refl

clean_up-chdir_all_example :
    (let s =
        chdir_all
          (λ wd. none)
          (λ wd dir. ok dir)
          (codes "/a" ∷ codes "/b" ∷ [])
          (record { wd = codes "/t"; cleanups = [] }) in
      clean_up (λ wd. none) (λ wd dir. ok dir) s.cleanups s.wd)
    ≡ codes "/t"
clean_up-chdir_all_example =
    clean_up-chdir_all (λ wd. none) (λ wd dir. ok dir) (codes "/t") (codes "/a" ∷ codes "/b" ∷ [])
      (λ x. refl)
