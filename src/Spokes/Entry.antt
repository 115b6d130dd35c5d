-- ===== src/Spokes/Entry.antt =====
-- Exec of internal/spokes/spokes.go: the program from its arguments to its exit code.
pub mod Exits
use spokes_receive_pack.Base.{
  ℕ, Bool, true, false, List, [], ◌∷◌, ◌++◌, Option, none, some, Bytes, codes, length, pos,
}
use spokes_receive_pack.Base.Exec.{Result, ok, err, spent, Error, message, numbered, wrap}
use spokes_receive_pack.Config.{Config, get_config}
use spokes_receive_pack.Go.Filepath.{join_path}
use spokes_receive_pack.Governor.Conn.{Conn, set_error, set_receive_pack_size, finish}
use spokes_receive_pack.Governor.Messages.{no_finish}
use spokes_receive_pack.Governor.Procstats.{Proc, get_proc_stats}
use spokes_receive_pack.Governor.Schedule.{
  Outcome, fail_error, Line, Started, connected, unsupervised, refused, Daemon, start,
}
use spokes_receive_pack.ObjectFormat.{get_object_format}
use spokes_receive_pack.Sockstat.{get_string}
use spokes_receive_pack.Spokes.Execute.{Session, World, execute}
use spokes_receive_pack.Spokes.NetworkRepo.{Files, network_repo_path}
use spokes_receive_pack.Spokes.Programs.{Programs, Place, git_of}
use spokes_receive_pack.Spokes.Supported.{capabilities_line}

-- What the program is started with, and its surroundings.
pub record Machine : Type 0 where
  -- the flags, and the other arguments
  pub stateless_rpc : Bool
  pub http_backend_info_refs : Bool
  pub arguments : List Bytes
  pub chdir_error : Option Error
  pub getwd : Result Bytes
  -- the governor, its connection, and how many of its rounds are followed
  pub daemon : Daemon
  pub line : Line
  pub rounds : ℕ
  -- what git prints for the configuration and for the object format
  pub config_output : Result Bytes
  pub format_output : Result Bytes
  pub version : Bytes
  pub programs : Programs
  pub files : Files
  pub pipe_error : List (Option Error) → Option Error
  pub turns : List ℕ
  pub proc : Proc

-- What Exec returns and leaves.
pub record Exit : Type 0 where
  pub code : ℕ
  pub error : Option Error
  pub world : World
  pub conn : Option Conn
  -- the connection to the governor as Start left it
  pub line : Line

-- `return`, with the deferred g.Finish
unfoldable pub leave : Machine → ℕ → Option Error → Option Conn → World → Result Exit
leave m code error conn w = ok (record {
  code = code;
  error = error;
  world = w;
  conn = finish m.daemon.quote (get_proc_stats m.proc) conn;
  line = m.line;
})

-- g.SetError(1, e.Error()), and the error that is returned
unfoldable pub leave_with : Machine → Error → Error → Option Conn → World → Result Exit
unfolding leave
leave_with m e shown conn w = leave m 1 (some shown) (set_error 1 (m.programs.error_text e) conn) w

-- The repository, and the folder of its quarantine.
abbrev pub place_of : Machine → Bytes → Bytes → Place
place_of m repo_path quarantine_id = record {
  repo_path = repo_path;
  quarantine_folder = join_path (repo_path ∷ codes "objects" ∷ quarantine_id ∷ []);
  environ = m.daemon.environ;
}

-- The spokesReceivePack that Exec builds.
unfoldable pub session_of : Machine → Bytes → Config → Bytes → Bytes → Session
session_of m repo_path config object_format quarantine_id = record {
  announcement = record {
    capabilities = capabilities_line object_format m.version m.daemon.env config;
    object_format = object_format;
    config = config;
    env = m.daemon.env;
    git = git_of m.programs (place_of m repo_path quarantine_id);
    network_repo_path = network_repo_path m.files repo_path;
  };
  stateless_rpc = m.stateless_rpc;
  advertise_refs = m.http_backend_info_refs;
  quarantine_folder = (place_of m repo_path quarantine_id).quarantine_folder;
  pipe_error = m.pipe_error;
  turns = m.turns;
}

-- RemoveQuarantine, for what os.RemoveAll returns, which it drops
unfoldable pub remove_quarantine : Option Error → World → World
remove_quarantine none w = record w { quarantined = false }
remove_quarantine (some e) w = w

-- What follows rp.execute, for the folder of the quarantine
unfoldable pub executed : Machine → Option Conn → Bytes → Result (Unit {0}) × World → Result Exit
unfolding leave leave_with remove_quarantine
executed m conn folder (ok u, w) = leave m 0 none (set_receive_pack_size (pos w.pack_size) conn) w
executed m conn folder (err e, w) =
    leave_with m e (wrap (codes "unexpected error running spokes receive pack") e)
      (set_receive_pack_size (pos w.pack_size) conn)
      (remove_quarantine (m.programs.remove_all folder) w)
executed m conn folder (spent, w) = spent

-- `if quarantineID == ""`, and what follows
unfoldable pub quarantine :
    Machine → Option Conn → Bytes → Config → Bytes → Bytes → World → Result Exit
quarantine m conn repo_path config object_format [] w =
    let e = message (codes "missing required sockstat var quarantine_id") in leave_with m e e conn w
quarantine m conn repo_path config object_format (c ∷ id) w =
    let r = session_of m repo_path config object_format (c ∷ id) in
    executed m conn r.quarantine_folder (execute r w)

-- What follows objectformat.GetObjectFormat
unfoldable pub formatted :
    Machine → Option Conn → Bytes → Config → Result Bytes → World → Result Exit
formatted m conn repo_path config (ok object_format) w =
    quarantine m conn repo_path config object_format
      (get_string m.daemon.env (codes "quarantine_id")) w
formatted m conn repo_path config (err e) w = leave_with m e e conn w
formatted m conn repo_path config spent w = spent

-- What follows config.GetConfig
unfoldable pub configured : Machine → Option Conn → Bytes → Result Config → World → Result Exit
configured m conn repo_path (ok config) w =
    formatted m conn repo_path config (get_object_format m.format_output) w
configured m conn repo_path (err e) w = leave_with m e e conn w
configured m conn repo_path spent w = spent

-- The error of governor.Start.
unfoldable pub refusal : Outcome → Error
refusal (fail_error reason) = message (codes "governor refuses to schedule us: " ++ reason)
refusal _ = message (codes "i/o timeout")

-- `return` where there is no Conn
abbrev pub leave_early : ℕ → Error → World → Line → Result Exit
leave_early code e w l =
    ok (record { code = code; error = some e; world = w; conn = none; line = l })

-- The exit, with the connection as Start left it.
unfoldable pub with_line : Line → Result Exit → Result Exit
with_line l (ok x) = ok (record x { line = l })
with_line l (err e) = err e
with_line l spent = spent

-- What follows governor.Start
unfoldable pub started : Machine → Bytes → Result Started × Line → World → Result Exit
unfolding with_line
started m repo_path (ok connected, l) w = with_line l (
    configured m (some (record { has_sock = true; line = l; finish = no_finish })) repo_path
      (get_config m.config_output) w)
started m repo_path (ok unsupervised, l) w =
    with_line l (configured m none repo_path (get_config m.config_output) w)
started m repo_path (ok (refused o), l) w = leave_early 75 (refusal o) w l
started m repo_path (err e, l) w = leave_early 75 e w l
started m repo_path (spent, l) w = spent

-- What follows os.Getwd
unfoldable pub located : Machine → Result Bytes → World → Result Exit
located m (ok repo_path) w = started m repo_path (start m.rounds m.daemon repo_path m.line) w
located m (err e) w = leave_early 1 e w m.line
located m spent w = spent

-- What follows os.Chdir
unfoldable pub entered : Machine → Option Error → World → Result Exit
entered m none w = located m m.getwd w
entered m (some e) w = leave_early 1 (wrap (codes "error entering repo") e) w m.line

-- `if flag.NArg() != 1`, and what follows
unfoldable pub check_arguments : Machine → List Bytes → World → Result Exit
check_arguments m (name ∷ []) w = entered m m.chdir_error w
check_arguments m names w =
    leave_early 1 (numbered (codes "Unexpected number of keyword args ") (length names)) w m.line

-- Exec
unfoldable pub exec : Machine → World → Result Exit
exec m w = check_arguments m m.arguments w
