-- ===== src/Tests/World.antt =====
-- A repository, its configuration and a client's lines, as data.
use spokes_receive_pack.Base.{List, Option, true, false, [], ◌∷◌, ◌++◌, none, some, Bytes, codes}
use spokes_receive_pack.Base.Exec.{err, eof, unexpected_eof, Error}
use spokes_receive_pack.Config.{Config}
use spokes_receive_pack.Go.Writer.{holding}
use spokes_receive_pack.Pktline
use spokes_receive_pack.Pktline.{Input}
use spokes_receive_pack.Pktline.Caps.{Capabilities, side_band_64k, report_status}
use spokes_receive_pack.Pktline.Reads.{from}
use spokes_receive_pack.Spokes.Command.{Command}
use spokes_receive_pack.Spokes.RefLine.{RefUpdate}
use spokes_receive_pack.Spokes.Programs.{Programs}
use spokes_receive_pack.Spokes.Outside.{Git, IndexPack}
use spokes_receive_pack.Spokes.Execute.{Session, World}
use spokes_receive_pack.Spokes.ReadCommands.{Received}

abbrev pub one : Bytes
one = codes "1111111111111111111111111111111111111111"

abbrev pub two : Bytes
two = codes "2222222222222222222222222222222222222222"

-- `git index-pack` with a line on its standard error.
abbrev pub good_pack : IndexPack
good_pack = record {
  start_error = none;
  stderr_reads = λ n. codes "Resolving" ∷ [];
  exit_error = λ whole. none;
  stdout = none;
  unread = [];
}

abbrev pub failing_pack : IndexPack
failing_pack = record good_pack { start_error = some unexpected_eof }

abbrev pub main_line : Bytes
main_line = one ++ codes " refs/heads/main"

-- A repository with one branch, in which every object is connected.
abbrev pub git_with : IndexPack → Git
git_with run = record {
  index_pack = λ args input. run;
  rev_list = λ oids. none;
  rev_list_object = λ oid. none;
  is_ancestor = λ old new. true;
  for_each_ref = λ args. (main_line ∷ [], none);
  make_quarantine_dirs = none;
  file_size = λ path. none;
  error_text = λ e. codes "failed";
  map_order = λ m. m;
}

-- The programs that make it so.
abbrev pub programs : Programs
programs = record {
  run = λ call. (none, []);
  index_pack = λ call. good_pack;
  for_each_ref = λ args. (main_line ∷ [], none);
  null_device = none;
  mkdir_all = λ path. none;
  remove_all = λ path. none;
  file_size = λ path. none;
  error_text = λ e. codes "failed";
  map_order = λ m. m;
}

abbrev pub no_config : Config
no_config = record { entries = [] }

abbrev pub side_band_caps : Capabilities
side_band_caps = record {
  caps =
      (side_band_64k, record { name = side_band_64k; value = [] })
      ∷ (report_status, record { name = report_status; value = [] })
      ∷ [];
}

abbrev pub no_caps : Capabilities
no_caps = record { caps = [] }

abbrev pub update : RefUpdate
update = record { old_oid = one; new_oid = two; refname = codes "refs/heads/main" }

abbrev pub accepted : Command
accepted = record {
  refname = codes "refs/heads/main";
  old_oid = one;
  new_oid = two;
  err = [];
  report_ff = codes "ok";
}

-- The first error of the stages.
abbrev pub first_error : List (Option Error) → Option Error
first_error [] = none
first_error (none ∷ ends) = first_error ends
first_error (some e ∷ ends) = some e

abbrev pub session_with : IndexPack → Session
session_with run = record {
  announcement = record {
    capabilities = codes "report-status";
    object_format = codes "sha1";
    config = no_config;
    env = λ name. [];
    git = git_with run;
    network_repo_path = err unexpected_eof;
  };
  stateless_rpc = true;
  advertise_refs = false;
  quarantine_folder = codes "/q";
  pipe_error = first_error;
  turns = [];
}

abbrev pub start : World
start = record {
  input = record { line = Pktline.new; reader = from [] eof };
  output = holding [] eof;
  quarantined = false;
  pack_size = 0;
}

abbrev pub pushed : Received
pushed = record {
  commands = accepted ∷ [];
  shallow_info = [];
  capabilities = no_caps;
  first = false;
}
