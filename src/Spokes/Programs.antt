-- ===== src/Spokes/Programs.antt =====
-- The programs that internal/spokes/spokes.go runs, with their arguments and their environment.
pub mod Verified
use spokes_receive_pack.Base.{
  ℕ, Bool, true, false, List, [], ◌∷◌, ◌++◌, Option, none, some, Bytes, codes,
}
use spokes_receive_pack.Base.Exec.{Error, message, wrap}
use spokes_receive_pack.Go.Filepath.{join_path}
use spokes_receive_pack.Spokes.Outside.{IndexPack, Git}

-- One run of git: what exec.Cmd is told.
pub record Call : Type 0 where
  pub args : List Bytes
  pub env : List Bytes
  pub input : Bytes

-- The programs, and what else the operating system does for the receive side.
pub record Programs : Type 0 where
  -- cmd.Run and cmd.CombinedOutput of git: its error, and its output
  pub run : Call → Option Error × Bytes
  pub index_pack : Call → IndexPack
  pub for_each_ref : List Bytes → List Bytes × Option Error
  -- os.OpenFile of the null device
  pub null_device : Option Error
  pub mkdir_all : Bytes → Option Error
  pub remove_all : Bytes → Option Error
  pub file_size : Bytes → Option ℕ
  pub error_text : Error → Bytes
  pub map_order : List (Bytes × List Bytes) → List (Bytes × List Bytes)

-- Where the repository and its quarantine are, and the environment of the program.
pub record Place : Type 0 where
  pub repo_path : Bytes
  pub quarantine_folder : Bytes
  pub environ : List Bytes

-- getAlternateObjectDirsEnv
unfoldable pub get_alternate_object_dirs_env : Place → List Bytes
get_alternate_object_dirs_env r =
    (codes "GIT_ALTERNATE_OBJECT_DIRECTORIES=" ++ join_path (r.repo_path ∷ codes "objects" ∷ []))
    ∷ (codes "GIT_OBJECT_DIRECTORY=" ++ r.quarantine_folder)
    ∷ (codes "GIT_QUARANTINE_PATH=" ++ r.quarantine_folder)
    ∷ []

-- A command of git with the environment of the quarantine.
unfoldable pub quarantined_call : Place → List Bytes → Bytes → Call
quarantined_call r args input = record {
  args = args;
  env = r.environ ++ get_alternate_object_dirs_env r;
  input = input;
}

abbrev pub succeeds : Option Error → Bool
succeeds none = true
succeeds (some e) = false

-- isFastForward
unfoldable pub is_fast_forward : Programs → Place → Bytes → Bytes → Bool
is_fast_forward p r old_oid new_oid =
    succeeds
      (p.run (
        quarantined_call r (codes "merge-base" ∷ codes "--is-ancestor" ∷ old_oid ∷ new_oid ∷ [])
          [])).0

-- Each object id on a line.
unfoldable pub write_new_values : List Bytes → Bytes
write_new_values [] = []
write_new_values (oid ∷ oids) = oid ++ (b'\n' ∷ write_new_values oids)

abbrev pub common_call : Place → List Bytes → Call
common_call r oids =
    quarantined_call r
      (codes "rev-list"
        ∷ codes "--objects"
        ∷ codes "--no-object-names"
        ∷ codes "--stdin"
        ∷ codes "--not"
        ∷ codes "--exclude-hidden=receive"
        ∷ codes "--all"
        ∷ codes "--alternate-refs"
        ∷ [])
      (write_new_values oids)

abbrev pub wrapped_error : Bytes → Option Error → Option Error
wrapped_error text none = none
wrapped_error text (some e) = some (wrap text e)

-- performCheckConnectivity behind its first test, for the object ids of the commands
unfoldable pub check_objects : Programs → Place → List Bytes → Option Error
check_objects p r oids = elim p.null_device [
  | some e ↦ some (wrap (codes "opening /dev/null") e)
  | none ↦ wrapped_error (codes "performCheckConnectivity error") (p.run (common_call r oids)).0
]

abbrev pub object_call : Place → Bytes → Call
object_call r oid =
    quarantined_call r
      (codes "rev-list"
        ∷ codes "--objects"
        ∷ codes "--no-object-names"
        ∷ oid
        ∷ codes "--not"
        ∷ codes "--all"
        ∷ codes "--alternate-refs"
        ∷ [])
      []

unfoldable pub object_error : Programs → Bytes → Option Error × Bytes → Option Error
object_error p oid (none, out) = none
object_error p oid (some e, out) = some (
    message (
      codes "performCheckConnectivityOnObject on oid "
      ++ (oid ++ (codes ": " ++ (p.error_text e ++ (codes ". Details: " ++ out))))))

-- performCheckConnectivityOnObject
unfoldable pub check_object : Programs → Place → Bytes → Option Error
check_object p r oid = object_error p oid (p.run (object_call r oid))

-- What the receive side uses of the programs, for a repository and its quarantine.
unfoldable pub git_of : Programs → Place → Git
git_of p r = record {
  index_pack = λ args input. p.index_pack (quarantined_call r args input);
  rev_list = check_objects p r;
  rev_list_object = check_object p r;
  is_ancestor = is_fast_forward p r;
  for_each_ref = p.for_each_ref;
  make_quarantine_dirs = p.mkdir_all (join_path (r.quarantine_folder ∷ codes "pack" ∷ []));
  file_size = p.file_size;
  error_text = p.error_text;
  map_order = p.map_order;
}
