-- ===== src/Spokes/NetworkRepo.antt =====
-- networkRepoPath of internal/spokes/spokes.go: the repository of the network, from the alternates
-- of a fork.
pub mod Forks
use spokes_receive_pack.Base.{
  Bool, true, false, not, List, [], ◌∷◌, ◌++◌, Bytes, codes, if◌then◌else◌,
}
use spokes_receive_pack.Base.Exec.{Result, ok, err, spent, Error, message, quoted, wrap}
use spokes_receive_pack.Go.Strings.{has_prefix, trim_suffix}
use spokes_receive_pack.Go.Filepath.{is_abs, join_path, dir, abs}

-- What the file system answers: os.ReadFile, os.Getwd, and os.Stat with IsDir.
pub record Files : Type 0 where
  pub read_file : Bytes → Result Bytes
  pub getwd : Result Bytes
  pub is_dir : Bytes → Result Bool

-- `if !fi.IsDir()` and what follows
unfoldable pub check_alternates : Bytes → Bytes → Result Bool → Result Bytes
check_alternates repo_path alternates (ok true) =
    if has_prefix alternates (dir repo_path)
    then ok (dir alternates)
    else err (message (codes "alternates and repo are not in the same parent directory"))
check_alternates repo_path alternates (ok false) =
    err (quoted (codes "alternates path is not a directory: ") alternates)
check_alternates repo_path alternates (err e) = err e
check_alternates repo_path alternates spent = spent

unfoldable pub stat_alternates : Files → Bytes → Result Bytes → Result Bytes
unfolding check_alternates
stat_alternates fs repo_path (ok alternates) =
    check_alternates repo_path alternates (fs.is_dir alternates)
stat_alternates fs repo_path (err e) = err (wrap (codes "could not get absolute repo path") e)
stat_alternates fs repo_path spent = spent

-- `if !filepath.IsAbs(alternates)`
unfoldable pub absolute : Files → Bytes → Bytes → Result Bytes
absolute fs repo_path alternates =
    if is_abs alternates
    then ok alternates
    else abs fs.getwd (join_path (repo_path ∷ codes "objects" ∷ alternates ∷ []))

-- what follows os.ReadFile
unfoldable pub from_alternates : Files → Bytes → Result Bytes → Result Bytes
unfolding stat_alternates absolute
from_alternates fs repo_path (ok text) =
    stat_alternates fs repo_path (absolute fs repo_path (trim_suffix text (codes "\n")))
from_alternates fs repo_path (err e) =
    err (wrap (codes "could not read objects/info/alternates of '" ++ (repo_path ++ codes "'")) e)
from_alternates fs repo_path spent = spent

-- networkRepoPath
unfoldable pub network_repo_path : Files → Bytes → Result Bytes
unfolding from_alternates
network_repo_path fs repo_path = from_alternates fs repo_path (
    fs.read_file (join_path (repo_path ∷ codes "objects" ∷ codes "info" ∷ codes "alternates" ∷ [])))
