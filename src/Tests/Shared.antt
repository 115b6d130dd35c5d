-- ===== src/Tests/Shared.antt =====
-- Runs of the shared reference discovery, and the path of a network.
use spokes_receive_pack.Base.{
  map, Option, none, some, ℕ, ◌+◌, ◌≤◌, ◌≢◌, true, false, List, [], ◌∷◌, ◌++◌, ◌≡◌, refl, arith,
  Bytes, codes, length, equal,
}
use spokes_receive_pack.Base.Exec.{ok, eof, Error}
use spokes_receive_pack.Go.Strings.{lacks, lacks-Free, has_prefix, to_lower}
use spokes_receive_pack.Go.Strconv.{format_hex, decimal}
use spokes_receive_pack.Go.Filepath.{slashed}
use spokes_receive_pack.Go.Filepath.Names.{IsName}
use spokes_receive_pack.Config.{get_all}
use spokes_receive_pack.ObjectFormat.{null_oid, null_oid_sha1}
use spokes_receive_pack.Sockstat.{Environment, get_uint32}
use spokes_receive_pack.Sockstat.Values.{get_uint32-uint}
use spokes_receive_pack.Spokes.HiddenRefs.{get_hidden_refs, split_rules}
use spokes_receive_pack.Spokes.Discovery.{Announcement, discover, parent_arguments}
use spokes_receive_pack.Spokes.Discovery.Announced.{state}
use spokes_receive_pack.Spokes.Discovery.Shared.{
  discover_shared, run, queries, unhidden_query, parent_query,
}
use spokes_receive_pack.Spokes.Discovery.Shared.Ends.{HasTurns}
use spokes_receive_pack.Spokes.Discovery.Shared.Outputs.{
  answered, AllNone, discover_shared-Shuffles,
}
use spokes_receive_pack.Spokes.Discovery.Shared.Shuffled.{EachChunks, Shuffles}
use spokes_receive_pack.Spokes.Report.Decodes.{joined}
use spokes_receive_pack.Spokes.Discovery.Shared.Agrees.{discover_shared-discover}
use spokes_receive_pack.Spokes.Discovery.Shared.Mixed.{waiting, run_tears}
use spokes_receive_pack.Spokes.Discovery.Shared.Parents.{queries-uint}
use spokes_receive_pack.Spokes.NetworkRepo.{Files, network_repo_path}
use spokes_receive_pack.Spokes.NetworkRepo.Forks.{network_repo_path-relative}
use spokes_receive_pack.Tests.World.{one, main_line, session_with, good_pack, first_error}

abbrev announcement : Announcement
announcement = (session_with good_pack).announcement

abbrev turns : List ℕ
turns = 0 ∷ 0 ∷ 0 ∷ 0 ∷ []

no_rules : (split_rules (get_hidden_refs announcement.config) [] []).1 ≡ []
unfolding split_rules get_hidden_refs get_all to_lower
no_rules = refl

null_oid-short :
    length (null_oid announcement.object_format) + length announcement.capabilities ≤ 65499
unfolding null_oid equal null_oid_sha1
null_oid-short = omega arith

discover_shared-discover_example :
    discover_shared first_error turns announcement (state [] eof false)
    ≡ discover announcement (state [] eof false)
discover_shared-discover_example =
    discover_shared-discover announcement first_error turns (main_line ∷ []) [] eof no_rules refl
      refl ((omega arith, omega arith), tt) null_oid-short refl (omega arith)

answers :
    map announcement.git.for_each_ref (queries announcement) ≡ map answered ((main_line ∷ []) ∷ [])
unfolding queries split_rules get_hidden_refs get_all to_lower unhidden_query parent_query equal
answers = refl

no_error : (es : List (Option Error)) → AllNone es → first_error es ≡ none
no_error [] h = refl
no_error (none ∷ es) (h, hs) = no_error es hs
no_error (some e ∷ es) (h, hs) = absurd (cc h)

fair : HasTurns announcement turns
fair = rw answers (omega arith, tt)

discover_shared-Shuffles_example :
    (css : List (List Bytes)) × (out : List Bytes) × (discover_shared first_error turns announcement
        (state [] eof false)
      ≡ (ok tt, state ([] ++ (joined out ++ codes "0000")) eof true))
    × EachChunks announcement.capabilities ((main_line ∷ []) ∷ []) css
    × Shuffles css out
discover_shared-Shuffles_example =
    discover_shared-Shuffles announcement first_error turns ((main_line ∷ []) ∷ []) answers
      (((omega arith, omega arith), tt), tt) (λ h. cc (h.0)) no_error fair [] eof

abbrev dev_line : Bytes
dev_line = one ++ codes " refs/heads/dev"

run_tears_example :
    (order : List ℕ) × (run
        (codes "quiet")
        order
        (waiting (main_line ∷ []) ∷ waiting (dev_line ∷ []) ∷ [], state [] eof true)
      ≡ (
        waiting [] ∷ waiting [] ∷ [],
        state
            (format_hex (5 + length main_line)
              ++ (format_hex (5 + length dev_line)
                  ++ ((main_line ++ b'\n' ∷ []) ++ (dev_line ++ b'\n' ∷ []))))
            eof
            true,
      ))
run_tears_example =
    run_tears (codes "quiet") main_line dev_line [] [] [] eof (omega arith, omega arith)
      (omega arith, omega arith)

abbrev env : Environment
env name = codes "uint:" ++ decimal 5

has_parent : get_uint32 env (codes "parent_repo_id") ≢ 0
has_parent h = absurd (cc (get_uint32-uint env (codes "parent_repo_id") 5 (omega arith) refl, h))

-- A fork, whose parent has the id 5.
abbrev fork : Announcement
fork = record announcement { env = env; network_repo_path = ok (codes "/network") }

queries-uint_example :
    (before : List (List Bytes)) × (pattern : Bytes) × (queries fork
      ≡ before
        ++ (codes "--git-dir=/network"
            ∷ codes "for-each-ref"
            ∷ codes "--format=%(objectname) .have"
            ∷ pattern
            ∷ [])
          ∷ [])
    × (has_prefix pattern (codes "refs/remotes/uint:") ≡ true)
    × ((codes "--git-dir=/network"
          ∷ codes "for-each-ref"
          ∷ codes "--format=%(objectname) .have"
          ∷ pattern
          ∷ [])
        ≢ parent_arguments fork (get_uint32 env (codes "parent_repo_id")) (codes "/network"))
queries-uint_example = queries-uint fork (codes "/network") has_parent refl

abbrev files : Files
files = record {
  read_file = λ path. ok (codes "../../network.git/objects" ++ b'\n' ∷ []);
  getwd = ok (codes "/");
  is_dir = λ path. ok true;
}

named :
    (x : Bytes)
    → equal x [] ≡ false
    → equal x (codes ".") ≡ false
    → equal x (codes "..") ≡ false
    → lacks b'/' x ≡ true
    → IsName x
named x e d u l = record { no_slash = lacks-Free b'/' x l; not_empty = e; not_dot = d; not_up = u }

fork_IsName : IsName (codes "fork.git")
unfolding equal
fork_IsName = named (codes "fork.git") refl refl refl refl

network_IsName : IsName (codes "network.git")
unfolding equal
network_IsName = named (codes "network.git") refl refl refl refl

data_IsName : IsName (codes "data")
unfolding equal
data_IsName = named (codes "data") refl refl refl refl

network_repo_path-relative_example :
    network_repo_path files (slashed (codes "fork.git" ∷ codes "data" ∷ []))
    ≡ ok (slashed (codes "network.git" ∷ codes "data" ∷ []))
network_repo_path-relative_example =
    network_repo_path-relative files (codes "fork.git") (codes "network.git") (codes "data" ∷ [])
      (fork_IsName, (data_IsName, tt)) network_IsName refl refl
